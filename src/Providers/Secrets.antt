-- ===== src/Providers/Secrets.antt =====
-- The calls of internal/store/store.go that leave the secret of the active key of a provider alone.
use mathlib.Core.Option
use mathlib.Core.Option.{Option, none, some}
use pins.Prelude.{
  ◌≡◌, refl, sym, ap, ◌∙◌, false, not, List, [], ◌∷◌, ◌++◌, find, is_some, if◌then◌else◌,
  Bool-cases, inl, inr, guard_cases,
}
use pins.Go.Text.{Str, text_eq, is_empty}
use pins.Providers.{
  KeyRecord, KeySet, find_key, change_key, pending, new_key, start_keys, verify_key, verify_keys,
  revoke_key, revoke_previous_keys, revoke_keys, clear_id,
}
use pins.Providers.Updates.{find_key-change_key}
use pins.Providers.Store.{active_secret}

-- The secret stays that of the active key, if another key is changed, or this one but for its secret.
active_secret-change_key :
    (ks : KeySet) (p v id : Str) (change : KeyRecord → KeyRecord)
    → ((k : KeyRecord) → (change k).id ≡ k.id)
    → ((k : KeyRecord) → (change k).secret ≡ k.secret)
    → active_secret
        (record ks { pending_id = p; previous_id = v; keys = change_key id change ks.keys })
      ≡ active_secret ks
unfolding active_secret
active_secret-change_key ks p v id change same keeps =
    ap (λ found. if is_empty ks.active_id then none else found)
      (find_key-change_key (λ k. k.secret) ks.active_id id change ks.keys same keeps)

pub verify_keys-secret :
    (now : Str) (ks : KeySet) {after : KeySet}
    → verify_keys now ks ≡ some after
    → active_secret after ≡ active_secret ks
unfolding verify_keys
verify_keys-secret now ks {after} e = guard_cases (not (is_empty ks.pending_id)) _ e λ _ e1.
    guard_cases (is_some (find_key ks.pending_id ks.keys)) _ e1 λ _ e2.
      let same : record ks { keys = change_key ks.pending_id (verify_key now) ks.keys } ≡ after =
        cc in
      ap active_secret (sym same)
      ∙ active_secret-change_key ks ks.pending_id ks.previous_id ks.pending_id (verify_key now)
          (λ k. refl) (λ k. refl)

pub revoke_previous_keys-secret :
    (now : Str) (ks : KeySet) {after : KeySet}
    → revoke_previous_keys now ks ≡ some after
    → active_secret after ≡ active_secret ks
unfolding revoke_previous_keys
revoke_previous_keys-secret now ks {after} e =
    guard_cases (not (is_empty ks.previous_id)) _ e λ _ e1.
      guard_cases (is_some (find_key ks.previous_id ks.keys)) _ e1 λ _ e2.
        let same : record ks {
          previous_id = [];
          keys = change_key ks.previous_id (revoke_key now) ks.keys;
        }
            ≡ after =
          cc in
        ap active_secret (sym same)
        ∙ active_secret-change_key ks ks.pending_id [] ks.previous_id (revoke_key now) (λ k. refl)
            (λ k. refl)

pub revoke_keys-secret :
    (now key_id : Str) (ks : KeySet) {after : KeySet}
    → revoke_keys now key_id ks ≡ some after
    → active_secret after ≡ active_secret ks
unfolding revoke_keys
revoke_keys-secret now key_id ks {after} e =
    guard_cases (not (text_eq ks.active_id key_id)) _ e λ _ e1.
      guard_cases (is_some (find_key key_id ks.keys)) _ e1 λ _ e2.
        let p = clear_id ks.pending_id key_id in
        let v = clear_id ks.previous_id key_id in
        let same : record ks {
          pending_id = p;
          previous_id = v;
          keys = change_key key_id (revoke_key now) ks.keys;
        }
            ≡ after =
          cc in
        ap active_secret (sym same)
        ∙ active_secret-change_key ks p v key_id (revoke_key now) (λ k. refl) (λ k. refl)

find_key-append :
    (id : Str) (keys : List KeyRecord) (k : KeyRecord)
    → text_eq k.id id ≡ false
    → find_key id (keys ++ (k ∷ [])) ≡ find_key id keys
unfolding find_key find
find_key-append id [] k h = rw h refl
find_key-append id (x ∷ xs) k h = elim (Bool-cases (text_eq x.id id)) [
  | inl e ↦ rw e refl
  | inr e ↦ rw e (find_key-append id xs k h)
]

pub start_keys-secret :
    (now id secret : Str) (ks : KeySet) {after : KeySet}
    → text_eq id ks.active_id ≡ false
    → start_keys now id secret ks ≡ some after
    → active_secret after ≡ active_secret ks
unfolding start_keys active_secret
start_keys-secret now id secret ks {after} differ e =
    guard_cases (is_empty ks.pending_id) _ e λ _ e1.
      let k = new_key id pending secret now [] in
      let same : record ks { pending_id = id; keys = ks.keys ++ (k ∷ []) } ≡ after = cc in
      ap active_secret (sym same)
      ∙ ap (λ found. if is_empty ks.active_id then none else Option.map (λ r. r.secret) found)
          (find_key-append ks.active_id ks.keys k differ)
