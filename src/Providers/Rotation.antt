-- ===== src/Providers/Rotation.antt =====
-- A rotation of internal/store/store.go: which key a provider has after a commit, and after the
-- rollback of one.
use mathlib.Core.Option
use mathlib.Core.Option.{Option, none, some}
use pins.Prelude.{
  ℕ, zero, suc, ◌≡◌, refl, sym, ap, ◌∙◌, true, false, not, ◌&&◌, List, arith, is_some, Bool-cases,
  Option-cases, inl, inr, bind_cases, guard_cases,
}
use pins.Prelude.Int.{pos}
use pins.Go.Text.{Str, text_eq_refl, is_empty}
use pins.Go.Fold.{trim_space}
use pins.Go.Map.{lookup, lookup-insert}
use pins.Policy.Store.{Saving, written, restored, kept}
use pins.Providers.{
  KeyRecord, KeySet, find_key, change_key, Clock, step_down, step_up, demote_active,
  promote_pending, commit_keys, back_down, back_up, rollback_keys,
}
use pins.Providers.Updates.{find_key-change_key}
use pins.Providers.Store.{
  KeyStore, save_keys, active_secret, sync_active, put_set, finish_sync, on_set, normalize_provider,
  rotate_commit, rotate_rollback, get_provider_key,
}
use pins.Providers.History.{on_set-some}

abbrev secret_of_key : Str → List KeyRecord → Option Str
secret_of_key id keys = Option.map (λ k. k.secret) (find_key id keys)

secret_of_key-change_key :
    (id' id : Str) (change : KeyRecord → KeyRecord) (keys : List KeyRecord)
    → ((k : KeyRecord) → (change k).id ≡ k.id)
    → ((k : KeyRecord) → (change k).secret ≡ k.secret)
    → secret_of_key id' (change_key id change keys) ≡ secret_of_key id' keys
secret_of_key-change_key id' id change keys same keeps =
    find_key-change_key (λ k. k.secret) id' id change keys same keeps

step_down-id : (c : Clock) (hours : ℕ) (k : KeyRecord) → (step_down c hours k).id ≡ k.id
step_down-id c zero k = refl
step_down-id c (suc n) k = refl

step_down-secret : (c : Clock) (hours : ℕ) (k : KeyRecord) → (step_down c hours k).secret ≡ k.secret
step_down-secret c zero k = refl
step_down-secret c (suc n) k = refl

demote_active-secret :
    (c : Clock) (hours : ℕ) (ks : KeySet) (id : Str)
    → secret_of_key id (demote_active c hours ks).keys ≡ secret_of_key id ks.keys
unfolding demote_active
demote_active-secret c hours ks id =
    elim (Bool-cases (not (is_empty ks.active_id) && is_some (find_key ks.active_id ks.keys))) [
      | inl e ↦ rw e (
          secret_of_key-change_key id ks.active_id (step_down c hours) ks.keys
            (step_down-id c hours) (step_down-secret c hours))
      | inr e ↦ rw e refl
    ]

demote_active-pending_id :
    (c : Clock) (hours : ℕ) (ks : KeySet) → (demote_active c hours ks).pending_id ≡ ks.pending_id
unfolding demote_active
demote_active-pending_id c hours ks =
    elim (Bool-cases (not (is_empty ks.active_id) && is_some (find_key ks.active_id ks.keys))) [
      | inl e ↦ rw e refl
      | inr e ↦ rw e refl
    ]

-- The set after a commit: its secrets are those of before, and the active key is the one that was
-- pending.
record Committed (ks after : KeySet) : Type 0 where
  new : KeyRecord
  found : find_key ks.pending_id ks.keys ≡ some new
  named : is_empty ks.pending_id ≡ false
  verified : is_empty (trim_space new.verified_at) ≡ false
  active_id : after.active_id ≡ ks.pending_id
  secrets : (id : Str) → secret_of_key id after.keys ≡ secret_of_key id ks.keys

commit_keys-Committed :
    (c : Clock) (hours : ℕ) (ks : KeySet) {after : KeySet}
    → commit_keys c hours ks ≡ some after
    → Committed ks after
unfolding commit_keys promote_pending
commit_keys-Committed c hours ks {after} e =
    guard_cases (not (is_empty ks.pending_id)) _ e λ there e1.
      bind_cases (find_key ks.pending_id ks.keys) _ e1 λ k e2 e3.
        guard_cases (not (is_empty (trim_space k.verified_at))) _ e3 λ checked e4.
          let down = demote_active c hours ks in
          let same : promote_pending down ≡ after = cc in
          record {
            new = k;
            found = e2;
            named = ground arith;
            verified = ground arith;
            active_id = ap (λ x. x.active_id) (sym same) ∙ demote_active-pending_id c hours ks;
            secrets = λ id.
                ap (λ x. secret_of_key id x.keys) (sym same)
                ∙ (secret_of_key-change_key id down.pending_id step_up down.keys (λ k. refl)
                      (λ k. refl)
                    ∙ demote_active-secret c hours ks id);
          }

-- What `GetProviderKey` gives where the set names an active key that is there.
get_provider_key_lem :
    (lower : Str → Str) (s : KeyStore) (provider : Str) {ks : KeySet} {secret : Str}
    → lookup s.memory.key_sets (normalize_provider lower provider) ≡ some ks
    → is_empty ks.active_id ≡ false
    → secret_of_key ks.active_id ks.keys ≡ some secret
    → get_provider_key lower s provider ≡ secret
unfolding get_provider_key
get_provider_key_lem lower s provider {ks} {secret} found named e =
    elim (Option-cases (find_key ks.active_id ks.keys)) [
      | inl missing ↦ absurd (cc (rw missing at e))
      | inr (k, there) ↦ rw (found, get_provider_key, named, there) (cc (rw there at e))
    ]

-- A call that ends well has written the set that it made.
finish_sync-done :
    (how : Saving) (s : KeyStore) (p : Str) (o : Option KeySet) {t : KeyStore}
    → finish_sync how s p o ≡ (t, true)
    → (ks : KeySet) × (o ≡ some ks) × (lookup t.memory.key_sets p ≡ some ks)
unfolding finish_sync save_keys sync_active put_set
finish_sync-done how s p none e = absurd (cc (ap (λ x. x.1) e))
finish_sync-done restored s p (some ks) e = absurd (cc (ap (λ x. x.1) e))
finish_sync-done kept s p (some ks) e = absurd (cc (ap (λ x. x.1) e))
finish_sync-done written s p (some ks) e = (
  ks,
  refl,
  ap (λ x. lookup x.0.memory.key_sets p) (sym e)
      ∙ (lookup-insert s.memory.key_sets p p ks ∙ rw (text_eq_refl p) refl),
)

-- The key that was pending.
pub record Promoted (lower : Str → Str) (s t : KeyStore) (provider : Str) : Type 0 where
  pub set : KeySet
  pub stored : lookup s.memory.key_sets (normalize_provider lower provider) ≡ some set
  pub key : KeyRecord
  pub was_pending : find_key set.pending_id set.keys ≡ some key
  pub was_verified : is_empty (trim_space key.verified_at) ≡ false
  pub now_used : get_provider_key lower t provider ≡ key.secret

commit-named :
    (lower : Str → Str) (how : Saving) (c : Clock) (s : KeyStore) (provider : Str) (hours : ℕ)
    {t : KeyStore}
    → rotate_commit lower how c s provider (pos hours) ≡ (t, true)
    → is_empty (normalize_provider lower provider) ≡ false
unfolding rotate_commit
commit-named lower how c s provider hours e =
    elim (Bool-cases (is_empty (normalize_provider lower provider))) [
      | inr named ↦ named
      | inl nothing ↦ absurd (cc (ap (λ x. x.1) (rw nothing at e)))
    ]

committed :
    (lower : Str → Str) (how : Saving) (c : Clock) (s : KeyStore) (provider : Str) (hours : ℕ)
    {t : KeyStore}
    → rotate_commit lower how c s provider (pos hours) ≡ (t, true)
    → (ks after : KeySet) × (lookup s.memory.key_sets (normalize_provider lower provider) ≡ some ks)
      × (commit_keys c hours ks ≡ some after)
      × (lookup t.memory.key_sets (normalize_provider lower provider) ≡ some after)
unfolding rotate_commit
committed lower how c s provider hours {t} e =
    let p = normalize_provider lower provider in
    let named = commit-named lower how c s provider hours e in
    let ended : finish_sync how s p (on_set s p (commit_keys c hours)) ≡ (t, true) =
      rw named at e in
    let (after, made, kept_set) =
      finish_sync-done how s p (on_set s p (commit_keys c hours)) ended in
    let (ks, stored, changed) = on_set-some s p (commit_keys c hours) made in
    (ks, after, stored, changed, kept_set)

-- If a commit ends without an error, then the provider had a pending key that was verified, and the
-- key that is given out for it is now this one.
pub rotate_commit-Promoted :
    (lower : Str → Str) (how : Saving) (c : Clock) (s : KeyStore) (provider : Str) (hours : ℕ)
    (t : KeyStore)
    → rotate_commit lower how c s provider (pos hours) ≡ (t, true)
    → Promoted lower s t provider
rotate_commit-Promoted lower how c s provider hours t e =
    let (ks, after, stored, changed, kept_set) = committed lower how c s provider hours e in
    let done = commit_keys-Committed c hours ks changed in
    let secret : secret_of_key after.active_id after.keys ≡ some done.new.secret =
      ap (λ i. secret_of_key i after.keys) done.active_id
      ∙ (done.secrets ks.pending_id ∙ ap (Option.map (λ k. k.secret)) done.found) in
    let named : is_empty after.active_id ≡ false =
      ap (λ i. is_empty i) done.active_id ∙ done.named in
    record {
      set = ks;
      stored = stored;
      key = done.new;
      was_pending = done.found;
      was_verified = done.verified;
      now_used = get_provider_key_lem lower t provider kept_set named secret;
    }

found_secret :
    (id : Str) (keys : List KeyRecord) {x : Str}
    → secret_of_key id keys ≡ some x
    → is_some (find_key id keys) ≡ true
found_secret id keys e = elim (Option-cases (find_key id keys)) [
  | inl missing ↦ absurd (cc (rw missing at e))
  | inr (k, there) ↦ rw there refl
]

demote_active-previous :
    (c : Clock) (n : ℕ) (ks : KeySet)
    → is_empty ks.active_id ≡ false
    → is_some (find_key ks.active_id ks.keys) ≡ true
    → (demote_active c (suc n) ks).previous_id ≡ ks.active_id
unfolding demote_active
demote_active-previous c n ks named found = rw (named, found) refl

commit_keys-previous :
    (c : Clock) (n : ℕ) (ks : KeySet) {after : KeySet}
    → commit_keys c (suc n) ks ≡ some after
    → is_empty ks.active_id ≡ false
    → is_some (find_key ks.active_id ks.keys) ≡ true
    → after.previous_id ≡ ks.active_id
unfolding commit_keys promote_pending
commit_keys-previous c n ks {after} e named there =
    guard_cases (not (is_empty ks.pending_id)) _ e λ _ e1.
      bind_cases (find_key ks.pending_id ks.keys) _ e1 λ k e2 e3.
        guard_cases (not (is_empty (trim_space k.verified_at))) _ e3 λ _ e4.
          let same : promote_pending (demote_active c (suc n) ks) ≡ after = cc in
          ap (λ x. x.previous_id) (sym same) ∙ demote_active-previous c n ks named there

on_set_found :
    (s : KeyStore) (p : Str) (change : KeySet → Option KeySet) {ks : KeySet}
    → lookup s.memory.key_sets p ≡ some ks
    → on_set s p change ≡ change ks
on_set_found s p change e = rw (e, on_set) refl

saved :
    (s : KeyStore) (p : Str) (ks : KeySet)
    → finish_sync written s p (some ks) ≡ ((finish_sync written s p (some ks)).0, true)
unfolding finish_sync save_keys
saved s p ks = refl

-- A rollback of a commit, on the set.
record Returned (now old : Str) (ks after : KeySet) : Type 0 where
  back : KeySet
  made : rollback_keys now after ≡ some back
  active_id : back.active_id ≡ ks.active_id
  secret : secret_of_key ks.active_id back.keys ≡ some old

rollback_keys-Returned :
    (now old : Str) (c : Clock) (n : ℕ) (ks : KeySet) {after : KeySet}
    → commit_keys c (suc n) ks ≡ some after
    → is_empty ks.active_id ≡ false
    → secret_of_key ks.active_id ks.keys ≡ some old
    → Returned now old ks after
unfolding rollback_keys
rollback_keys-Returned now old c n ks {after} e named secret =
    let done = commit_keys-Committed c (suc n) ks e in
    let previous = commit_keys-previous c n ks e named (found_secret ks.active_id ks.keys secret) in
    let there : is_empty after.previous_id ≡ false = ap (λ i. is_empty i) previous ∙ named in
    let old_secret : secret_of_key after.previous_id after.keys ≡ some old =
      ap (λ i. secret_of_key i after.keys) previous ∙ (done.secrets ks.active_id ∙ secret) in
    let new_secret : secret_of_key after.active_id after.keys ≡ some done.new.secret =
      ap (λ i. secret_of_key i after.keys) done.active_id
      ∙ (done.secrets ks.pending_id ∙ ap (Option.map (λ k. k.secret)) done.found) in
    let found = found_secret after.previous_id after.keys old_secret in
    let found' = found_secret after.active_id after.keys new_secret in
    let keys' = change_key after.active_id (back_down now) after.keys in
    record {
      back = record after {
        active_id = after.previous_id;
        previous_id = after.active_id;
        keys = change_key after.previous_id back_up keys';
      };
      made = rw (there, found, found') refl;
      active_id = previous;
      secret =
          secret_of_key-change_key ks.active_id after.previous_id back_up keys' (λ k. refl)
            (λ k. refl)
          ∙ (secret_of_key-change_key ks.active_id after.active_id (back_down now) after.keys
                (λ k. refl) (λ k. refl)
              ∙ (done.secrets ks.active_id ∙ secret));
    }

-- If a commit that keeps the previous key ends without an error, and the provider had an active key,
-- then a rollback whose state can be written ends without an error, and the key that is given out is
-- again that active key.
pub rotate_rollback-rotate_commit :
    (lower : Str → Str) (how : Saving) (c c' : Clock) (s t : KeyStore) (provider : Str) (n : ℕ)
    (ks : KeySet) (old : Str)
    → lookup s.memory.key_sets (normalize_provider lower provider) ≡ some ks
    → is_empty ks.active_id ≡ false
    → active_secret ks ≡ some old
    → rotate_commit lower how c s provider (pos (suc n)) ≡ (t, true)
    → ((rotate_rollback lower written c' t provider).1 ≡ true)
      × (get_provider_key lower (rotate_rollback lower written c' t provider).0 provider ≡ old)
      × (get_provider_key lower s provider ≡ old)
unfolding rotate_rollback active_secret
rotate_rollback-rotate_commit lower how c c' s t provider n ks old stored named secret e =
    let (ks', after, stored', changed, kept_set) = committed lower how c s provider (suc n) e in
    let same : ks' ≡ ks = cc in
    let secret' : secret_of_key ks.active_id ks.keys ≡ some old = rw named at secret in
    let r =
      rollback_keys-Returned c'.now old c n ks (ap (commit_keys c (suc n)) (sym same) ∙ changed)
        named secret' in
    let p = normalize_provider lower provider in
    let nonempty = commit-named lower how c s provider (suc n) e in
    let ended : rotate_rollback lower written c' t provider
        ≡ finish_sync written t p (some r.back) =
      rw nonempty (
        ap (finish_sync written t p) (on_set_found t p (rollback_keys c'.now) kept_set ∙ r.made)) in
    let (back, made, in_store) =
      finish_sync-done written t p (some r.back) {t = (finish_sync written t p (some r.back)).0}
        (saved t p r.back) in
    let same_back : back ≡ r.back = cc in
    let active : back.active_id ≡ ks.active_id = ap (λ x. x.active_id) same_back ∙ r.active_id in
    let again : secret_of_key back.active_id back.keys ≡ some old =
      ap (λ i. secret_of_key i back.keys) active
      ∙ (ap (λ x. secret_of_key ks.active_id x.keys) same_back ∙ r.secret) in
    let got =
      get_provider_key_lem lower (finish_sync written t p (some r.back)).0 provider in_store
        (ap (λ i. is_empty i) active ∙ named) again in
    (
      ap (λ x. x.1) ended ∙ ap (λ x. x.1) (saved t p r.back),
      ap (λ x. get_provider_key lower x.0 provider) ended ∙ got,
      get_provider_key_lem lower s provider stored named secret',
    )
