-- ===== src/Providers/Added.antt =====
-- `SetProviderKey` and `RotateProviderKeyStart` of internal/store/store.go, which add a key, keep the
-- keys of a provider consistent, where the identifier of the new one is new.
use pins.Prelude.{
  ◌≡◌, refl, sym, ap, subst, ◌∙◌, Bool, true, false, not, ◌&&◌, ◌||◌, &&-eq_true, ||-eq_false, List,
  [], ◌∷◌, ◌++◌, some, arith, any, all, All, Bool-cases, inl, inr, guard_cases,
}
use pins.Go.Text.{Str, text_eq, text_eq_iff, text_eq_refl, is_empty, empty-nil}
use pins.Providers.{
  active, pending, previous, revoked, KeyRecord, KeySet, has_id, retire, retire_all, new_key,
  set_keys, start_keys,
}
use pins.Providers.Updates.{Distinct}
use pins.Providers.Consistent.{fits, known, Consistent, id_not_empty, known_nil}

-- The identifier is not empty, and no key has it.
abbrev pub is_new : Str → List KeyRecord → Bool
is_new id keys = not (is_empty id) && not (any (has_id id) keys)

new_apart :
    (id : Str) (keys : List KeyRecord)
    → any (has_id id) keys ≡ false
    → All (λ b. text_eq b.id id ≡ false) keys
unfolding any
new_apart id [] h = tt
new_apart id (k ∷ keys) h =
    let (one, more) = ||-eq_false (text_eq k.id id) (any (has_id id) keys) h in
    (one, new_apart id keys more)

Distinct-append :
    (keys : List KeyRecord) (k : KeyRecord)
    → Distinct keys
    → All (λ b. text_eq b.id k.id ≡ false) keys
    → Distinct (keys ++ (k ∷ []))
Distinct-append [] k d h = (tt, tt)
Distinct-append (x ∷ xs) k d h = (with_last xs d.0, Distinct-append xs k d.1 h.1)
  where
    with_last :
        (ys : List KeyRecord)
        → All (λ b. text_eq x.id b.id ≡ false) ys
        → All (λ b. text_eq x.id b.id ≡ false) (ys ++ (k ∷ []))
    with_last [] a = (h.0, tt)
    with_last (y ∷ ys) a = (a.0, with_last ys a.1)

all-append :
    (q : KeyRecord → Bool) (keys : List KeyRecord) (k : KeyRecord)
    → all q keys ≡ true
    → q k ≡ true
    → all q (keys ++ (k ∷ [])) ≡ true
unfolding all
all-append q [] k h e = ground arith
all-append q (x ∷ xs) k h e =
    let (one, more) = &&-eq_true (q x) (all q xs) h in
    let rest = all-append q xs k more e in ground arith

any-append :
    (q : KeyRecord → Bool) (keys : List KeyRecord) (k : KeyRecord)
    → any q (keys ++ (k ∷ [])) ≡ (any q keys || q k)
unfolding any
any-append q [] k = ground arith
any-append q (x ∷ xs) k = ground (arith, any-append q xs k)

all_weaken :
    (id : Str) (p q : KeyRecord → Bool) (keys : List KeyRecord)
    → ((k : KeyRecord) → p k ≡ true → text_eq k.id id ≡ false → q k ≡ true)
    → all p keys ≡ true
    → All (λ b. text_eq b.id id ≡ false) keys
    → all q keys ≡ true
unfolding all
all_weaken id p q [] f h a = refl
all_weaken id p q (k ∷ keys) f h a =
    let (one, more) = &&-eq_true (p k) (all p keys) h in
    let here = f k one a.0 in let rest = all_weaken id p q keys f more a.1 in ground arith

known_append :
    (id : Str) (keys : List KeyRecord) (k : KeyRecord)
    → known id keys ≡ true
    → known id (keys ++ (k ∷ [])) ≡ true
unfolding known
known_append id keys k h = ground (arith, any-append (has_id id) keys k)

known_last : (keys : List KeyRecord) (k : KeyRecord) → known k.id (keys ++ (k ∷ [])) ≡ true
unfolding known
known_last keys k = ground (arith, any-append (has_id k.id) keys k, text_eq_refl k.id)

-- A new identifier is none that is named.
pub new_other :
    (id named : Str) (keys : List KeyRecord)
    → is_new id keys ≡ true
    → known named keys ≡ true
    → text_eq id named ≡ false
unfolding known
new_other id named keys fresh h = elim (Bool-cases (text_eq id named)) [
  | inr differ ↦ differ
  | inl same ↦ let known' = rw (← (text_eq_iff id named).0 same) at h in ground arith
]

pub start_keys-Consistent :
    (now id secret : Str) (ks : KeySet) {after : KeySet}
    → Consistent ks
    → is_new id ks.keys ≡ true
    → start_keys now id secret ks ≡ some after
    → Consistent after
unfolding start_keys fits
start_keys-Consistent now id secret ks {after} c fresh e =
    guard_cases (is_empty ks.pending_id) _ e λ nothing e1.
      let k = new_key id pending secret now [] in
      let (named, absent) = &&-eq_true (not (is_empty id)) (not (any (has_id id) ks.keys)) fresh in
      let apart = new_apart id ks.keys (ground arith) in
      let empty_pending = empty-nil ks.pending_id nothing in
      let one = new_other id ks.active_id ks.keys fresh c.active_known in
      let two = new_other id ks.previous_id ks.keys fresh c.previous_known in
      let self = text_eq_refl id in
      let same : record ks { pending_id = id; keys = ks.keys ++ (k ∷ []) } ≡ after = cc in
      let old = rw empty_pending at c.statuses in
      subst Consistent same (record {
        distinct = Distinct-append ks.keys k c.distinct apart;
        statuses =
            all-append (fits ks.active_id id ks.previous_id) ks.keys k
              (all_weaken id (fits ks.active_id [] ks.previous_id)
                (fits ks.active_id id ks.previous_id) ks.keys
                (λ x h differ. let bare = id_not_empty x.id (ground arith) in ground arith) old
                apart)
              (ground arith);
        active_known = known_append ks.active_id ks.keys k c.active_known;
        pending_known = known_last ks.keys k;
        previous_known = known_append ks.previous_id ks.keys k c.previous_known;
      })

retire-id : (now : Str) (k : KeyRecord) → (retire now k).id ≡ k.id
unfolding retire
retire-id now k = elim (k.status) as (λ s. (retire now (record k { status = s })).id ≡ k.id) [
  | active ↦ refl
  | pending ↦ refl
  | previous ↦ refl
  | revoked ↦ refl
]

retire-status : (now : Str) (k : KeyRecord) → (retire now k).status ≡ revoked
unfolding retire
retire-status now k =
    elim (k.status) as (λ s. (retire now (record k { status = s })).status ≡ revoked) [
      | active ↦ refl
      | pending ↦ refl
      | previous ↦ refl
      | revoked ↦ refl
    ]

retire_all-All :
    (now : Str) (test : Str → Bool) (keys : List KeyRecord)
    → All (λ b. test b.id ≡ false) keys
    → All (λ b. test b.id ≡ false) (retire_all now keys)
unfolding retire_all
retire_all-All now test [] h = tt
retire_all-All now test (k ∷ keys) h =
    (ap test (retire-id now k) ∙ h.0, retire_all-All now test keys h.1)

retire_all-Distinct :
    (now : Str) (keys : List KeyRecord) → Distinct keys → Distinct (retire_all now keys)
unfolding retire_all
retire_all-Distinct now [] d = tt
retire_all-Distinct now (k ∷ keys) d = (
  subst (λ i. All (λ b. text_eq i b.id ≡ false) (retire_all now keys)) (sym (retire-id now k))
      (retire_all-All now (text_eq k.id) keys d.0),
  retire_all-Distinct now keys d.1,
)

retired_fits :
    (now id a p v : Str) (k : KeyRecord)
    → fits a p v k ≡ true
    → text_eq k.id id ≡ false
    → fits id [] [] (retire now k) ≡ true
unfolding fits
retired_fits now id a p v k h differ =
    let bare : text_eq k.id [] ≡ false = id_not_empty k.id (ground arith) in
    rw (retire-id now k, retire-status now k, bare) (ground arith)

retire_all_lem :
    (now id a p v : Str) (keys : List KeyRecord)
    → all (fits a p v) keys ≡ true
    → All (λ b. text_eq b.id id ≡ false) keys
    → all (fits id [] []) (retire_all now keys) ≡ true
unfolding retire_all all
retire_all_lem now id a p v [] h apart = refl
retire_all_lem now id a p v (k ∷ keys) h apart =
    let (one, more) = &&-eq_true (fits a p v k) (all (fits a p v) keys) h in
    let here = retired_fits now id a p v k one apart.0 in
    let rest = retire_all_lem now id a p v keys more apart.1 in ground arith

pub set_keys-Consistent :
    (now id secret : Str) (ks : KeySet)
    → Consistent ks
    → is_new id ks.keys ≡ true
    → Consistent (set_keys now id secret ks)
unfolding set_keys fits
set_keys-Consistent now id secret ks c fresh =
    let k = new_key id active secret now now in
    let old = retire_all now ks.keys in
    let (named, absent) = &&-eq_true (not (is_empty id)) (not (any (has_id id) ks.keys)) fresh in
    let bare = id_not_empty id named in
    let self = text_eq_refl id in
    let apart = new_apart id ks.keys (ground arith) in
    let apart' = retire_all-All now (λ i. text_eq i id) ks.keys apart in
    record {
      distinct = Distinct-append old k (retire_all-Distinct now ks.keys c.distinct) apart';
      statuses =
          all-append (fits id [] []) old k
            (retire_all_lem now id ks.active_id ks.pending_id ks.previous_id ks.keys c.statuses
              apart)
            (ground arith);
      active_known = known_last old k;
      pending_known = known_nil (old ++ (k ∷ []));
      previous_known = known_nil (old ++ (k ∷ []));
    }
