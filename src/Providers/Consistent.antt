-- ===== src/Providers/Consistent.antt =====
-- When the keys of a provider fit together, and that the calls of internal/store/store.go keep it so.
use pins.Prelude.{
  ◌≡◌, refl, sym, ap, ◌∙◌, Bool, true, false, not, ◌&&◌, ◌||◌, List, [], ◌∷◌, arith, any, all,
  any-eq_true, all-eq_true, find, is_some, Bool-cases, inl, inr,
}
use pins.Go.Text.{Str, text_eq, text_eq_iff, is_empty}
use pins.Providers.{
  KeyStatus, active, pending, previous, KeyRecord, KeySet, has_id, find_key, change_key,
}
use pins.Providers.Updates.{
  Distinct, KeepsId, change_key-all, change_key-Distinct, any_id-change_key,
}

abbrev pub is_active : KeyStatus → Bool
is_active active = true
is_active _ = false

abbrev pub is_pending : KeyStatus → Bool
is_pending pending = true
is_pending _ = false

abbrev pub is_previous : KeyStatus → Bool
is_previous previous = true
is_previous _ = false

abbrev pub agree : Bool → Bool → Bool
agree true b = b
agree false b = not b

-- The status of a key is active if and only if it is the one that the set names as active; likewise for
-- pending; and the one that it names as previous has that status.
unfoldable pub fits : Str → Str → Str → KeyRecord → Bool
fits active_id pending_id previous_id k =
    not (is_empty k.id)
    && agree (is_active k.status) (text_eq k.id active_id)
    && agree (is_pending k.status) (text_eq k.id pending_id)
    && (not (text_eq k.id previous_id) || is_previous k.status)

-- An identifier that the set names is that of a key.
unfoldable pub known : Str → List KeyRecord → Bool
known id keys = is_empty id || any (has_id id) keys

pub record Consistent (ks : KeySet) : Type 0 where
  pub distinct : Distinct ks.keys
  pub statuses : all (fits ks.active_id ks.pending_id ks.previous_id) ks.keys ≡ true
  pub active_known : known ks.active_id ks.keys ≡ true
  pub pending_known : known ks.pending_id ks.keys ≡ true
  pub previous_known : known ks.previous_id ks.keys ≡ true

pub id_not_empty : (id : Str) → not (is_empty id) ≡ true → text_eq id [] ≡ false
unfolding text_eq
id_not_empty [] h = cc
id_not_empty (c ∷ s) h = refl

pub known_changed :
    (id id' : Str) (change : KeyRecord → KeyRecord) (keys : List KeyRecord)
    → KeepsId change
    → known id keys ≡ true
    → known id (change_key id' change keys) ≡ true
unfolding known
known_changed id id' change keys same h = rw (any_id-change_key id id' change keys same) h

pub known_nil : (keys : List KeyRecord) → known [] keys ≡ true
unfolding known
known_nil keys = refl

-- A set in which the key of one identifier is changed, and the three names are others.
abbrev pub renamed : Str → Str → Str → Str → (KeyRecord → KeyRecord) → List KeyRecord → KeySet
renamed a p v id change keys = record {
  active_id = a;
  pending_id = p;
  previous_id = v;
  keys = change_key id change keys;
}

pub renamed-Consistent :
    (ks : KeySet) (a p v id : Str) (change : KeyRecord → KeyRecord)
    → Consistent ks
    → KeepsId change
    → ((k : KeyRecord)
        → fits ks.active_id ks.pending_id ks.previous_id k ≡ true
        → text_eq k.id id ≡ true
        → fits a p v (change k) ≡ true)
    → ((k : KeyRecord)
        → fits ks.active_id ks.pending_id ks.previous_id k ≡ true
        → text_eq k.id id ≡ false
        → fits a p v k ≡ true)
    → known a ks.keys ≡ true
    → known p ks.keys ≡ true
    → known v ks.keys ≡ true
    → Consistent (renamed a p v id change ks.keys)
renamed-Consistent ks a p v id change c same hit miss ka kp kv = record {
  distinct = change_key-Distinct id change ks.keys same c.distinct;
  statuses =
      change_key-all (fits ks.active_id ks.pending_id ks.previous_id) (fits a p v) id change ks.keys
        c.distinct c.statuses hit miss;
  active_known = known_changed a id change ks.keys same ka;
  pending_known = known_changed p id change ks.keys same kp;
  previous_known = known_changed v id change ks.keys same kv;
}

pub no_id :
    (ks : KeySet) (k : KeyRecord)
    → fits ks.active_id ks.pending_id ks.previous_id k ≡ true
    → text_eq k.id [] ≡ false
unfolding fits
no_id ks k h = id_not_empty k.id (ground arith)

-- A named identifier is found.
pub found_known :
    (id : Str) (keys : List KeyRecord)
    → known id keys ≡ true
    → not (is_empty id) ≡ true
    → is_some (find_key id keys) ≡ true
unfolding known find_key find any
found_known [] keys h there = cc
found_known (b ∷ id) [] h there = cc
found_known (b ∷ id) (k ∷ keys) h there = elim (Bool-cases (text_eq k.id (b ∷ id))) [
  | inl hit ↦ rw hit refl
  | inr miss ↦ rw miss (found_known (b ∷ id) keys (rw miss at h) there)
]

-- The key of an identifier that the set names, and its status.
named_key :
    (ks : KeySet) (id : Str)
    → Consistent ks
    → known id ks.keys ≡ true
    → not (is_empty id) ≡ true
    → (k : KeyRecord) × (k.id ≡ id) × (fits ks.active_id ks.pending_id ks.previous_id k ≡ true)
unfolding known
named_key ks id c h there =
    let some_key : any (has_id id) ks.keys ≡ true = ground arith in
    let (k, m, same) = any-eq_true (has_id id) ks.keys some_key in
    (
      k,
      (text_eq_iff k.id id).0 same,
      all-eq_true (fits ks.active_id ks.pending_id ks.previous_id) ks.keys c.statuses m,
    )

pub previous_apart :
    (ks : KeySet)
    → Consistent ks
    → not (is_empty ks.previous_id) ≡ true
    → (text_eq ks.previous_id ks.active_id ≡ false) × (text_eq ks.previous_id ks.pending_id ≡ false)
unfolding fits
previous_apart ks c there =
    let (k, same, h) = named_key ks ks.previous_id c c.previous_known there in
    let self : text_eq k.id ks.previous_id ≡ true = (text_eq_iff k.id ks.previous_id).1 same in
    (
      ap (λ i. text_eq i ks.active_id) (sym same) ∙ ground arith,
      ap (λ i. text_eq i ks.pending_id) (sym same) ∙ ground arith,
    )

pub pending_apart :
    (ks : KeySet)
    → Consistent ks
    → not (is_empty ks.pending_id) ≡ true
    → (text_eq ks.pending_id ks.active_id ≡ false) × (text_eq ks.pending_id ks.previous_id ≡ false)
unfolding fits
pending_apart ks c there =
    let (k, same, h) = named_key ks ks.pending_id c c.pending_known there in
    let self : text_eq k.id ks.pending_id ≡ true = (text_eq_iff k.id ks.pending_id).1 same in
    (
      ap (λ i. text_eq i ks.active_id) (sym same) ∙ ground arith,
      ap (λ i. text_eq i ks.previous_id) (sym same) ∙ ground arith,
    )
