-- ===== src/Providers/Updates.antt =====
-- What a change of the key of an identifier does to a list of keys.
use pins.Prelude.{
  ◌≡◌, refl, ap, ◌∙◌, Bool, true, false, &&-eq_true, List, [], ◌∷◌, some, arith, any, all, All,
  Pairwise, find, Bool-cases, inl, inr,
}
use mathlib.Core.Option.{Option}
use mathlib.Core.Option
use pins.Go.Text.{Str, text_eq, text_eq_iff}
use pins.Policy.Store.{update_first}
use pins.Providers.{KeyRecord, has_id, find_key, change_key}

-- No two keys have one identifier.
abbrev pub Distinct : List KeyRecord → Type 0
Distinct keys = Pairwise (λ a b. text_eq a.id b.id ≡ false) keys

-- A change that leaves the identifier alone.
abbrev pub KeepsId : (KeyRecord → KeyRecord) → Type 0
KeepsId change = (k : KeyRecord) → (change k).id ≡ k.id

same_id :
    (a b : KeyRecord) (id : Str)
    → text_eq a.id b.id ≡ false
    → text_eq a.id id ≡ true
    → text_eq b.id id ≡ false
same_id a b id differ here =
    ground (arith, text_eq_iff a.id b.id, text_eq_iff a.id id, text_eq_iff b.id id)

others_all :
    (p q : KeyRecord → Bool) (id : Str) (k : KeyRecord) (keys : List KeyRecord)
    → text_eq k.id id ≡ true
    → All (λ b. text_eq k.id b.id ≡ false) keys
    → all p keys ≡ true
    → ((x : KeyRecord) → p x ≡ true → text_eq x.id id ≡ false → q x ≡ true)
    → all q keys ≡ true
unfolding all
others_all p q id k [] hit apart h other = refl
others_all p q id k (x ∷ xs) hit apart h other =
    let (first, rest) = &&-eq_true (p x) (all p xs) h in
    let one = other x first (same_id k x id apart.0 hit) in
    let more = others_all p q id k xs hit apart.1 rest other in ground arith

-- Each key is as `q` says after the change, if it was as `p` says before.
pub change_key-all :
    (p q : KeyRecord → Bool) (id : Str) (change : KeyRecord → KeyRecord) (keys : List KeyRecord)
    → Distinct keys
    → all p keys ≡ true
    → ((k : KeyRecord) → p k ≡ true → text_eq k.id id ≡ true → q (change k) ≡ true)
    → ((k : KeyRecord) → p k ≡ true → text_eq k.id id ≡ false → q k ≡ true)
    → all q (change_key id change keys) ≡ true
unfolding change_key update_first all
change_key-all p q id change [] d h here other = refl
change_key-all p q id change (k ∷ keys) d h here other =
    let (first, rest) = &&-eq_true (p k) (all p keys) h in
    elim (Bool-cases (text_eq k.id id)) [
      | inr miss ↦
          let one = other k first miss in
          let more = change_key-all p q id change keys d.1 rest here other in rw miss (ground arith)
      | inl hit ↦
          let one = here k first hit in
          let more = others_all p q id k keys hit d.0 rest other in rw hit (ground arith)
    ]

change_key-All :
    (id : Str) (change : KeyRecord → KeyRecord) (keys : List KeyRecord) (a : KeyRecord)
    → KeepsId change
    → All (λ b. text_eq a.id b.id ≡ false) keys
    → All (λ b. text_eq a.id b.id ≡ false) (change_key id change keys)
unfolding change_key update_first
change_key-All id change [] a same h = tt
change_key-All id change (k ∷ keys) a same h = elim (Bool-cases (text_eq k.id id)) [
  | inl hit ↦ rw hit (rw (same k) h.0, h.1)
  | inr miss ↦ rw miss (h.0, change_key-All id change keys a same h.1)
]

pub change_key-Distinct :
    (id : Str) (change : KeyRecord → KeyRecord) (keys : List KeyRecord)
    → KeepsId change
    → Distinct keys
    → Distinct (change_key id change keys)
unfolding change_key update_first
change_key-Distinct id change [] same d = tt
change_key-Distinct id change (k ∷ keys) same d = elim (Bool-cases (text_eq k.id id)) [
  | inl hit ↦ rw hit (rw (same k) d.0, d.1)
  | inr miss ↦
      rw miss
        (change_key-All id change keys k same d.0, change_key-Distinct id change keys same d.1)
]

pub any_id-change_key :
    (id' id : Str) (change : KeyRecord → KeyRecord) (keys : List KeyRecord)
    → KeepsId change
    → any (has_id id') (change_key id change keys) ≡ any (has_id id') keys
unfolding change_key update_first any
any_id-change_key id' id change [] same = refl
any_id-change_key id' id change (k ∷ keys) same = elim (Bool-cases (text_eq k.id id)) [
  | inl hit ↦ rw (hit, same k) refl
  | inr miss ↦ rw (miss, any_id-change_key id' id change keys same) refl
]

moved :
    (change : KeyRecord → KeyRecord) (k : KeyRecord) (id : Str) {b : Bool}
    → KeepsId change
    → text_eq k.id id ≡ b
    → text_eq (change k).id id ≡ b
moved change k id same e = ap (λ i. text_eq i id) (same k) ∙ e

-- What is read of the key of an identifier, if the change keeps it.
pub find_key-change_key :
    {B : Type 0} (read : KeyRecord → B) (id' id : Str) (change : KeyRecord → KeyRecord)
    (keys : List KeyRecord)
    → KeepsId change
    → ((k : KeyRecord) → read (change k) ≡ read k)
    → Option.map read (find_key id' (change_key id change keys))
      ≡ Option.map read (find_key id' keys)
unfolding change_key update_first find_key find
find_key-change_key read id' id change [] same keeps = refl
find_key-change_key read id' id change (k ∷ keys) same keeps = elim (Bool-cases (text_eq k.id id)) [
  | inr miss ↦ rw miss (elim (Bool-cases (text_eq k.id id')) [
    | inl found ↦ rw found refl
    | inr later ↦ rw later (find_key-change_key read id' id change keys same keeps)
  ])
  | inl hit ↦ rw hit (elim (Bool-cases (text_eq k.id id')) [
    | inl found ↦ rw (moved change k id' same found, found) (ap some (keeps k))
    | inr later ↦ rw (moved change k id' same later, later) refl
  ])
]

-- The key of the identifier itself, after the change.
pub find_key-changed :
    (id : Str) (change : KeyRecord → KeyRecord) (keys : List KeyRecord)
    → KeepsId change
    → find_key id (change_key id change keys) ≡ Option.map change (find_key id keys)
unfolding change_key update_first find_key find
find_key-changed id change [] same = refl
find_key-changed id change (k ∷ keys) same = elim (Bool-cases (text_eq k.id id)) [
  | inl hit ↦ rw (hit, moved change k id same hit) refl
  | inr miss ↦ rw (miss, miss) (find_key-changed id change keys same)
]

-- Any other key is what it was.
pub find_key-other :
    (id' id : Str) (change : KeyRecord → KeyRecord) (keys : List KeyRecord)
    → KeepsId change
    → text_eq id id' ≡ false
    → find_key id' (change_key id change keys) ≡ find_key id' keys
unfolding change_key update_first find_key find
find_key-other id' id change [] same differ = refl
find_key-other id' id change (k ∷ keys) same differ = elim (Bool-cases (text_eq k.id id)) [
  | inl hit ↦
      let missed : text_eq k.id id' ≡ false =
        ground (arith, text_eq_iff k.id id, text_eq_iff k.id id', text_eq_iff id id') in
      rw (hit, moved change k id' same missed, missed) refl
  | inr miss ↦ rw miss (elim (Bool-cases (text_eq k.id id')) [
    | inl found ↦ rw found refl
    | inr later ↦ rw later (find_key-other id' id change keys same differ)
  ])
]
