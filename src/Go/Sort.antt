-- ===== src/Go/Sort.antt =====
-- `sort.Slice` with an order of texts as the order of keys. Elements with one key may end in any
-- order in Go; here they keep theirs.
use mathlib.Core.List.{Perm}
use mathlib.Core.List.Perm
use pins.Prelude.{
  Bool, true, false, ◌||◌, ◌&&◌, List, [], ◌∷◌, ltb, ◌==◌, if◌then◌else◌, Bool-cases, inl, inr,
}
use pins.Go.Text.{Str}

-- `a < b` of texts
unfoldable pub less : Str → Str → Bool
less s [] = false
less [] (b ∷ t) = true
less (a ∷ s) (b ∷ t) = let rest = less s t in ltb a b || (a == b && rest)

module _ {ℓ} {A : Type ℓ} (key : A → Str) where
  unfoldable pub insert_by : A → List A → List A
  insert_by x [] = x ∷ []
  insert_by x (y ∷ ys) =
      let rest = insert_by x ys in if less (key y) (key x) then y ∷ rest else x ∷ (y ∷ ys)

  unfoldable pub sort_by : List A → List A
  sort_by [] = []
  sort_by (x ∷ xs) = insert_by x (sort_by xs)

  insert_by-Perm : (x : A) (ys : List A) → Perm (insert_by x ys) (x ∷ ys)
  unfolding insert_by
  insert_by-Perm x [] = Perm.refl (x ∷ [])
  insert_by-Perm x (y ∷ ys) = elim (Bool-cases (less (key y) (key x))) [
    | inl e ↦ rw e (Perm.trans (Perm.cons y (insert_by-Perm x ys)) (Perm.swap x y ys))
    | inr e ↦ rw e (Perm.refl (x ∷ (y ∷ ys)))
  ]

  pub sort_by-Perm : (xs : List A) → Perm (sort_by xs) xs
  unfolding sort_by
  sort_by-Perm [] = Perm.refl []
  sort_by-Perm (x ∷ xs) = Perm.trans (insert_by-Perm x (sort_by xs)) (Perm.cons x (sort_by-Perm xs))
