-- ===== src/Go/Map.antt =====
-- Go maps with string keys, as the list of their entries in the order that a loop takes.
use pins.Prelude.{◌≡◌, refl, List, [], ◌∷◌, Option, none, some, arith, if◌then◌else◌}
use pins.Go.Text.{Str, text_eq, text_eq_iff}

abbrev pub Map {ℓ} : Type ℓ → Type ℓ
Map V = List (Str × V)

module _ {ℓ} {V : Type ℓ} where
  -- `v, ok := m[k]`
  unfoldable pub lookup : Map V → Str → Option V
  lookup [] k = none
  lookup ((j, v) ∷ m) k = if text_eq j k then some v else lookup m k

  -- `m[k] = v`: the entry of the key is replaced, or one is added.
  unfoldable pub insert : Map V → Str → V → Map V
  insert [] k v = (k, v) ∷ []
  insert ((j, w) ∷ m) k v = if text_eq j k then (j, v) ∷ m else (j, w) ∷ insert m k v

  -- `delete(m, k)`
  unfoldable pub remove : Map V → Str → Map V
  remove [] k = []
  remove ((j, w) ∷ m) k = let rest = remove m k in if text_eq j k then rest else (j, w) ∷ rest

  pub lookup-remove :
      (m : Map V) (k j : Str) → lookup (remove m k) j ≡ (if text_eq k j then none else lookup m j)
  unfolding lookup remove
  lookup-remove [] k j = ground arith
  lookup-remove ((i, w) ∷ m) k j =
      ground (arith, text_eq_iff k j, text_eq_iff i k, text_eq_iff i j, lookup-remove m k j)

  pub lookup-insert :
      (m : Map V) (k j : Str) (v : V)
      → lookup (insert m k v) j ≡ (if text_eq k j then some v else lookup m j)
  unfolding lookup insert
  lookup-insert [] k j v = refl
  lookup-insert ((i, w) ∷ m) k j v =
      ground (arith, text_eq_iff k j, text_eq_iff i k, text_eq_iff i j, lookup-insert m k j v)

-- `m[k]` of a map of strings, `""` for a missing key.
unfoldable pub text_at : Map Str → Str → Str
unfolding lookup
text_at m k = elim (lookup m k) [ none ↦ [] | some s ↦ s ]
