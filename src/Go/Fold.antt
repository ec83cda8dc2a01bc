-- ===== src/Go/Fold.antt =====
-- `strings.TrimSpace` and `strings.EqualFold`.
use pins.Prelude.{
  zero, suc, drop, length, ℕ, Bool, true, false, ◌&&◌, ◌||◌, List, [], ◌∷◌, Option, none, some, leb,
  ◌==◌, if◌then◌else◌,
}
use pins.Go.Text.{Str}
use pins.Go.Utf8.{runes}

-- The spaces of `unicode.IsSpace`, each as the bytes of its encoding.
is_space_1 : ℕ → Bool
is_space_1 a = leb 9 a && leb a 13 || a == 32

is_space_2 : ℕ → ℕ → Bool
is_space_2 a b = a == 0xc2 && (b == 0x85 || b == 0xa0)

is_space_3 : ℕ → ℕ → ℕ → Bool
is_space_3 a b c =
    a == 0xe1 && b == 0x9a && c == 0x80
    || a == 0xe2 && b == 0x80 && (leb 0x80 c && leb c 0x8a || leb 0xa8 c && leb c 0xa9 || c == 0xaf)
    || a == 0xe2 && b == 0x81 && c == 0x9f
    || a == 0xe3 && b == 0x80 && c == 0x80

-- The width of the space that the text begins with, 0 where it begins with none.
leading : Str → ℕ
unfolding is_space_1 is_space_2 is_space_3
leading [] = 0
leading (a ∷ []) = if is_space_1 a then 1 else 0
leading (a ∷ b ∷ []) = if is_space_1 a then 1 else if is_space_2 a b then 2 else 0
leading (a ∷ b ∷ c ∷ s) =
    if is_space_1 a then 1 else if is_space_2 a b then 2 else if is_space_3 a b c then 3 else 0

-- Take away the leading spaces; `fuel` is the number of bytes, and each round takes one at least.
trim_left : ℕ → Str → Str
unfolding leading
trim_left zero s = s
trim_left (suc fuel) s = elim (leading s) [ zero ↦ s | suc n ↦ trim_left fuel (drop (suc n) s) ]

-- Take away the spaces at the end, that is, the last spaces of the text.
trim_right : Str → Str
unfolding is_space_1 is_space_2 is_space_3
trim_right [] = []
trim_right (a ∷ s) =
    let rest = trim_right s in
    elim rest [
      | [] ↦ if is_space_1 a then [] else a ∷ []
      | b ∷ [] ↦ if is_space_2 a b then [] else a ∷ b ∷ []
      | b ∷ c ∷ [] ↦ if is_space_3 a b c then [] else a ∷ b ∷ c ∷ []
      | b ∷ c ∷ d ∷ r ↦ a ∷ b ∷ c ∷ d ∷ r
    ]

unfoldable pub trim_space : Str → Str
unfolding trim_left trim_right
trim_space s = trim_right (trim_left (length s) s)

-- The rune that a decoding step gives: U+FFFD for an error.
abbrev decoded : Option ℕ → ℕ
decoded none = 0xfffd
decoded (some r) = r

folds_to : (ℕ → ℕ) → List (Option ℕ) → List (Option ℕ) → Bool
folds_to fold [] [] = true
folds_to fold (a ∷ s) (b ∷ t) = fold (decoded a) == fold (decoded b) && folds_to fold s t
folds_to fold [] (b ∷ t) = false
folds_to fold (a ∷ s) [] = false

-- `fold` gives the first rune of an orbit of `unicode.SimpleFold`, a table of Unicode's.
unfoldable pub equal_fold : (ℕ → ℕ) → Str → Str → Bool
unfolding folds_to runes
equal_fold fold s t = folds_to fold (runes s) (runes t)
