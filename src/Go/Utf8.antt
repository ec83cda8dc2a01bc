-- ===== src/Go/Utf8.antt =====
-- `unicode/utf8` and the tests of `unicode` that the program calls.
use pins.Prelude.{
  ℕ, zero, suc, ◌+◌, ◌-◌, ◌*◌, Bool, false, ◌&&◌, ◌||◌, List, [], ◌∷◌, Option, none, some, leb,
  ◌==◌, if◌then◌else◌, length, drop, is_some, any, all,
}
use pins.Go.Text.{Str}

abbrev within : ℕ → ℕ → ℕ → Bool
within lo hi c = leb lo c && leb c hi

abbrev is_tail : ℕ → Bool
is_tail = within 0x80 0xbf

-- The rune that the text begins with, if its encoding is well formed: its code point and its width.
two : ℕ → ℕ → Option (ℕ × ℕ)
two a b = if within 0xc2 0xdf a && is_tail b then some ((a - 0xc0) * 64 + (b - 0x80), 2) else none

three : ℕ → ℕ → ℕ → Option (ℕ × ℕ)
three a b c =
    let second =
      if a == 0xe0
      then within 0xa0 0xbf b
      else if a == 0xed
      then within 0x80 0x9f b
      else within 0xe1 0xef a && is_tail b in
    if second && is_tail c then some ((a - 0xe0) * 4096 + (b - 0x80) * 64 + (c - 0x80), 3) else none

four : ℕ → ℕ → ℕ → ℕ → Option (ℕ × ℕ)
four a b c d =
    let second =
      if a == 0xf0
      then within 0x90 0xbf b
      else if a == 0xf4
      then within 0x80 0x8f b
      else within 0xf1 0xf3 a && is_tail b in
    if second && is_tail c && is_tail d
    then some ((a - 0xf0) * 262144 + (b - 0x80) * 4096 + (c - 0x80) * 64 + (d - 0x80), 4)
    else none

pub first_rune : Str → Option (ℕ × ℕ)
unfolding two three four
first_rune [] = none
first_rune (a ∷ []) = if leb a 0x7f then some (a, 1) else none
first_rune (a ∷ b ∷ []) = if leb a 0x7f then some (a, 1) else two a b
first_rune (a ∷ b ∷ c ∷ []) =
    if leb a 0x7f then some (a, 1) else if leb a 0xdf then two a b else three a b c
first_rune (a ∷ b ∷ c ∷ d ∷ s) =
    if leb a 0x7f
    then some (a, 1)
    else if leb a 0xdf
    then two a b
    else if leb a 0xef
    then three a b c
    else four a b c d

-- Go decodes from the left; a byte that begins no well-formed encoding is an error of width 1.
-- `fuel` is the number of bytes, each round takes at least one.
runes_from : ℕ → Str → List (Option ℕ)
runes_from zero s = []
runes_from (suc f) [] = []
runes_from (suc f) (b ∷ s) = elim (first_rune (b ∷ s)) [
  | none ↦ none ∷ runes_from f s
  | some (r, width) ↦ some r ∷ runes_from f (drop width (b ∷ s))
]

unfoldable pub runes : Str → List (Option ℕ)
unfolding runes_from first_rune
runes s = runes_from (length s) s

-- `utf8.ValidString`
unfoldable pub valid_string : Str → Bool
unfolding runes all
valid_string s = all is_some (runes s)

-- `unicode.IsControl`
abbrev pub is_control : ℕ → Bool
is_control r = leb r 0x1f || within 0x7f 0x9f r

abbrev in_ranges : List (ℕ × ℕ) → ℕ → Bool
in_ranges [] r = false
in_ranges ((lo, hi) ∷ rest) r = within lo hi r || in_ranges rest r

-- The category Cf, `unicode.Cf`.
abbrev format_ranges : List (ℕ × ℕ)
format_ranges =
    (0xad, 0xad)
    ∷ (0x600, 0x605)
    ∷ (0x61c, 0x61c)
    ∷ (0x6dd, 0x6dd)
    ∷ (0x70f, 0x70f)
    ∷ (0x890, 0x891)
    ∷ (0x8e2, 0x8e2)
    ∷ (0x180e, 0x180e)
    ∷ (0x200b, 0x200f)
    ∷ (0x202a, 0x202e)
    ∷ (0x2060, 0x2064)
    ∷ (0x2066, 0x206f)
    ∷ (0xfeff, 0xfeff)
    ∷ (0xfff9, 0xfffb)
    ∷ (0x110bd, 0x110bd)
    ∷ (0x110cd, 0x110cd)
    ∷ (0x13430, 0x1343f)
    ∷ (0x1bca0, 0x1bca3)
    ∷ (0x1d173, 0x1d17a)
    ∷ (0xe0001, 0xe0001)
    ∷ (0xe0020, 0xe007f)
    ∷ []

unfoldable pub is_format : ℕ → Bool
is_format r = in_ranges format_ranges r

-- `unicode.IsControl(r) || unicode.Is(unicode.Cf, r)`; the rune that stands for an error is neither.
unfoldable pub is_hidden : Option ℕ → Bool
unfolding is_format
is_hidden none = false
is_hidden (some r) = is_control r || is_format r

-- `for _, r := range s { if control or format { return true } }`
unfoldable pub has_hidden : Str → Bool
unfolding is_hidden runes any
has_hidden s = any is_hidden (runes s)
