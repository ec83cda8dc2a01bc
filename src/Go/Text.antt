-- ===== src/Go/Text.antt =====
-- Go strings as the list of their bytes, with the functions of `strings` that the program calls.
use Prim.Native.Char.{code}
use Prim.Native.String.{String}
use pins.Prelude.{
  ℕ, ◌≡◌, refl, ◌↔◌, Bool, true, false, ◌&&◌, ◌||◌, List, [], ◌∷◌, ◌++◌, arith, ◌==◌, if◌then◌else◌,
}

abbrev pub Str : Type 0
Str = List ℕ

-- The code points of a literal, which are its bytes where it is ASCII.
abbrev pub codes : String → Str
codes String.[] = []
codes (String.◌∷◌ c s) = code c ∷ codes s

-- `s == t`
unfoldable pub text_eq : Str → Str → Bool
text_eq [] [] = true
text_eq (a ∷ s) (b ∷ t) = a == b && text_eq s t
text_eq [] (b ∷ t) = false
text_eq (a ∷ s) [] = false

pub text_eq_iff : (s t : Str) → (text_eq s t ≡ true) ↔ (s ≡ t)
unfolding text_eq
text_eq_iff [] [] = (λ _. refl, λ _. refl)
text_eq_iff [] (b ∷ t) = (λ h. cc, λ h. cc)
text_eq_iff (a ∷ s) [] = (λ h. cc, λ h. cc)
text_eq_iff (a ∷ s) (b ∷ t) =
    let (sound, complete) = text_eq_iff s t in
    (λ h. ground (arith, sound), λ h. ground (arith, complete))

pub text_eq_refl : (s : Str) → text_eq s s ≡ true
text_eq_refl s = (text_eq_iff s s).1 refl

pub text_eq_sound : (s t : Str) → text_eq s t ≡ true → s ≡ t
text_eq_sound s t = (text_eq_iff s t).0

-- `len(s) == 0`, `s == ""`
abbrev pub is_empty {ℓ} : {A : Type ℓ} → List A → Bool
is_empty [] = true
is_empty (_ ∷ _) = false

pub empty-nil : (s : Str) → is_empty s ≡ true → s ≡ []
empty-nil [] h = refl
empty-nil (c ∷ s) h = cc

-- `reflect.DeepEqual` of two slices of strings, neither of them nil.
unfoldable pub texts_eq : List Str → List Str → Bool
texts_eq [] [] = true
texts_eq (s ∷ ss) (t ∷ ts) = text_eq s t && texts_eq ss ts
texts_eq [] (t ∷ ts) = false
texts_eq (s ∷ ss) [] = false

pub texts_eq_iff : (ss ts : List Str) → (texts_eq ss ts ≡ true) ↔ (ss ≡ ts)
unfolding texts_eq
texts_eq_iff [] [] = (λ _. refl, λ _. refl)
texts_eq_iff [] (t ∷ ts) = (λ h. cc, λ h. cc)
texts_eq_iff (s ∷ ss) [] = (λ h. cc, λ h. cc)
texts_eq_iff (s ∷ ss) (t ∷ ts) =
    let (sound, complete) = texts_eq_iff ss ts in
    let head = text_eq_iff s t in
    (λ h. ground (arith, sound, head.0), λ h. ground (arith, complete, head.1))

-- Membership of a text in a list, as in `switch s { case "a", "b": }`.
unfoldable pub member : Str → List Str → Bool
member s [] = false
member s (t ∷ ts) = text_eq s t || member s ts

-- `strings.Join`
unfoldable pub join : Str → List Str → Str
join sep [] = []
join sep (s ∷ []) = s
join sep (s ∷ (t ∷ ts)) = s ++ (sep ++ join sep (t ∷ ts))

-- Some byte of the text is one of those listed, `strings.ContainsAny` over ASCII.
unfoldable pub contains_byte : Str → ℕ → Bool
contains_byte [] b = false
contains_byte (c ∷ s) b = c == b || contains_byte s b

unfoldable pub contains_any : Str → Str → Bool
contains_any s [] = false
contains_any s (b ∷ bs) = contains_byte s b || contains_any s bs

-- `strings.Split` at one byte: always at least one part.
abbrev pub cons_head : ℕ → List Str → List Str
cons_head c [] = (c ∷ []) ∷ []
cons_head c (s ∷ ss) = (c ∷ s) ∷ ss

unfoldable pub split : ℕ → Str → List Str
split b [] = [] ∷ []
split b (c ∷ s) = if c == b then [] ∷ split b s else cons_head c (split b s)
