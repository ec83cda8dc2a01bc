-- ===== src/Go/Wire.antt =====
-- `encoding/binary`, big endian, and texts that begin with their length in four bytes.
use pins.Prelude.{
  ℕ, zero, suc, ◌+◌, ◌*◌, ◌/◌, ◌%◌, ◌^◌, ◌≤◌, ◌<◌, ◌≡◌, refl, List, [], ◌∷◌, ◌++◌, Option, none,
  some, arith, leb, if◌then◌else◌, length, length-append, drop, All, bind_cases, ◌>>=◌,
  append_assoc, Bool, true, ◌&&◌, &&-eq_true, Bool-cases, inl, inr, ap, subst, le→leb, leb→le,
}
use pins.Go.Text.{Str}

abbrev pub IsByte : ℕ → Type 0
IsByte c = c < 256

abbrev pub IsBytes : Str → Type 0
IsBytes s = All IsByte s

unfoldable pub take {ℓ} : {A : Type ℓ} → ℕ → List A → List A
take zero xs = []
take (suc n) [] = []
take (suc n) (x ∷ xs) = x ∷ take n xs

-- `binary.BigEndian.Uint32(b[p : p+4])`, where four bytes are left.
unfoldable pub read_4 : Str → Option (ℕ × Str)
read_4 (a ∷ b ∷ c ∷ d ∷ s) = some (((a * 256 + b) * 256 + c) * 256 + d, s)
read_4 _ = none

-- `binary.BigEndian.Uint64(b[p : p+8])`
unfoldable pub read_8 : Str → Option (ℕ × Str)
read_8 s = do (high, s') ← read_4 s; (low, s'') ← read_4 s'; some (high * 2 ^ 32 + low, s'')

-- The closure `str`: a length, and as many bytes.
unfoldable pub read_string : Str → Option (Str × Str)
unfolding take
read_string s = do
  (n, rest) ← read_4 s
  if leb n (length rest) then some (take n rest, drop n rest) else none

-- The bytes that stand for a number and for a text.
unfoldable pub put_4 : ℕ → Str
put_4 v = v / 2 ^ 24 % 256 ∷ v / 2 ^ 16 % 256 ∷ v / 2 ^ 8 % 256 ∷ v % 256 ∷ []

unfoldable pub put_8 : ℕ → Str
put_8 v = put_4 (v / 2 ^ 32) ++ put_4 (v % 2 ^ 32)

unfoldable pub put_string : Str → Str
put_string s = put_4 (length s) ++ s

pub read_4-put_4 : (v : ℕ) (s : Str) → v < 2 ^ 32 → read_4 (put_4 v ++ s) ≡ some (v, s)
unfolding read_4 put_4
read_4-put_4 v s h = ground arith

-- Four bytes are the bytes of the number that they stand for.
four_bytes :
    (a b c d : ℕ)
    → a < 256
    → b < 256
    → c < 256
    → d < 256
    → let v = ((a * 256 + b) * 256 + c) * 256 + d in
      (v / 2 ^ 24 % 256 ≡ a)
      × (v / 2 ^ 16 % 256 ≡ b)
      × (v / 2 ^ 8 % 256 ≡ c)
      × (v % 256 ≡ d)
      × (v < 2 ^ 32)
four_bytes a b c d p q r t = omega arith

-- What was read, and the rest, are all of the text.
pub put_4-read_4 :
    (s : Str) {v : ℕ} {rest : Str}
    → IsBytes s
    → read_4 s ≡ some (v, rest)
    → (s ≡ put_4 v ++ rest) × (v < 2 ^ 32) × IsBytes rest
unfolding read_4 put_4
put_4-read_4 [] h e = cc
put_4-read_4 (a ∷ []) h e = cc
put_4-read_4 (a ∷ b ∷ []) h e = cc
put_4-read_4 (a ∷ b ∷ c ∷ []) h e = cc
put_4-read_4 (a ∷ b ∷ c ∷ d ∷ s) {v} {rest} h e =
    let (p, (q, (r, (t, more)))) = h in
    let digits = four_bytes a b c d p q r t in
    let value : ℕ = ((a * 256 + b) * 256 + c) * 256 + d in
    let pair : ◌≡◌ {A = ℕ × Str} (value, s) (v, rest) = cc in
    subst (λ p. (a ∷ b ∷ c ∷ d ∷ s ≡ put_4 p.0 ++ p.1) × (p.0 < 2 ^ 32) × IsBytes p.1) pair
      (rw (digits.0, digits.1, digits.2, digits.3) refl, digits.4, more)

pub take-drop {ℓ} : {A : Type ℓ} (n : ℕ) (xs : List A) → take n xs ++ drop n xs ≡ xs
unfolding take
take-drop zero xs = refl
take-drop (suc n) [] = refl
take-drop (suc n) (x ∷ xs) = ap (λ r. x ∷ r) (take-drop n xs)

length-take {ℓ} : {A : Type ℓ} (n : ℕ) (xs : List A) → n ≤ length xs → length (take n xs) ≡ n
unfolding take
length-take zero xs h = refl
length-take (suc n) [] h = omega arith
length-take (suc n) (x ∷ xs) h = omega (arith, length-take n xs (omega arith))

pub take-append {ℓ} : {A : Type ℓ} (xs ys : List A) → take (length xs) (xs ++ ys) ≡ xs
unfolding take
take-append [] ys = refl
take-append (x ∷ xs) ys = ap (λ r. x ∷ r) (take-append xs ys)

pub drop-append {ℓ} : {A : Type ℓ} (xs ys : List A) → drop (length xs) (xs ++ ys) ≡ ys
drop-append [] ys = refl
drop-append (x ∷ xs) ys = drop-append xs ys

pub IsBytes-drop : (n : ℕ) (s : Str) → IsBytes s → IsBytes (drop n s)
IsBytes-drop zero s h = h
IsBytes-drop (suc n) [] h = tt
IsBytes-drop (suc n) (c ∷ s) h = IsBytes-drop n s h.1

IsBytes-take : (n : ℕ) (s : Str) → IsBytes s → IsBytes (take n s)
unfolding take
IsBytes-take zero s h = tt
IsBytes-take (suc n) [] h = tt
IsBytes-take (suc n) (c ∷ s) h = (h.0, IsBytes-take n s h.1)

pub read_string-put_string :
    (v s : Str) → length v < 2 ^ 32 → read_string (put_string v ++ s) ≡ some (v, s)
unfolding read_string put_string
read_string-put_string v s h =
    rw
      (
        append_assoc,
        read_4-put_4 (length v) (v ++ s) h,
        le→leb (length v) (length (v ++ s)) (omega (arith, length-append v s)),
        take-append v s,
        drop-append v s,
      )
      refl

pub put_string-read_string :
    (s : Str) {v rest : Str}
    → IsBytes s
    → read_string s ≡ some (v, rest)
    → (s ≡ put_string v ++ rest) × (length v < 2 ^ 32) × IsBytes rest × IsBytes v
unfolding read_string put_string
put_string-read_string s {v} {rest} h e = bind_cases (read_4 s) _ e λ (n, r) e4 found.
    let (same, small, more) = put_4-read_4 s h e4 in
    elim (Bool-cases (leb n (length r))) [
      | inr long ↦ cc (rw long at found)
      | inl fits ↦
          let size = length-take n r (leb→le n (length r) fits) in
          let pair : ◌≡◌ {A = Str × Str} (take n r, drop n r) (v, rest) = cc (rw fits at found) in
          subst
            (λ p. (s ≡ put_string p.0 ++ p.1) × (length p.0 < 2 ^ 32) × IsBytes p.1 × IsBytes p.0)
            pair
            (
              rw (size, append_assoc, take-drop n r) same,
              rw size small,
              IsBytes-drop n r more,
              IsBytes-take n r more,
            )
    ]

halves :
    (high low : ℕ)
    → low < 2 ^ 32
    → ((high * 2 ^ 32 + low) / 2 ^ 32 ≡ high) × ((high * 2 ^ 32 + low) % 2 ^ 32 ≡ low)
halves high low h = omega arith

pub put_8-read_8 :
    (s : Str) {v : ℕ} {rest : Str}
    → IsBytes s
    → read_8 s ≡ some (v, rest)
    → (s ≡ put_8 v ++ rest) × IsBytes rest
unfolding read_8 put_8
put_8-read_8 s {v} {rest} h e = bind_cases (read_4 s) _ e λ (high, s') e4 found.
    let (same, small, more) = put_4-read_4 s h e4 in
    bind_cases (read_4 s') _ found λ (low, s'') e5 found'.
      let (same', small', more') = put_4-read_4 s' more e5 in
      let pair : ◌≡◌ {A = ℕ × Str} (high * 2 ^ 32 + low, s'') (v, rest) = cc in
      let (up, down) = halves high low small' in
      let nested : s ≡ put_4 high ++ (put_4 low ++ s'') = rw (← same') same in
      subst (λ p. (s ≡ put_8 p.0 ++ p.1) × IsBytes p.1) pair
        (rw (up, down, append_assoc) nested, more')

pub read_8-put_8 : (v : ℕ) (s : Str) → v < 2 ^ 64 → read_8 (put_8 v ++ s) ≡ some (v, s)
unfolding read_8 put_8
read_8-put_8 v s h =
    rw
      (
        append_assoc,
        read_4-put_4 (v / 2 ^ 32) (put_4 (v % 2 ^ 32) ++ s) (omega arith),
        read_4-put_4 (v % 2 ^ 32) s (omega arith),
      )
      (ground arith)

pub length-put_string : (v rest : Str) → length (put_string v ++ rest) ≡ 4 + length v + length rest
unfolding put_string put_4
length-put_string v rest = omega (arith, length-append {0} v rest)

pub length-put_8 : (v : ℕ) (rest : Str) → length (put_8 v ++ rest) ≡ 8 + length rest
unfolding put_8 put_4
length-put_8 v rest = omega arith

pub length-put_4 : (v : ℕ) (rest : Str) → length (put_4 v ++ rest) ≡ 4 + length rest
unfolding put_4
length-put_4 v rest = omega arith

pub length-put_string_self : (v : Str) → length (put_string v) ≡ 4 + length v
unfolding put_string put_4
length-put_string_self v = omega arith

-- Whether each of the numbers is a byte, to see it of a text by computing.
unfoldable pub are_bytes : Str → Bool
are_bytes [] = true
are_bytes (c ∷ s) = leb (suc c) 256 && are_bytes s

pub are_bytes_sound : (s : Str) → are_bytes s ≡ true → IsBytes s
unfolding are_bytes
are_bytes_sound [] h = tt
are_bytes_sound (c ∷ s) h =
    let (one, more) = &&-eq_true (leb (suc c) 256) (are_bytes s) h in
    (leb→le (suc c) 256 one, are_bytes_sound s more)
