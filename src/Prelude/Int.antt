-- ===== src/Prelude/Int.antt =====
-- Signed integers over the native numbers, and the 64-bit integers of Go among them.
use Prim.Native.Nat.{ℕ, suc, ◌+◌, ◌-◌, ◌%◌, ◌^◌, ◌≤◌}
use mathlib.Core.Path.{◌≡◌}
use mathlib.Core.Bool.{Bool}
use native.Mathlib.Omega.{arith}
use pins.Prelude.Tests.{ltb, leb, if◌then◌else◌}

-- `negsuc n` is -(n + 1).
pub data ℤ : Type 0 where
  pos : ℕ → ℤ
  negsuc : ℕ → ℤ

abbrev pub pos_part : ℤ → ℕ
pos_part (pos n) = n
pos_part (negsuc n) = 0

abbrev pub neg_part : ℤ → ℕ
neg_part (pos n) = 0
neg_part (negsuc n) = suc n

-- a - b, as an integer.
abbrev pub sub_ℕ : ℕ → ℕ → ℤ
sub_ℕ a b = if leb b a then pos (a - b) else negsuc (b - a - 1)

infixl 65 ◌+ℤ◌
infix 50 ◌≤ℤ◌
unfoldable pub ◌+ℤ◌ : ℤ → ℤ → ℤ
a +ℤ b = sub_ℕ (pos_part a + pos_part b) (neg_part a + neg_part b)

abbrev pub ◌≤ℤ◌ : ℤ → ℤ → Type 0
a ≤ℤ b = pos_part a + neg_part b ≤ pos_part b + neg_part a

abbrev pub leb_ℤ : ℤ → ℤ → Bool
leb_ℤ a b = leb (pos_part a + neg_part b) (pos_part b + neg_part a)

-- a < b
abbrev pub ltb_ℤ : ℤ → ℤ → Bool
ltb_ℤ a b = ltb (pos_part a + neg_part b) (pos_part b + neg_part a)

-- The residue of an integer modulo 2 ^ 64.
abbrev residue : ℤ → ℕ
residue (pos n) = n % 2 ^ 64
residue (negsuc n) = 2 ^ 64 - 1 - n % 2 ^ 64

-- The value of the two's complement pattern of 64 bits.
abbrev of_bits : ℕ → ℤ
of_bits u = if ltb u (2 ^ 63) then pos u else negsuc (2 ^ 64 - 1 - u)

-- What an `int64` holds after an operation whose exact result is `a`.
unfoldable pub wrap64 : ℤ → ℤ
wrap64 a = of_bits (residue a)

-- The integer lies in the range of `int64`.
abbrev pub Fits : ℤ → Type 0
Fits (pos n) = suc n ≤ 2 ^ 63
Fits (negsuc n) = suc n ≤ 2 ^ 63

pub wrap64-Fits : (a : ℤ) → Fits (wrap64 a)
unfolding wrap64
wrap64-Fits (pos n) = ground arith
wrap64-Fits (negsuc n) = ground arith

-- In range nothing wraps.
pub wrap64-id : (a : ℤ) → Fits a → wrap64 a ≡ a
unfolding wrap64
wrap64-id (pos n) h = ground arith
wrap64-id (negsuc n) h = ground arith
