-- ===== src/Prelude/Lists.antt =====
-- Lists measured by native numbers, Boolean searches in lists, and the predicate `All`.
use Prim.Native.Nat.{ℕ, zero, suc, ◌+◌}
use mathlib.Core.Path.{◌≡◌, refl, sym, subst}
use mathlib.Core.Logic.{inl, inr}
use mathlib.Core.Bool.{Bool, true, false, ◌&&◌, ◌||◌}
use mathlib.Core.Option.{Option, none, some}
use mathlib.Core.List.{List, [], ◌∷◌, ◌++◌, Memᴰ}
use native.Mathlib.Omega.{arith}
use pins.Prelude.Tests.{if◌then◌else◌, Bool-cases}

module _ {ℓ} {A : Type ℓ} where
  abbrev pub length : List A → ℕ
  length [] = 0
  length (x ∷ xs) = suc (length xs)

  pub length-append : (xs ys : List A) → length (xs ++ ys) ≡ length xs + length ys
  length-append [] ys = omega arith
  length-append (x ∷ xs) ys = omega (arith, length-append xs ys)

  abbrev pub drop : ℕ → List A → List A
  drop zero xs = xs
  drop (suc n) [] = []
  drop (suc n) (x ∷ xs) = drop n xs

  -- Some element passes the test.
  unfoldable pub any : (A → Bool) → List A → Bool
  any p [] = false
  any p (x ∷ xs) = p x || any p xs

  -- Every element passes the test.
  unfoldable pub all : (A → Bool) → List A → Bool
  all p [] = true
  all p (x ∷ xs) = p x && all p xs

  -- The first element that passes the test.
  unfoldable pub find : (A → Bool) → List A → Option A
  find p [] = none
  find p (x ∷ xs) = if p x then some x else find p xs

  -- How many elements pass the test.
  unfoldable pub count : (A → Bool) → List A → ℕ
  count p [] = 0
  count p (x ∷ xs) = (if p x then 1 else 0) + count p xs

module _ {ℓ κ} {A : Type ℓ} (P : A → Type κ) where
  abbrev pub All : List A → Type κ
  All [] = Unit
  All (x ∷ xs) = P x × All xs

  pub All-mem : (xs : List A) {a : A} → All xs → Memᴰ a xs → P a
  All-mem [] h m = elim m [ ]
  All-mem (x ∷ xs) h (Memᴰ.head e) = subst P (sym e) h.0
  All-mem (x ∷ xs) h (Memᴰ.tail m) = All-mem xs h.1 m

module _ {ℓ} {A : Type ℓ} (p : A → Bool) where
  pub find-eq_some : (xs : List A) {a : A} → find p xs ≡ some a → Memᴰ a xs × (p a ≡ true)
  unfolding find
  find-eq_some [] e = cc
  find-eq_some (x ∷ xs) {a} e = elim (Bool-cases (p x)) [
    | inl t ↦
        let same : a ≡ x = cc (rw t at e) in (Memᴰ.head same, subst (λ y. p y ≡ true) (sym same) t)
    | inr f ↦ let rest = find-eq_some xs (rw f at e) in (Memᴰ.tail rest.0, rest.1)
  ]

  pub find-eq_none : (xs : List A) {a : A} → find p xs ≡ none → Memᴰ a xs → p a ≡ false
  unfolding find
  find-eq_none [] e m = elim m [ ]
  find-eq_none (x ∷ xs) e (Memᴰ.head same) = subst (λ y. p y ≡ false) (sym same) (ground arith)
  find-eq_none (x ∷ xs) e (Memᴰ.tail m) = find-eq_none xs (ground arith) m

  pub all-eq_true : (xs : List A) {a : A} → all p xs ≡ true → Memᴰ a xs → p a ≡ true
  unfolding all
  all-eq_true [] h m = elim m [ ]
  all-eq_true (x ∷ xs) h (Memᴰ.head e) = subst (λ y. p y ≡ true) (sym e) (ground arith)
  all-eq_true (x ∷ xs) h (Memᴰ.tail m) = all-eq_true xs (ground arith) m

  pub any-eq_false : (xs : List A) {a : A} → any p xs ≡ false → Memᴰ a xs → p a ≡ false
  unfolding any
  any-eq_false [] h m = elim m [ ]
  any-eq_false (x ∷ xs) h (Memᴰ.head e) = subst (λ y. p y ≡ false) (sym e) (ground arith)
  any-eq_false (x ∷ xs) h (Memᴰ.tail m) = any-eq_false xs (ground arith) m

  pub all_intro : (xs : List A) → ((a : A) → Memᴰ a xs → p a ≡ true) → all p xs ≡ true
  unfolding all
  all_intro [] h = refl
  all_intro (x ∷ xs) h =
      let one = h x (Memᴰ.head refl) in
      let more = all_intro xs (λ a m. h a (Memᴰ.tail m)) in ground arith

  pub any_intro : (xs : List A) {a : A} → Memᴰ a xs → p a ≡ true → any p xs ≡ true
  unfolding any
  any_intro [] m h = elim m [ ]
  any_intro (x ∷ xs) (Memᴰ.head e) h = let one = subst (λ y. p y ≡ true) e h in ground arith
  any_intro (x ∷ xs) (Memᴰ.tail m) h = let more = any_intro xs m h in ground arith

  pub any-eq_true : (xs : List A) → any p xs ≡ true → (a : A) × Memᴰ a xs × (p a ≡ true)
  unfolding any
  any-eq_true [] h = cc
  any-eq_true (x ∷ xs) h = elim (Bool-cases (p x)) [
    | inl t ↦ (x, Memᴰ.head refl, t)
    | inr f ↦ let (a, m, t) = any-eq_true xs (rw f at h) in (a, Memᴰ.tail m, t)
  ]

-- Each two of the elements, in their order.
abbrev pub Pairwise {ℓ κ} : {A : Type ℓ} → (A → A → Type κ) → List A → Type κ
Pairwise R [] = Unit
Pairwise R (x ∷ xs) = All (R x) xs × Pairwise R xs
