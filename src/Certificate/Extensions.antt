-- ===== src/Certificate/Extensions.antt =====
-- The loop over the extensions of a certificate.
use mathlib.Core.List.{
  Mem, Perm, erase, mem-cons, mem-cons_self, mem-cons_of_mem, not-mem-nil, cons-perm_iff_perm-erase,
}
use mathlib.Core.List.Perm
use mathlib.Core.Logic.Or
use pins.Prelude.{
  ℕ, zero, suc, ◌^◌, ◌≤◌, ◌<◌, ◌≡◌, ◌↔◌, refl, sym, subst, ◌∙◌, Bool, true, ◌||◌, List, [], ◌∷◌,
  ◌++◌, none, some, arith, ◌==◌, ==_iff, length, bind_cases, guard_cases, Bool-cases, Option-cases,
  inl, inr, All,
}
use pins.Go.Text.{Str, text_eq, text_eq_iff, text_eq_refl, member}
use pins.Go.Wire.{
  IsBytes, read_4, read_string, put_4, put_string, put_4-read_4, put_string-read_string,
  read_4-put_4, read_string-put_string, length-put_string, length-put_4,
}
use pins.Certificate.{text_dec, read_extension, extensions_ok}

-- The bytes of extensions with these names.
unfoldable pub put_extensions : List Str → Str
put_extensions [] = []
put_extensions (name ∷ names) = put_string name ++ (put_4 0 ++ put_extensions names)

read_extension-IsBytes :
    (s : Str) {name rest : Str}
    → IsBytes s
    → read_extension s ≡ some (name, rest)
    → (s ≡ put_string name ++ (put_4 0 ++ rest)) × IsBytes rest
unfolding read_extension
read_extension-IsBytes s {name} {rest} h e =
    bind_cases (read_string s) _ e λ (found, s') read after.
      let (same, small, bytes, own) = put_string-read_string s h read in
      bind_cases (read_4 s') _ after λ (size, s'') read' after'.
        let (same', small', bytes') = put_4-read_4 s' bytes read' in
        guard_cases (size == 0) _ after' λ none_left done.
          let pair : ◌≡◌ {A = Str × Str} (found, s'') (name, rest) = cc in
          let whole : s ≡ put_string found ++ (put_4 0 ++ s'') =
            rw (← (==_iff size 0).0 none_left, ← same') same in
          subst (λ p. (s ≡ put_string p.0 ++ (put_4 0 ++ p.1)) × IsBytes p.1) pair (whole, bytes')

read_extension-put :
    (name rest : Str)
    → length name < 2 ^ 32
    → read_extension (put_string name ++ (put_4 0 ++ rest)) ≡ some (name, rest)
unfolding read_extension
read_extension-put name rest h =
    rw (read_string-put_string name (put_4 0 ++ rest) h, read_4-put_4 0 rest (omega arith)) refl

bool_prop : (b : Bool) → IsProp (b ≡ true)
bool_prop b = hlevel

pub member_iff : (s : Str) (ts : List Str) → (member s ts ≡ true) ↔ Mem s ts
unfolding member
member_iff s [] = (λ h. cc, λ m. absurd (not-mem-nil m))
member_iff s (t ∷ ts) =
    let (sound, complete) = member_iff s ts in
    (
      λ h. elim (Bool-cases (text_eq s t)) [
        | inl e ↦ rw (← (text_eq_iff s t).0 e) mem-cons_self
        | inr f ↦ mem-cons_of_mem t (sound (rw f at h))
      ],
      λ m.
          Or.elim (bool_prop (text_eq s t || member s ts)) (mem-cons.0 m)
            (λ e. rw e (ground (arith, text_eq_refl t))) (λ later. ground (arith, complete later)),
    )

no_extension : none ≡ read_extension []
unfolding read_extension read_string read_4
no_extension = refl

extensions_ok_step :
    (fuel : ℕ) (allowed : List Str) (s : Str) {name rest : Str}
    → read_extension s ≡ some (name, rest)
    → member name allowed ≡ true
    → extensions_ok (suc fuel) allowed s ≡ extensions_ok fuel (erase text_dec allowed name) rest
unfolding extensions_ok
extensions_ok_step fuel allowed [] read known = cc (no_extension ∙ read)
extensions_ok_step fuel allowed (c ∷ s) read known = rw (read, extensions_ok, known) refl

-- If the loop ends well, then the names that it read are the allowed ones, each once.
pub extensions_ok_bytes :
    (fuel : ℕ) (allowed : List Str) (s : Str)
    → IsBytes s
    → extensions_ok fuel allowed s ≡ true
    → (names : List Str) × (s ≡ put_extensions names) × Perm names allowed
unfolding extensions_ok put_extensions
extensions_ok_bytes fuel [] [] h e = ([], refl, Perm.nil)
extensions_ok_bytes fuel (a ∷ allowed) [] h e = cc
extensions_ok_bytes zero allowed (c ∷ s) h e = cc
extensions_ok_bytes (suc fuel) allowed (c ∷ s) h e = elim (Option-cases (read_extension (c ∷ s))) [
  | inl missing ↦ cc (rw (missing, extensions_ok) at e)
  | inr ((name, rest), read) ↦
      let (same, bytes) = read_extension-IsBytes (c ∷ s) h read in
      elim (Bool-cases (member name allowed)) [
        | inr unknown ↦ cc (rw (read, extensions_ok, unknown) at e)
        | inl known ↦
            let (names, equal, perm) =
              extensions_ok_bytes fuel (erase text_dec allowed name) rest bytes
                (sym (extensions_ok_step fuel allowed (c ∷ s) read known) ∙ e) in
            (
              name ∷ names,
              rw (← equal) same,
              (cons-perm_iff_perm-erase text_dec).1 ((member_iff name allowed).0 known, perm),
            )
      ]
]

nothing_left : (fuel : ℕ) → extensions_ok fuel [] [] ≡ true
unfolding extensions_ok
nothing_left zero = refl
nothing_left (suc fuel) = refl

-- The bytes of the allowed names, in any order, end the loop well, and the fuel is enough.
pub extensions_ok-put_extensions :
    (fuel : ℕ) (names allowed : List Str)
    → Perm names allowed
    → length (put_extensions names) ≤ fuel
    → All (λ n. length n < 2 ^ 32) names
    → extensions_ok fuel allowed (put_extensions names) ≡ true
unfolding put_extensions
extensions_ok-put_extensions fuel [] allowed perm room small =
    rw (Perm.eq-nil (Perm.symm perm)) (nothing_left fuel)
extensions_ok-put_extensions zero (n ∷ names) allowed perm room small =
    absurd (omega (arith, length-put_string n (put_4 0 ++ put_extensions names)))
extensions_ok-put_extensions (suc fuel) (n ∷ names) allowed perm room small =
    let read = read_extension-put n (put_extensions names) small.0 in
    let (known, rest) = (cons-perm_iff_perm-erase text_dec).0 perm in
    let more =
      extensions_ok-put_extensions fuel names (erase text_dec allowed n) rest
        (omega (
          arith,
          length-put_string n (put_4 0 ++ put_extensions names),
          length-put_4 0 (put_extensions names),
        ))
        small.1 in
    extensions_ok_step fuel allowed (put_string n ++ (put_4 0 ++ put_extensions names)) read
      ((member_iff n allowed).1 known)
    ∙ more
