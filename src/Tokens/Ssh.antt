-- ===== src/Tokens/Ssh.antt =====
-- What `ValidateSSHToken` of internal/store/ssh_auth.go accepts.
use mathlib.Core.List.{Memᴰ}
use pins.Prelude.{
  ℕ, ◌+◌, ◌≤◌, ◌≡◌, ◌⊎◌, inl, inr, refl, sym, subst, ◌∙◌, Bool, true, false, not, ◌&&◌, List, [],
  ◌∷◌, Option, some, arith, ◌==◌, if◌then◌else◌, Bool-cases, find, find-eq_some, count, bind_cases,
  guard_cases, &&-eq_true, ==_iff,
}
use pins.Go.Text.{empty-nil, Str, codes, text_eq, text_eq_iff, is_empty, member}
use pins.Tokens.{TokenRecord, hash_of, is_live, is_named, is_ssh_scope, validate_ssh_token}

too_many : (b : Bool) (n : ℕ) → (if b then 1 else 0) + n ≡ 1 → b ≡ true → ¬ (1 ≤ n)
too_many true n c e h = omega arith
too_many false n c e h = cc

last_one : (b : Bool) (n : ℕ) → (if b then 1 else 0) + n ≡ 1 → 1 ≤ n → n ≡ 1
last_one true n c h = omega arith
last_one false n c h = omega arith

module _ {ℓ} {A : Type ℓ} (p : A → Bool) where
  count-mem : (xs : List A) {a : A} → Memᴰ a xs → p a ≡ true → 1 ≤ count p xs
  unfolding count
  count-mem [] m t = elim m [ ]
  count-mem (x ∷ xs) (Memᴰ.head e) t =
      let found : p x ≡ true = subst (λ y. p y ≡ true) e t in rw found (omega arith)
  count-mem (x ∷ xs) (Memᴰ.tail m) t = let rest = count-mem xs m t in omega (arith, rest)

  -- Where one element passes, any two that pass are the same.
  count-one :
      (xs : List A) {a b : A}
      → count p xs ≡ 1
      → Memᴰ a xs
      → p a ≡ true
      → Memᴰ b xs
      → p b ≡ true
      → a ≡ b
  unfolding count
  count-one [] c m s n t = elim m [ ]
  count-one (x ∷ xs) c (Memᴰ.head e) s (Memᴰ.head f) t = e ∙ sym f
  count-one (x ∷ xs) c (Memᴰ.head e) s (Memᴰ.tail n) t =
      let found : p x ≡ true = subst (λ y. p y ≡ true) e s in
      let more = count-mem xs n t in elim (too_many (p x) (count p xs) c found more) [ ]
  count-one (x ∷ xs) c (Memᴰ.tail m) s (Memᴰ.head f) t =
      let found : p x ≡ true = subst (λ y. p y ≡ true) f t in
      let more = count-mem xs m s in elim (too_many (p x) (count p xs) c found more) [ ]
  count-one (x ∷ xs) c (Memᴰ.tail m) s (Memᴰ.tail n) t =
      count-one xs (last_one (p x) (count p xs) c (count-mem xs m s)) m s n t

member-mem : (s : Str) (ts : List Str) → member s ts ≡ true → Memᴰ s ts
unfolding member
member-mem s [] h = cc
member-mem s (t ∷ ts) h = elim (Bool-cases (text_eq s t)) [
  | inl e ↦ Memᴰ.head ((text_eq_iff s t).0 e)
  | inr f ↦ Memᴰ.tail (member-mem s ts (rw f at h))
]

ssh_scope-cases :
    (s : Str) → is_ssh_scope s ≡ true → (s ≡ codes "ssh:use") ⊎ (s ≡ codes "ssh:approve")
unfolding is_ssh_scope
ssh_scope-cases s h = elim (Bool-cases (text_eq s (codes "ssh:use"))) [
  | inl e ↦ inl ((text_eq_iff s _).0 e)
  | inr f ↦ inr ((text_eq_iff s _).0 (rw f at h))
]

-- The token of the file that a raw token and a scope stand for.
pub record Authorized (digest : Str → Str) (file : Option (List TokenRecord)) (raw scope : Str)
    (t : TokenRecord) : Type 0 where
  pub tokens : List TokenRecord
  pub read : file ≡ some tokens
  pub known : (scope ≡ codes "ssh:use") ⊎ (scope ≡ codes "ssh:approve")
  pub stored : Memᴰ t tokens
  pub hashed : t.token_hash ≡ hash_of digest raw
  pub unrevoked : t.revoked_at ≡ []
  pub listed : Memᴰ scope t.scopes
  pub alone : (u : TokenRecord) → Memᴰ u tokens → u.name ≡ t.name → u.revoked_at ≡ [] → u ≡ t

named-mem : (t u : TokenRecord) → u.name ≡ t.name → u.revoked_at ≡ [] → is_named t.name u ≡ true
unfolding is_named
named-mem t u e r = rw ((text_eq_iff u.name t.name).1 e, r) refl

authorized :
    (digest : Str → Str) (file : Option (List TokenRecord)) (raw scope : Str) (t : TokenRecord)
    (tokens : List TokenRecord)
    → (not (is_empty (hash_of digest raw)) && is_ssh_scope scope) ≡ true
    → file ≡ some tokens
    → find (is_live (hash_of digest raw)) tokens ≡ some t
    → (member scope t.scopes && count (is_named t.name) tokens == 1) ≡ true
    → Authorized digest file raw scope t
unfolding is_live
authorized digest file raw scope t tokens first read found last =
    let (mem, live) = find-eq_some (is_live (hash_of digest raw)) tokens found in
    let (same, free) =
      &&-eq_true (text_eq t.token_hash (hash_of digest raw)) (is_empty t.revoked_at) live in
    let (some_scope, one) =
      &&-eq_true (member scope t.scopes) (count (is_named t.name) tokens == 1) last in
    let unrevoked = empty-nil t.revoked_at free in
    let self = named-mem t t refl unrevoked in
    record {
      tokens = tokens;
      read = read;
      known =
          ssh_scope-cases scope
            ((&&-eq_true (not (is_empty (hash_of digest raw))) (is_ssh_scope scope) first).1);
      stored = mem;
      hashed = (text_eq_iff t.token_hash (hash_of digest raw)).0 same;
      unrevoked = unrevoked;
      listed = member-mem scope t.scopes some_scope;
      alone = λ u m e r.
          count-one (is_named t.name) tokens ((==_iff (count (is_named t.name) tokens) 1).0 one) m
            (named-mem t u e r) mem self;
    }

-- A raw token that is accepted for a scope has a hash that a token of the file has, which is not
-- revoked and lists this very scope, one of the two of SSH, so no wildcard is enough; and no other
-- token that is not revoked has its name.
pub validate_ssh_token-Authorized :
    (digest : Str → Str) (file : Option (List TokenRecord)) (raw scope : Str) (t : TokenRecord)
    → validate_ssh_token digest file raw scope ≡ some t
    → Authorized digest file raw scope t
unfolding validate_ssh_token
validate_ssh_token-Authorized digest file raw scope t h =
    let h' = hash_of digest raw in
    guard_cases (not (is_empty h') && is_ssh_scope scope) _ h λ first h1.
      bind_cases file _ h1 λ tokens read h2.
        bind_cases (find (is_live h') tokens) _ h2 λ u found h3.
          guard_cases (member scope u.scopes && count (is_named u.name) tokens == 1) _ h3 λ last h4.
            let same : u ≡ t = cc in
            subst (Authorized digest file raw scope) same
              (authorized digest file raw scope u tokens first read found last)
