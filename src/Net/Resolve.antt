-- ===== src/Net/Resolve.antt =====
-- `ResolveTuples` of internal/netpolicy/policy.go: which rule decides on a tuple.
use mathlib.Core.List.{Memᴰ}
use pins.Prelude.{
  ◌+◌, ◌≡◌, refl, sym, ap, ap₂, subst, ◌∙◌, Bool, true, false, not, ◌&&◌, List, [], ◌∷◌, ◌++◌,
  arith, leb, length, length-append, count, All, if◌then◌else◌, Bool-cases, inl, inr,
}
use pins.Go.Text.{codes, is_empty}
use pins.Net.{
  Object, Tuple, tuple_eq, Rule, ResolvedTuple, NetEnv, Result, fail, ok, ok_cases, demand_cases,
  RegistryState,
}
use pins.Net.Objects.{name_ok}
use pins.Net.Rules.{
  one_of, all_tuples, canonical_tuple, normalize_tuples, normalize_path, normalize_rule,
  stale_match, resolved_by, match_found, match_tuples, match_rules, only, resolve_tuple,
  resolve_loop, resolve_tuples,
}

count-append :
    {A : Type 0} (p : A → Bool) (xs ys : List A) → count p (xs ++ ys) ≡ count p xs + count p ys
unfolding count
count-append p [] ys = omega arith
count-append p (x ∷ xs) ys = omega (arith, count-append p xs ys)

count_none : {A : Type 0} (p : A → Bool) → count p [] ≡ 0
unfolding count
count_none p = refl

count_one :
    {A : Type 0} (p : A → Bool) (x : A) (b : Bool)
    → p x ≡ b
    → count p (x ∷ []) ≡ (if b then 1 else 0)
unfolding count
count_one p x true e = rw e refl
count_one p x false e = rw e refl

module _ (env : NetEnv) (objects : List Object) (t : Tuple) where
  -- The declared tuple is, made canonical, the one that is asked for.
  unfoldable pub is_scope : Result Tuple → Bool
  is_scope (fail _) = false
  is_scope (ok scope) = tuple_eq scope t

  abbrev pub covers : Tuple → Bool
  covers declared = is_scope (canonical_tuple env objects declared)

  -- A rule that gives this answer, and its tuple.
  pub record From (rule : Rule) (r : ResolvedTuple) : Type 0 where
    pub declared : Tuple
    pub declares : Memᴰ declared rule.tuples
    pub covered : covers declared ≡ true
    pub tuple : r.tuple ≡ t
    pub policy : r.policy ≡ rule.ref
    pub decision : r.decision ≡ rule.decision
    pub fail_closed : r.fail_closed ≡ rule.fail_closed
    pub filtering : r.filtering ≡ rule.filtering

  resolved_by_normalized :
      (rule n : Rule)
      → normalize_rule env objects rule ≡ ok n
      → (n.ref ≡ rule.ref)
        × (n.decision ≡ rule.decision)
        × (n.fail_closed ≡ rule.fail_closed)
        × (n.filtering ≡ rule.filtering)
  unfolding normalize_rule
  resolved_by_normalized rule n e =
      demand_cases
        (name_ok rule.alias
          && one_of (codes "allow") (codes "deny") rule.decision
          && not (is_empty rule.tuples)
          && leb (length rule.tuples) 256)
        _ _ e
        λ _ e1. ok_cases (normalize_tuples env objects [] rule.tuples) _ e1 λ tuples _ e2.
          ok_cases (normalize_path env objects rule.path) _ e2 λ path _ e3.
            let same : record rule { tuples = tuples; path = path } ≡ n = cc in
            (
              ap (λ m. m.ref) (sym same),
              ap (λ m. m.decision) (sym same),
              ap (λ m. m.fail_closed) (sym same),
              ap (λ m. m.filtering) (sym same),
            )

  -- What a part of the loops gives: as many answers as tuples that cover, each from a rule.
  record Found (test : ResolvedTuple → Type 0) (declared : List Tuple) (found : List ResolvedTuple)
      : Type 0 where
    number : length found ≡ count covers declared
    from : All test found

  All-append :
      (P : ResolvedTuple → Type 0) (xs ys : List ResolvedTuple)
      → All P xs
      → All P ys
      → All P (xs ++ ys)
  All-append P [] ys h k = k
  All-append P (x ∷ xs) ys h k = (h.0, All-append P xs ys h.1 k)

  All-weaken :
      (P Q : ResolvedTuple → Type 0) (xs : List ResolvedTuple)
      → ((r : ResolvedTuple) → P r → Q r)
      → All P xs
      → All Q xs
  All-weaken P Q [] f h = tt
  All-weaken P Q (x ∷ xs) f h = (f x h.0, All-weaken P Q xs f h.1)

  match_nothing-Found :
      (rule : Rule) (declared : Tuple) {found : List ResolvedTuple}
      → covers declared ≡ false
      → [] ≡ found
      → Found (From rule) (declared ∷ []) found
  match_nothing-Found rule declared outside same =
      subst (Found (From rule) (declared ∷ [])) same
        (record { number = sym (count_one covers declared false outside); from = tt })

  match_found_lem :
      (rule : Rule) (declared : Tuple) (m : Result Tuple) {found : List ResolvedTuple}
      → Memᴰ declared rule.tuples
      → canonical_tuple env objects declared ≡ m
      → match_found env objects t rule declared m ≡ ok found
      → Found (From rule) (declared ∷ []) found
  unfolding match_found is_scope
  match_found_lem rule declared (fail error) {found} m same e =
      demand_cases (not (stale_match env objects declared t)) _ _ e
        λ _ e1. match_nothing-Found rule declared (ap is_scope same) cc
  match_found_lem rule declared (ok scope) {found} m same e = elim (Bool-cases (tuple_eq scope t)) [
    | inr other ↦
        match_nothing-Found rule declared (ap is_scope same ∙ other)
          (let missed = rw other at e in cc)
    | inl it ↦ ok_cases (normalize_rule env objects rule) _ (rw it at e) λ n e1 e2.
        let one_found : resolved_by env n t ∷ [] ≡ found = cc in
        let (ref, decision, closed, filtering) = resolved_by_normalized rule n e1 in
        let covered : covers declared ≡ true = ap is_scope same ∙ it in
        subst (Found (From rule) (declared ∷ [])) one_found (record {
          number = sym (count_one covers declared true covered);
          from = (
            record {
              declared = declared;
              declares = m;
              covered = covered;
              tuple = refl;
              policy = ref;
              decision = decision;
              fail_closed = closed;
              filtering = filtering;
            },
            tt,
          );
        })
  ]

  Found-append :
      (test : ResolvedTuple → Type 0) (ds es : List Tuple) (xs ys : List ResolvedTuple)
      {found : List ResolvedTuple}
      → Found test ds xs
      → Found test es ys
      → ok (xs ++ ys) ≡ ok found
      → Found test (ds ++ es) found
  Found-append test ds es xs ys {found} f g e =
      let same : xs ++ ys ≡ found = cc in
      subst (Found test (ds ++ es)) same (record {
        number =
            length-append {0} xs ys
            ∙ (ap₂ (λ a b. a + b) f.number g.number ∙ sym (count-append covers ds es));
        from = All-append test xs ys f.from g.from;
      })

  match_tuples_lem :
      (rule : Rule) (declared : List Tuple) {found : List ResolvedTuple}
      → ((d : Tuple) → Memᴰ d declared → Memᴰ d rule.tuples)
      → match_tuples env objects t rule declared ≡ ok found
      → Found (From rule) declared found
  unfolding match_tuples
  match_tuples_lem rule [] {found} within e =
      let same : [] ≡ found = cc in
      subst (Found (From rule) []) same (record { number = sym (count_none covers); from = tt })
  match_tuples_lem rule (d ∷ ds) within e =
      ok_cases (match_found env objects t rule d (canonical_tuple env objects d)) _ e λ xs e1 e2.
        ok_cases (match_tuples env objects t rule ds) _ e2 λ ys e3 e4.
          Found-append (From rule) (d ∷ []) ds xs ys
            (match_found_lem rule d (canonical_tuple env objects d) (within d (Memᴰ.head refl)) refl
              e1)
            (match_tuples_lem rule ds (λ b m. within b (Memᴰ.tail m)) e3) e4

  -- An answer from one of these rules.
  abbrev pub FromOne : List Rule → ResolvedTuple → Type 0
  FromOne rules r = (rule : Rule) × Memᴰ rule rules × From rule r

  match_rules_lem :
      (rules : List Rule) {found : List ResolvedTuple}
      → match_rules env objects t rules ≡ ok found
      → Found (FromOne rules) (all_tuples rules) found
  unfolding match_rules all_tuples
  match_rules_lem [] {found} e =
      let same : [] ≡ found = cc in
      subst (Found (FromOne []) []) same (record { number = sym (count_none covers); from = tt })
  match_rules_lem (rule ∷ rest) e =
      ok_cases (match_tuples env objects t rule rule.tuples) _ e λ xs e1 e2.
        ok_cases (match_rules env objects t rest) _ e2 λ ys e3 e4.
          let here = match_tuples_lem rule rule.tuples (λ d m. m) e1 in
          let later = match_rules_lem rest e3 in
          let one =
            All-weaken (From rule) (FromOne (rule ∷ rest)) xs (λ r f. (rule, Memᴰ.head refl, f))
              here.from in
          let more =
            All-weaken (FromOne rest) (FromOne (rule ∷ rest)) ys
              (λ r (o, m, f). (o, Memᴰ.tail m, f)) later.from in
          Found-append (FromOne (rule ∷ rest)) rule.tuples (all_tuples rest) xs ys
            (record { number = here.number; from = one })
            (record { number = later.number; from = more }) e4

-- The one answer to a tuple: the tuple itself made canonical, by the one rule that covers it.
pub record Resolves (env : NetEnv) (s : RegistryState) (input : Tuple) (r : ResolvedTuple)
    : Type 0 where
  pub canonical : canonical_tuple env s.objects input ≡ ok r.tuple
  pub once : count (covers env s.objects r.tuple) (all_tuples s.policies) ≡ 1
  pub rule : Rule
  pub stands : Memᴰ rule s.policies
  pub answer : From env s.objects r.tuple rule r

only_lem :
    (env : NetEnv) (found : List ResolvedTuple) {r : ResolvedTuple}
    → only env found ≡ ok r
    → found ≡ r ∷ []
unfolding only
only_lem env [] e = absurd (cc e)
only_lem env (x ∷ []) e = cc
only_lem env (x ∷ y ∷ more) e = absurd (cc e)

resolve_tuple-Resolves :
    (env : NetEnv) (s : RegistryState) (input : Tuple) (r : ResolvedTuple)
    → resolve_tuple env s input ≡ ok r
    → Resolves env s input r
unfolding resolve_tuple
resolve_tuple-Resolves env s input r e =
    ok_cases (canonical_tuple env s.objects input) _ e λ t e1 e2.
      ok_cases (match_rules env s.objects t s.policies) _ e2 λ found e3 e4.
        let f = match_rules_lem env s.objects t s.policies e3 in
        let alone : found ≡ r ∷ [] = only_lem env found e4 in
        let (rule, stands, answer) =
          (subst (All (FromOne env s.objects t s.policies)) alone f.from).0 in
        let same : t ≡ r.tuple = sym answer.tuple in
        record {
          canonical = e1 ∙ ap ok same;
          once =
              subst (λ u. count (covers env s.objects u) (all_tuples s.policies) ≡ 1) same
                (sym f.number ∙ ap (length {0}) alone);
          rule = rule;
          stands = stands;
          answer = subst (λ u. From env s.objects u rule r) same answer;
        }

-- The elements of two lists of one length, in pairs.
abbrev pub Each : {A B : Type 0} → (A → B → Type 0) → List A → List B → Type 0
Each R [] [] = Unit
Each R (x ∷ xs) (y ∷ ys) = R x y × Each R xs ys
Each R _ _ = ⊥

resolve_loop_lem :
    (env : NetEnv) (s : RegistryState) (inputs : List Tuple) {rs : List ResolvedTuple}
    → resolve_loop env s inputs ≡ ok rs
    → Each (Resolves env s) inputs rs
unfolding resolve_loop
resolve_loop_lem env s [] {rs} e =
    let same : [] ≡ rs = cc in subst (Each (Resolves env s) []) same tt
resolve_loop_lem env s (t ∷ ts) {rs} e = ok_cases (resolve_tuple env s t) _ e λ r e1 e2.
    ok_cases (resolve_loop env s ts) _ e2 λ more e3 e4.
      let same : r ∷ more ≡ rs = cc in
      subst (Each (Resolves env s) (t ∷ ts)) same
        (resolve_tuple-Resolves env s t r e1, resolve_loop_lem env s ts e3)

-- If `ResolveTuples` gives answers, then there is one for each tuple, in their order: the tuple can be
-- made canonical, exactly one tuple of all rules covers it, and the answer is the decision of the rule
-- that has this one.
pub resolve_tuples-Resolves :
    (env : NetEnv) (s : RegistryState) (inputs : List Tuple) (rs : List ResolvedTuple)
    → resolve_tuples env s inputs ≡ ok rs
    → Each (Resolves env s) inputs rs
unfolding resolve_tuples
resolve_tuples-Resolves env s inputs rs e =
    demand_cases (not (is_empty inputs) && leb (length inputs) 256) _ _ e
      λ _ e1. resolve_loop_lem env s inputs e1
