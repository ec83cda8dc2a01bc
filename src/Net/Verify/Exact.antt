-- ===== src/Net/Verify/Exact.antt =====
-- What a verdict of `Evaluate` of internal/netpolicy/verify.go says about the facts.
use pins.Prelude.{
  ◌≡◌, refl, ap, ◌∙◌, Bool, true, false, not, ◌&&◌, ◌||◌, List, [], ◌∷◌, Option, any, all,
  if◌then◌else◌, Bool-cases, inl, inr,
}
use pins.Go.Text.{Str, codes, is_empty}
use pins.Lease.Types.{Time}
use pins.Net.{
  Tuple, NetEnv, ObservationRequest, Fact, Verdict, verified, violated, unverified, ResultState,
  missing, contradicted, pass, PropertyResult,
}
use pins.Net.Verify.{
  profile_valid, demote, Progress, fail_with, next_state, next_verdict, counts, take_fact,
  over_facts, close_property, check_property, over_properties, scope_of, required_of, check_scope,
  check_tuple, over_tuples, tuples_of, start, finish, outcome, evaluate,
}

-- The state that the facts give a property that had this one: whether one supports it, and whether
-- one contradicts it.
unfoldable state_after : ResultState → Bool → Bool → ResultState
state_after contradicted good bad = contradicted
state_after s good true = contradicted
state_after missing true false = pass
state_after missing false false = missing
state_after pass good false = pass

state_after-none : (s : ResultState) → s ≡ state_after s false false
unfolding state_after
state_after-none missing = refl
state_after-none contradicted = refl
state_after-none pass = refl

next_state-state_after :
    (value : Bool) (s : ResultState) (good bad : Bool)
    → state_after (next_state value s) good bad ≡ state_after s (value || good) (not value || bad)
unfolding next_state state_after
next_state-state_after false missing good bad = refl
next_state-state_after false contradicted good bad = refl
next_state-state_after false pass good bad = refl
next_state-state_after true missing good true = refl
next_state-state_after true missing true false = refl
next_state-state_after true missing false false = refl
next_state-state_after true contradicted good bad = refl
next_state-state_after true pass good true = refl
next_state-state_after true pass good false = refl

-- The verdict after a part of the loops, by whether all is supported there, and whether something is
-- contradicted.
unfoldable pub graded : Verdict → Bool → Bool → Verdict
graded v good true = violated
graded v true false = v
graded v false false = demote v

graded-graded :
    (v : Verdict) (g g' b b' : Bool) → graded (graded v g b) g' b' ≡ graded v (g && g') (b || b')
unfolding graded demote
graded-graded v g g' true true = refl
graded-graded v g g' false true = refl
graded-graded v g true true false = refl
graded-graded v g false true false = refl
graded-graded v true g' false false = refl
graded-graded v false true false false = refl
graded-graded verified false false false false = refl
graded-graded violated false false false false = refl
graded-graded unverified false false false false = refl

module _ (h : NetEnv) (q : ObservationRequest) (facts : List Fact) (now : Time)
    (fixture : Bool) where
  abbrev pub supports : Option Tuple → Str → Fact → Bool
  supports scoped property f = counts h q facts now fixture scoped property f && f.value

  abbrev pub contradicts : Option Tuple → Str → Fact → Bool
  contradicts scoped property f = counts h q facts now fixture scoped property f && not f.value

  over_facts-state :
      (scoped : Option Tuple) (property : Str) (fs : List Fact) (r : PropertyResult) (p : Progress)
      → (over_facts h q facts now fixture scoped property fs r p).0.state
        ≡ state_after r.state
            (any (supports scoped property) fs)
            (any (contradicts scoped property) fs)
  unfolding over_facts take_fact next_state any
  over_facts-state scoped property [] r p = state_after-none r.state
  over_facts-state scoped property (f ∷ fs) r p =
      elim (Bool-cases (counts h q facts now fixture scoped property f)) [
        | inr e ↦ rw (e, over_facts) (over_facts-state scoped property fs r p)
        | inl e ↦
            let (r', p') = take_fact h q facts now fixture f r p in
            rw (e, over_facts)
              (over_facts-state scoped property fs r' p'
                ∙ next_state-state_after f.value r.state (any (supports scoped property) fs)
                    (any (contradicts scoped property) fs))
      ]

  next_verdict-if :
      (value : Bool) (v : Verdict) (bad : Bool)
      → (if bad then violated else next_verdict value v)
        ≡ (if not value || bad then violated else v)
  unfolding next_verdict
  next_verdict-if true v bad = refl
  next_verdict-if false v true = refl
  next_verdict-if false v false = refl

  over_facts-verdict :
      (scoped : Option Tuple) (property : Str) (fs : List Fact) (r : PropertyResult) (p : Progress)
      → (over_facts h q facts now fixture scoped property fs r p).1.verdict
        ≡ (if any (contradicts scoped property) fs then violated else p.verdict)
  unfolding over_facts take_fact next_verdict any
  over_facts-verdict scoped property [] r p = refl
  over_facts-verdict scoped property (f ∷ fs) r p =
      elim (Bool-cases (counts h q facts now fixture scoped property f)) [
        | inr e ↦ rw (e, over_facts) (over_facts-verdict scoped property fs r p)
        | inl e ↦
            let (r', p') = take_fact h q facts now fixture f r p in
            rw (e, over_facts)
              (over_facts-verdict scoped property fs r' p'
                ∙ next_verdict-if f.value p.verdict (any (contradicts scoped property) fs))
      ]

  abbrev blank : Option Tuple → Str → PropertyResult
  blank scoped property = record {
    property = property;
    tuple = scoped;
    state = missing;
    evidence = [];
    assurance = [];
  }

  close_property-verdict :
      (property : Str) (r : PropertyResult) (p : Progress) (v : Verdict) (good bad : Bool)
      → r.state ≡ state_after missing good bad
      → p.verdict ≡ (if bad then violated else v)
      → (close_property h q facts now fixture property r p).verdict ≡ graded v good bad
  unfolding close_property fail_with state_after graded demote
  close_property-verdict property r p v true true e e' = rw e e'
  close_property-verdict property r p v false true e e' = rw e e'
  close_property-verdict property r p v true false e e' = rw e e'
  close_property-verdict property r p v false false e e' = rw e (ap demote e')

  check_property-verdict :
      (scoped : Option Tuple) (property : Str) (p : Progress)
      → (check_property h q facts now fixture scoped property p).verdict
        ≡ graded p.verdict
            (any (supports scoped property) facts)
            (any (contradicts scoped property) facts)
  unfolding check_property
  check_property-verdict scoped property p =
      let (r, p') =
        over_facts h q facts now fixture scoped property facts (blank scoped property) p in
      close_property-verdict property r p' p.verdict (any (supports scoped property) facts)
        (any (contradicts scoped property) facts)
        (over_facts-state scoped property facts (blank scoped property) p)
        (over_facts-verdict scoped property facts (blank scoped property) p)

  abbrev pub met : Option Tuple → List Str → Bool
  met scoped names = all (λ n. any (supports scoped n) facts) names

  abbrev pub broken : Option Tuple → List Str → Bool
  broken scoped names = any (λ n. any (contradicts scoped n) facts) names

  over_properties-verdict :
      (scoped : Option Tuple) (names : List Str) (p : Progress)
      → (over_properties h q facts now fixture scoped names p).verdict
        ≡ graded p.verdict (met scoped names) (broken scoped names)
  unfolding over_properties any all graded
  over_properties-verdict scoped [] p = refl
  over_properties-verdict scoped (n ∷ names) p =
      over_properties-verdict scoped names (check_property h q facts now fixture scoped n p)
      ∙ (ap (λ v. graded v (met scoped names) (broken scoped names))
            (check_property-verdict scoped n p)
          ∙ graded-graded p.verdict (any (supports scoped n) facts) (met scoped names)
              (any (contradicts scoped n) facts) (broken scoped names))

  -- The tuple has properties, where each tuple has its own.
  abbrev pub declared : Tuple → Bool
  declared t = is_empty q.tuple_required || not (is_empty (required_of h q facts now fixture t))

  check_scope-verdict :
      (t : Tuple) (p : Progress)
      → (check_scope h q facts now fixture t p).verdict ≡ graded p.verdict (declared t) false
  unfolding check_scope fail_with graded
  check_scope-verdict t p =
      by_cases (is_empty q.tuple_required) (is_empty (required_of h q facts now fixture t)) p
    where
      by_cases :
          (a b : Bool) (p : Progress)
          → (if not a && b then fail_with (codes "tuple_property_scope") p else p).verdict
            ≡ graded p.verdict (a || not b) false
      by_cases true b p = refl
      by_cases false true p = refl
      by_cases false false p = refl

  abbrev pub tuple_met : Tuple → Bool
  tuple_met t =
      declared t && met (scope_of h q facts now fixture t) (required_of h q facts now fixture t)

  abbrev pub tuple_broken : Tuple → Bool
  tuple_broken t = broken (scope_of h q facts now fixture t) (required_of h q facts now fixture t)

  check_tuple-verdict :
      (t : Tuple) (p : Progress)
      → (check_tuple h q facts now fixture t p).verdict
        ≡ graded p.verdict (tuple_met t) (tuple_broken t)
  unfolding check_tuple
  check_tuple-verdict t p =
      let scoped = scope_of h q facts now fixture t in
      let names = required_of h q facts now fixture t in
      over_properties-verdict scoped names (check_scope h q facts now fixture t p)
      ∙ (ap (λ v. graded v (met scoped names) (broken scoped names)) (check_scope-verdict t p)
          ∙ graded-graded p.verdict (declared t) (met scoped names) false (broken scoped names))

  over_tuples-verdict :
      (ts : List Tuple) (p : Progress)
      → (over_tuples h q facts now fixture ts p).verdict
        ≡ graded p.verdict (all tuple_met ts) (any tuple_broken ts)
  unfolding over_tuples any all graded
  over_tuples-verdict [] p = refl
  over_tuples-verdict (t ∷ ts) p =
      over_tuples-verdict ts (check_tuple h q facts now fixture t p)
      ∙ (ap (λ v. graded v (all tuple_met ts) (any tuple_broken ts)) (check_tuple-verdict t p)
          ∙ graded-graded p.verdict (tuple_met t) (all tuple_met ts) (tuple_broken t)
              (any tuple_broken ts))

  abbrev pub usable : Bool
  usable = not (is_empty q.required) && profile_valid q

  abbrev no_profile : Progress
  no_profile = record {
    verdict = unverified;
    properties = [];
    missing = codes "finite_profile" ∷ [];
    evidence = [];
  }

  outcome_cases :
      (nothing valid cleanup : Bool) (p : Progress) (good bad : Bool)
      → p.verdict ≡ graded verified good bad
      → (if nothing || not valid
          then no_profile
          else finish h q facts now fixture cleanup p).verdict
        ≡ graded verified
            ((not nothing && valid) && cleanup && good)
            ((not nothing && valid) && bad)
  unfolding finish fail_with graded demote
  outcome_cases true valid cleanup p good bad e = refl
  outcome_cases false false cleanup p good bad e = refl
  outcome_cases false true true p good bad e = e
  outcome_cases false true false p good true e = ap demote e
  outcome_cases false true false p true false e = ap demote e
  outcome_cases false true false p false false e = ap demote e

  pub evaluate-verdict :
      (id : Str) (cleanup : Bool)
      → (evaluate h q facts now fixture id cleanup).verdict
        ≡ graded verified
            (usable && cleanup && all tuple_met (tuples_of h q facts now fixture))
            (usable && any tuple_broken (tuples_of h q facts now fixture))
  unfolding evaluate outcome
  evaluate-verdict id cleanup =
      outcome_cases (is_empty q.required) (profile_valid q) cleanup
        (over_tuples h q facts now fixture (tuples_of h q facts now fixture)
          (start h q facts now fixture))
        (all tuple_met (tuples_of h q facts now fixture))
        (any tuple_broken (tuples_of h q facts now fixture))
        (over_tuples-verdict (tuples_of h q facts now fixture) (start h q facts now fixture))
