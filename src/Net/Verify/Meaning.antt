-- ===== src/Net/Verify/Meaning.antt =====
-- What the verdicts of `Evaluate` of internal/netpolicy/verify.go say about the facts.
use mathlib.Core.List.{Memᴰ}
use pins.Prelude.{
  ◌≡◌, ◌↔◌, refl, sym, ◌∙◌, Bool, true, false, not, ◌&&◌, &&-eq_true, List, Option, arith, any, all,
  all-eq_true, any-eq_true, all_intro, any_intro, Bool-cases, inl, inr,
}
use pins.Go.Text.{Str}
use pins.Lease.Types.{Time}
use pins.Net.{Tuple, NetEnv, ObservationRequest, Fact, verified, violated}
use pins.Net.Verify.{demote, counts, scope_of, required_of, tuples_of, evaluate}
use pins.Net.Verify.Exact.{
  graded, supports, contradicts, met, declared, tuple_met, tuple_broken, usable, evaluate-verdict,
}

module _ (h : NetEnv) (q : ObservationRequest) (facts : List Fact) (now : Time)
    (fixture : Bool) where
  -- The fact passes the guards of the loop for this property of this tuple.
  abbrev pub Counts : Tuple → Str → Fact → Type 0
  Counts t name f = counts h q facts now fixture (scope_of h q facts now fixture t) name f ≡ true

  -- The tuple and the name of a property that the request asks for.
  abbrev pub Asked : Tuple → Str → Type 0
  Asked t name =
      Memᴰ t (tuples_of h q facts now fixture) × Memᴰ name (required_of h q facts now fixture t)

  pub record Supported : Type 0 where
    pub profile : usable h q facts now fixture ≡ true
    pub scoped :
        (t : Tuple)
        → Memᴰ t (tuples_of h q facts now fixture)
        → declared h q facts now fixture t ≡ true
    pub each :
        (t : Tuple) (name : Str)
        → Asked t name
        → (f : Fact) × Memᴰ f facts × Counts t name f × (f.value ≡ true)
    pub no_other :
        (t : Tuple) (name : Str) (f : Fact)
        → Asked t name
        → Memᴰ f facts
        → Counts t name f
        → f.value ≡ true

  pub record Contradicted : Type 0 where
    pub profile : usable h q facts now fixture ≡ true
    pub tuple : Tuple
    pub name : Str
    pub asked : Asked tuple name
    pub fact : Fact
    pub known : Memᴰ fact facts
    pub counted : Counts tuple name fact
    pub against : fact.value ≡ false

  graded-verified :
      (good bad : Bool) → (graded verified good bad ≡ verified) ↔ ((good ≡ true) × (bad ≡ false))
  unfolding graded demote
  graded-verified true true = (λ e. (refl, cc), λ e. cc)
  graded-verified true false = (λ e. (refl, refl), λ e. refl)
  graded-verified false true = (λ e. (cc, cc), λ e. cc)
  graded-verified false false = (λ e. cc, λ e. cc)

  graded-violated : (good bad : Bool) → (graded verified good bad ≡ violated) ↔ (bad ≡ true)
  unfolding graded demote
  graded-violated good true = (λ e. refl, λ e. refl)
  graded-violated true false = (λ e. cc, λ e. cc)
  graded-violated false false = (λ e. cc, λ e. cc)

  all_met : Bool
  all_met = all (tuple_met h q facts now fixture) (tuples_of h q facts now fixture)

  any_broken : Bool
  any_broken = any (tuple_broken h q facts now fixture) (tuples_of h q facts now fixture)

  -- The scope of a tuple, and the two searches for a property of it.
  abbrev at_scope : Tuple → Option Tuple
  at_scope t = scope_of h q facts now fixture t

  abbrev for_it : Tuple → Str → Bool
  for_it t name = any (supports h q facts now fixture (at_scope t) name) facts

  abbrev against_it : Tuple → Str → Bool
  against_it t name = any (contradicts h q facts now fixture (at_scope t) name) facts

  for_it_iff :
      (t : Tuple) (name : Str)
      → (for_it t name ≡ true) ↔ ((f : Fact) × Memᴰ f facts × Counts t name f × (f.value ≡ true))
  for_it_iff t name = (
    λ e.
        let (f, known, both) =
          any-eq_true (supports h q facts now fixture (at_scope t) name) facts e in
        let (counted, value) =
          &&-eq_true (counts h q facts now fixture (at_scope t) name f) f.value both in
        (f, known, counted, value),
    λ (f, known, counted, value).
        any_intro (supports h q facts now fixture (at_scope t) name) facts known (ground arith),
  )

  against_it_iff :
      (t : Tuple) (name : Str)
      → (against_it t name ≡ true)
        ↔ ((f : Fact) × Memᴰ f facts × Counts t name f × (f.value ≡ false))
  against_it_iff t name = (
    λ e.
        let (f, known, both) =
          any-eq_true (contradicts h q facts now fixture (at_scope t) name) facts e in
        let (counted, value) =
          &&-eq_true (counts h q facts now fixture (at_scope t) name f) (not f.value) both in
        (f, known, counted, ground arith),
    λ (f, known, counted, value).
        any_intro (contradicts h q facts now fixture (at_scope t) name) facts known (ground arith),
  )

  any_broken_iff : ((usable h q facts now fixture && any_broken) ≡ true) ↔ Contradicted
  unfolding any_broken
  any_broken_iff = (
    λ e.
        let (profile, some_broken) = &&-eq_true (usable h q facts now fixture) any_broken e in
        let (t, in_tuples, broke) =
          any-eq_true (tuple_broken h q facts now fixture) (tuples_of h q facts now fixture)
            some_broken in
        let (name, in_names, against) =
          any-eq_true (against_it t) (required_of h q facts now fixture t) broke in
        let (f, known, counted, value) = (against_it_iff t name).0 against in
        record {
          profile = profile;
          tuple = t;
          name = name;
          asked = (in_tuples, in_names);
          fact = f;
          known = known;
          counted = counted;
          against = value;
        },
    λ c.
        let one = (against_it_iff c.tuple c.name).1 (c.fact, c.known, c.counted, c.against) in
        let two =
          any_intro (against_it c.tuple) (required_of h q facts now fixture c.tuple) c.asked.1
            one in
        let three =
          any_intro (tuple_broken h q facts now fixture) (tuples_of h q facts now fixture) c.asked.0
            two in
        let profile = c.profile in ground arith,
  )

  supported_sound :
      (usable h q facts now fixture ≡ true)
      → all_met ≡ true
      → (usable h q facts now fixture && any_broken) ≡ false
      → Supported
  unfolding all_met
  supported_sound profile met_all sound = record {
    profile = profile;
    scoped = λ t m. (tuple_parts t m).0;
    each = λ t name (m, n).
        (for_it_iff t name).0
          (all-eq_true (for_it t) (required_of h q facts now fixture t) (tuple_parts t m).1 n);
    no_other = λ t name f (m, n) known counted. elim (Bool-cases f.value) [
      | inl yes_value ↦ yes_value
      | inr against ↦
          let bad = any_broken_iff.1 (record {
            profile = profile;
            tuple = t;
            name = name;
            asked = (m, n);
            fact = f;
            known = known;
            counted = counted;
            against = against;
          }) in
          cc
    ];
  }
    where
      tuple_parts :
          (t : Tuple)
          → Memᴰ t (tuples_of h q facts now fixture)
          → (declared h q facts now fixture t ≡ true)
            × (met h q facts now fixture (at_scope t) (required_of h q facts now fixture t) ≡ true)
      tuple_parts t m =
          &&-eq_true (declared h q facts now fixture t)
            (met h q facts now fixture (at_scope t) (required_of h q facts now fixture t))
            (all-eq_true (tuple_met h q facts now fixture) (tuples_of h q facts now fixture) met_all
              m)

  supported_complete :
      Supported → (all_met ≡ true) × ((usable h q facts now fixture && any_broken) ≡ false)
  unfolding all_met
  supported_complete s = (
    all_intro (tuple_met h q facts now fixture) (tuples_of h q facts now fixture) (λ t m.
        let scoped = s.scoped t m in
        let each =
          all_intro (for_it t) (required_of h q facts now fixture t)
            (λ name n. (for_it_iff t name).1 (s.each t name (m, n))) in
        ground arith),
    elim (Bool-cases (usable h q facts now fixture && any_broken)) [
      | inr none_broken ↦ none_broken
      | inl some_broken ↦
          let c = any_broken_iff.0 some_broken in
          let value = s.no_other c.tuple c.name c.fact c.asked c.known c.counted in
          let value' = c.against in cc
    ],
  )

  -- The verdict is VERIFIED if and only if the cleanup was done and the request is supported: it has a
  -- finite profile; for each property that it asks of each tuple there is a fact that counts and is
  -- true; and no fact that counts for one of them is false.
  pub evaluate-verified_iff :
      (id : Str) (cleanup : Bool)
      → ((evaluate h q facts now fixture id cleanup).verdict ≡ verified)
        ↔ ((cleanup ≡ true) × Supported)
  unfolding any_broken all_met
  evaluate-verified_iff id cleanup =
      let known = evaluate-verdict h q facts now fixture id cleanup in
      let good = usable h q facts now fixture && cleanup && all_met in
      let parts = graded-verified good (usable h q facts now fixture && any_broken) in
      (
        λ e.
            let (met_all, sound) = parts.0 (sym known ∙ e) in
            let (more, each) =
              &&-eq_true (usable h q facts now fixture && cleanup) all_met met_all in
            let (profile, clean) = &&-eq_true (usable h q facts now fixture) cleanup more in
            (clean, supported_sound profile each sound),
        λ (clean, s).
            let (met_all, sound) = supported_complete s in
            let profile = s.profile in
            let all_good : good ≡ true = ground arith in known ∙ parts.1 (all_good, sound),
      )

  -- The verdict is VIOLATED if and only if the request has a finite profile and a fact that counts for
  -- a property that it asks of a tuple is false; the cleanup does not matter.
  pub evaluate-violated_iff :
      (id : Str) (cleanup : Bool)
      → ((evaluate h q facts now fixture id cleanup).verdict ≡ violated) ↔ Contradicted
  unfolding any_broken all_met
  evaluate-violated_iff id cleanup =
      let known = evaluate-verdict h q facts now fixture id cleanup in
      let parts =
        graded-violated (usable h q facts now fixture && cleanup && all_met)
          (usable h q facts now fixture && any_broken) in
      (λ e. any_broken_iff.0 (parts.0 (sym known ∙ e)), λ c. known ∙ parts.1 (any_broken_iff.1 c))
