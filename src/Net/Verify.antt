-- ===== src/Net/Verify.antt =====
-- `Evaluate` of internal/netpolicy/verify.go.
pub mod Exact
pub mod Meaning
use pins.Prelude.{
  ℕ, ◌≡◌, refl, Bool, true, false, not, ◌&&◌, ◌||◌, List, [], ◌∷◌, ◌++◌, Option, none, some, ◌==◌,
  any, if◌then◌else◌,
}
use pins.Go.Text.{Str, codes, text_eq, texts_eq, member, is_empty}
use pins.Go.Map.{lookup}
use pins.Lease.Types.{Time}
use pins.Net.{
  no_ref, Binding, no_binding, Tuple, NetEnv, ObservationRequest, Fact, Verdict, verified, violated,
  unverified, ResultState, missing, contradicted, pass, PropertyResult, Assessment, scope_eq,
}
use pins.Net.Evidence.{valid_fact}

unfoldable pub when : Bool → List Str → List Str
when true names = names
when false names = []

-- `Properties`
unfoldable pub properties : Str → Binding → List Str
properties operation b =
    if text_eq operation (codes "gateway")
    then codes "gateway.binding"
      ∷ codes "gateway.interface_binding"
      ∷ codes "gateway.reader"
      ∷ codes "gateway.policy_scope"
      ∷ []
    else if text_eq operation (codes "vpn")
    then (codes "vpn.binding"
        ∷ codes "vpn.peer_binding"
        ∷ codes "vpn.session_freshness"
        ∷ codes "vpn.route_ownership"
        ∷ [])
      ++ (when b.require_path (codes "vpn.path_selection" ∷ [])
          ++ when b.fail_closed (codes "vpn.fail_closed_guard" ∷ []))
    else []

abbrev pub has_profile : ObservationRequest → Bool
has_profile q = text_eq q.operation (codes "gateway") || text_eq q.operation (codes "vpn")

-- The binding that `profileValid` builds.
abbrev pub profile_binding : ObservationRequest → Binding
profile_binding q = record no_binding {
  require_path = member (codes "vpn.path_selection") q.required;
  fail_closed = member (codes "vpn.fail_closed_guard") q.required;
}

-- `profileValid`
unfoldable pub profile_valid : ObservationRequest → Bool
profile_valid q =
    not (has_profile q)
    || (texts_eq q.required (properties q.operation (profile_binding q)) && is_empty q.tuples)

-- `if a.Verdict != Violated { a.Verdict = Unverified }`
unfoldable pub demote : Verdict → Verdict
demote violated = violated
demote _ = unverified

-- What the loops change of the assessment.
pub record Progress : Type 0 where
  pub verdict : Verdict
  pub properties : List PropertyResult
  pub missing : List Str
  pub evidence : List Fact

unfoldable pub fail_with : Str → Progress → Progress
fail_with what p = record p { missing = p.missing ++ (what ∷ []); verdict = demote p.verdict }

-- The state of a property after a fact with this value.
unfoldable pub next_state : Bool → ResultState → ResultState
next_state false state = contradicted
next_state true contradicted = contradicted
next_state true _ = pass

unfoldable pub next_verdict : Bool → Verdict → Verdict
next_verdict false v = violated
next_verdict true v = v

unfoldable pub mode_direct : Option Tuple → Bool
mode_direct none = true
mode_direct (some t) = text_eq t.mode (codes "direct")

abbrev pub zero_tuple : Tuple
zero_tuple = record {
  source = no_ref;
  endpoint = no_ref;
  realm = [];
  family = [];
  transport = [];
  port = 0;
  mode = [];
}

module _ (h : NetEnv) (q : ObservationRequest) (facts : List Fact) (now : Time)
    (fixture : Bool) where
  -- The guards of the loop over the facts.
  unfoldable pub counts : Option Tuple → Str → Fact → Bool
  counts scoped property f =
      text_eq f.property property
      && valid_fact h f q now fixture
      && scope_eq f.tuple scoped
      && mode_direct f.tuple

  unfoldable pub take_fact : Fact → PropertyResult → Progress → PropertyResult × Progress
  take_fact f r p = (
    record r {
      state = next_state f.value r.state;
      evidence = r.evidence ++ (f.id ∷ []);
      assurance = r.assurance ++ (f.assurance ∷ []);
    },
    record p { evidence = p.evidence ++ (f ∷ []); verdict = next_verdict f.value p.verdict },
  )

  unfoldable pub over_facts :
      Option Tuple → Str → List Fact → PropertyResult → Progress → PropertyResult × Progress
  over_facts scoped property [] r p = (r, p)
  over_facts scoped property (f ∷ fs) r p = elim (counts scoped property f) [
    | false ↦ over_facts scoped property fs r p
    | true ↦ let (r', p') = take_fact f r p in over_facts scoped property fs r' p'
  ]

  unfoldable pub close_property : Str → PropertyResult → Progress → Progress
  close_property property r p = elim (r.state) [
    | missing ↦ let p' = fail_with property p in record p' { properties = p.properties ++ (r ∷ []) }
    | contradicted ↦ record p { properties = p.properties ++ (r ∷ []) }
    | pass ↦ record p { properties = p.properties ++ (r ∷ []) }
  ]

  unfoldable pub check_property : Option Tuple → Str → Progress → Progress
  check_property scoped property p =
      let (r, p') =
        over_facts scoped property facts
          (record {
            property = property;
            tuple = scoped;
            state = missing;
            evidence = [];
            assurance = [];
          })
          p in
      close_property property r p'

  unfoldable pub over_properties : Option Tuple → List Str → Progress → Progress
  over_properties scoped [] p = p
  over_properties scoped (property ∷ more) p =
      over_properties scoped more (check_property scoped property p)

  -- `scoped`
  unfoldable pub scope_of : Tuple → Option Tuple
  scope_of t = if is_empty q.tuples then none else some t

  -- `required`
  unfoldable pub required_of : Tuple → List Str
  required_of t =
      if is_empty q.tuple_required
      then q.required
      else elim (lookup q.tuple_required (h.hash_tuple t)) [ none ↦ [] | some names ↦ names ]

  unfoldable pub check_scope : Tuple → Progress → Progress
  check_scope t p =
      if not (is_empty q.tuple_required) && is_empty (required_of t)
      then fail_with (codes "tuple_property_scope") p
      else p

  unfoldable pub check_tuple : Tuple → Progress → Progress
  check_tuple t p = over_properties (scope_of t) (required_of t) (check_scope t p)

  unfoldable pub over_tuples : List Tuple → Progress → Progress
  over_tuples [] p = p
  over_tuples (t ∷ ts) p = over_tuples ts (check_tuple t p)

  -- `tuples`
  unfoldable pub tuples_of : List Tuple
  tuples_of = if is_empty q.tuples then zero_tuple ∷ [] else q.tuples

  unfoldable pub finish : Bool → Progress → Progress
  finish cleanup p = if cleanup then p else fail_with (codes "cleanup") p

  abbrev pub start : Progress
  start = record { verdict = verified; properties = []; missing = []; evidence = [] }

  -- The body, once there is a finite profile, or as it ends where there is none.
  unfoldable pub outcome : Bool → Progress
  outcome cleanup =
      if is_empty q.required || not (profile_valid q)
      then record {
        verdict = unverified;
        properties = [];
        missing = codes "finite_profile" ∷ [];
        evidence = [];
      }
      else finish cleanup (over_tuples tuples_of start)

  abbrev pub excluded : List Str
  excluded =
      (codes "unrequested_objects"
        ∷ codes "unrequested_families_transports_modes"
        ∷ codes "universal_network_health"
        ∷ [])
      ++ when (has_profile q)
          (codes "attached_access_policies" ∷ codes "end_to_end_service_health" ∷ [])

  -- `Evaluate`; `id` is what `NewID("nver")` gives.
  unfoldable pub evaluate : Str → Bool → Assessment
  evaluate id cleanup =
      let p = outcome cleanup in
      record {
        id = id;
        context = record { source = []; target = []; vpn = [] };
        execution_grant_id = [];
        verdict = p.verdict;
        request = q;
        properties = p.properties;
        missing = p.missing;
        excluded = excluded;
        evidence = p.evidence;
        created_at = now;
        cleanup = cleanup;
        synthetic = fixture;
      }
