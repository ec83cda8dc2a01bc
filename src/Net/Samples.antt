-- ===== src/Net/Samples.antt =====
-- Small assessments of a gateway.
use mathlib.Core.List.{Memᴰ}
use pins.Prelude.{◌*◌, ◌≡◌, ◌↔◌, refl, Bool, true, false, List, [], ◌∷◌, none, some, any, all}
use pins.Go.Text.{Str, codes, text_eq, texts_eq, member}
use pins.Go.Map.{lookup}
use pins.Go.Sort.{less, insert_by, sort_by}
use pins.Lease.Types.{Time, minute}
use pins.Net.{
  Ref, no_ref, no_binding, NetEnv, ObservationRequest, Fact, Verdict, verified, violated,
  unverified, ref_eq, tuple_eq, scope_eq,
}
use pins.Net.Evidence.{same_order, window_ok, observer_ok, assurance_ok, same_refs, valid_fact}
use pins.Net.Verify.{
  zero_tuple, when, properties, profile_valid, demote, fail_with, next_state, next_verdict,
  mode_direct, counts, take_fact, over_facts, close_property, check_property, over_properties,
  scope_of, required_of, check_scope, check_tuple, tuples_of, over_tuples, finish, outcome,
  evaluate,
}
use pins.Net.Verify.Meaning.{
  Asked, Supported, Contradicted, evaluate-verified_iff, evaluate-violated_iff,
}
use pins.Net.Fresh.{Fresh, verified-Fresh}

abbrev hashes : NetEnv
hashes = record {
  hash_ref = λ r. r.id;
  hash_tuple = λ t. t.family;
  hash_chain = λ c. c.chain;
  hash_realm = λ r name. name;
  parse_addr = λ _. some true;
}

abbrev home : Ref
home = record { id = codes "net_1"; revision = 1 }

abbrev lan : Ref
lan = record { id = codes "net_2"; revision = 3 }

abbrev request : ObservationRequest
request = record {
  operation = codes "gateway";
  target = home;
  source = no_ref;
  objects = home ∷ lan ∷ [];
  policies = [];
  tuples = [];
  required = properties (codes "gateway") no_binding;
  tuple_required = [];
  metadata_digest = codes "m";
}

abbrev fact : Str → Bool → Fact
fact property value = record {
  id = codes "ev";
  property = property;
  target = home;
  tuple = none;
  value = value;
  scope = lan ∷ home ∷ [];
  policies = [];
  observed_at = 100 * minute;
  valid_until = 110 * minute;
  window_start = 0;
  window_end = 0;
  assurance = codes "runtime_validated";
  runtime_binding = [];
  observer_windows = [];
  historical_assessment = [];
  validated = true;
}

abbrev facts : Bool → List Fact
facts reader =
    fact (codes "gateway.binding") true
    ∷ fact (codes "gateway.interface_binding") true
    ∷ fact (codes "gateway.reader") reader
    ∷ fact (codes "gateway.policy_scope") true
    ∷ []

abbrev verdict_of : Time → List Fact → Bool → Verdict
verdict_of now given cleanup =
    (evaluate hashes request given now false (codes "nver_1") cleanup).verdict

all_true : verdict_of (105 * minute) (facts true) true ≡ verified
unfolding when properties profile_valid demote fail_with next_state next_verdict mode_direct counts
    take_fact over_facts close_property check_property over_properties scope_of required_of
    check_scope check_tuple tuples_of over_tuples finish outcome evaluate valid_fact same_refs
    same_order window_ok observer_ok assurance_ok ref_eq tuple_eq scope_eq less insert_by sort_by
    text_eq texts_eq member lookup any all
all_true = refl

one_false : verdict_of (105 * minute) (facts false) false ≡ violated
unfolding when properties profile_valid demote fail_with next_state next_verdict mode_direct counts
    take_fact over_facts close_property check_property over_properties scope_of required_of
    check_scope check_tuple tuples_of over_tuples finish outcome evaluate valid_fact same_refs
    same_order window_ok observer_ok assurance_ok ref_eq tuple_eq scope_eq less insert_by sort_by
    text_eq texts_eq member lookup any all
one_false = refl

too_late : verdict_of (111 * minute) (facts true) true ≡ unverified
unfolding when properties profile_valid demote fail_with next_state next_verdict mode_direct counts
    take_fact over_facts close_property check_property over_properties scope_of required_of
    check_scope check_tuple tuples_of over_tuples finish outcome evaluate valid_fact same_refs
    same_order window_ok observer_ok assurance_ok ref_eq tuple_eq scope_eq less insert_by sort_by
    text_eq texts_eq member lookup any all
too_late = refl

evaluate-verified_iff_example :
    (verdict_of (105 * minute) (facts true) true ≡ verified)
    ↔ ((true ≡ true) × Supported hashes request (facts true) (105 * minute) false)
evaluate-verified_iff_example =
    evaluate-verified_iff hashes request (facts true) (105 * minute) false (codes "nver_1") true

evaluate-violated_iff_example :
    (verdict_of (105 * minute) (facts false) false ≡ violated)
    ↔ Contradicted hashes request (facts false) (105 * minute) false
evaluate-violated_iff_example =
    evaluate-violated_iff hashes request (facts false) (105 * minute) false (codes "nver_1") false

asked : Asked hashes request (facts true) (105 * minute) false zero_tuple (codes "gateway.binding")
unfolding tuples_of required_of properties text_eq
asked = (Memᴰ.head refl, Memᴰ.head refl)

verified-Fresh_example :
    (f : Fact) × Memᴰ f (facts true)
    × (f.property ≡ codes "gateway.binding")
    × Fresh request (105 * minute) false f
    × (f.value ≡ true)
verified-Fresh_example =
    verified-Fresh hashes request (facts true) (105 * minute) false (codes "nver_1") true zero_tuple
      (codes "gateway.binding") all_true asked
