-- ===== src/Net/Trials.antt =====
-- A registry with a network, a service and a rule.
use pins.Prelude.{◌≡◌, refl, subst, true, false, [], ◌∷◌, none, some, any, all, find}
use pins.Go.Text.{codes, text_eq, member}
use pins.Go.Sort.{less, insert_by, sort_by}
use pins.Net.{
  no_ref, ref_eq, no_binding, network, service, Object, Tuple, tuple_eq, Rule, ResolvedTuple,
  NetEnv, RegistryState, ok, fail, stale, conflict,
}
use pins.Net.Objects.{
  name_ok, native_ok, open_wrt_name_ok, all_new, chain_key, chain_ok, set_ok, open_wrt_ok,
  valid_open_wrt, valid_object, clone_open_wrt, clone_binding, clone_object,
}
use pins.Net.Registry.{
  kind_text, decimal, string_port, has_net_prefix, validate_loop, validate_objects, kind_eq,
  is_named, find_object, bind_ref, bind_refs, create_body, change_loop, change_body, rebind_body,
  resolve_ref,
}
use pins.Net.Rules.{
  new_tuples, all_tuples, no_overlap, family_fits, canonical_found, canonical_tuple,
  normalize_tuples, normalize_path, normalize_rule, place_rule, put_rule, match_found, match_tuples,
  match_rules, only, resolve_tuple, resolve_loop, resolve_tuples,
}
use pins.Net.Mutate.{
  File, absent, holds, Attempt, replaced, write_state, load, mutated, locked, mutate, create,
  put_policy, creates, puts, Reached, start, next,
}
use pins.Net.Resolve.{Each, Resolves, resolve_tuples-Resolves}
use pins.Net.Rebind.{rebind-stale}
use pins.Net.Invariant.{WellFormed, Reached-WellFormed}

abbrev env : NetEnv
env = record {
  hash_ref = λ r. r.id;
  hash_tuple = λ t. t.family;
  hash_chain = λ c. c.chain;
  hash_realm = λ r name. name;
  parse_addr = λ _. some true;
}

abbrev fine : Attempt
fine = record { directory = true; lock = none; writing = replaced }

abbrev lan : Object
lan = record { ref = no_ref; kind = network; alias = codes "lan"; binding = no_binding }

abbrev resolver : Object
resolver = record {
  ref = no_ref;
  kind = service;
  alias = codes "dns";
  binding = record no_binding { target = codes "10.0.0.1"; port = 53; realm = codes "home" };
}

abbrev tuple : Tuple
tuple = record {
  source = record { id = codes "lan"; revision = 0 };
  endpoint = record { id = codes "dns"; revision = 0 };
  realm = codes "home";
  family = codes "ipv4";
  transport = codes "udp";
  port = 53;
  mode = codes "direct";
}

abbrev rule : Rule
rule = record {
  ref = no_ref;
  alias = codes "lan-dns";
  decision = codes "allow";
  tuples = tuple ∷ [];
  path = no_ref;
  fail_closed = false;
  filtering = true;
}

abbrev first : File
first = (create env fine absent (codes "net_1") lan).0

abbrev second : File
second = (create env fine first (codes "net_2") resolver).0

abbrev third : File
third = (put_policy env fine second (codes "npol_1") rule).0

abbrev lan_made : Object
lan_made = record lan { ref = record { id = codes "net_1"; revision = 1 } }

abbrev resolver_made : Object
resolver_made = record resolver { ref = record { id = codes "net_2"; revision = 1 } }

abbrev canonical : Tuple
canonical = record tuple {
  source = lan_made.ref;
  endpoint = resolver_made.ref;
  realm = codes "realm_home";
}

abbrev rule_made : Rule
rule_made = record rule {
  ref = record { id = codes "npol_1"; revision = 1 };
  tuples = canonical ∷ [];
}

abbrev registry : RegistryState
registry = record { schema = 1; objects = lan_made ∷ resolver_made ∷ []; policies = rule_made ∷ [] }

abbrev answer : ResolvedTuple
answer = record {
  tuple = canonical;
  policy = rule_made.ref;
  decision = codes "allow";
  path = no_ref;
  fail_closed = false;
  filtering = true;
}

abbrev rebound : Object
rebound = record lan_made { ref = record { id = codes "net_1"; revision = 2 } }

-- The file that the three calls make, what a tuple resolves to, a rule that has a tuple twice, and a new binding.
runs :
    (third ≡ holds registry)
    × (load env (holds registry) ≡ ok registry)
    × (resolve_tuples env registry (tuple ∷ []) ≡ ok (answer ∷ []))
    × (put_rule env
          (codes "npol_2")
          (record rule { alias = codes "other"; decision = codes "deny" })
          registry
        ≡ fail conflict)
    × (mutated env (holds registry) (rebind_body env network (codes "lan") no_binding)
        ≡ ok (record registry { objects = rebound ∷ resolver_made ∷ [] }, rebound))
    × (find (is_named env network (codes "lan")) registry.objects ≡ some lan_made)
unfolding name_ok native_ok open_wrt_name_ok all_new chain_key chain_ok set_ok open_wrt_ok
    valid_open_wrt valid_object clone_open_wrt clone_binding clone_object kind_text decimal
    string_port has_net_prefix validate_loop validate_objects kind_eq is_named find_object bind_ref
    bind_refs create_body change_loop change_body rebind_body new_tuples all_tuples no_overlap
    family_fits canonical_found canonical_tuple normalize_tuples normalize_path normalize_rule
    place_rule put_rule match_found match_tuples match_rules only resolve_tuple resolve_loop
    resolve_tuples write_state load mutated locked mutate create put_policy ref_eq tuple_eq text_eq
    member any all find less insert_by sort_by
runs = (refl, refl, refl, refl, refl, refl)

Reached-WellFormed_example : WellFormed env registry
Reached-WellFormed_example = Reached-WellFormed env registry (
    subst (Reached env) runs.0 (
      next
        (next (next start (creates fine (codes "net_1") lan))
          (creates fine (codes "net_2") resolver))
        (puts fine (codes "npol_1") rule)))

resolve_tuples-Resolves_example : Each (Resolves env registry) (tuple ∷ []) (answer ∷ [])
resolve_tuples-Resolves_example =
    resolve_tuples-Resolves env registry (tuple ∷ []) (answer ∷ []) runs.2

rebind-stale_example : resolve_ref env (rebound ∷ resolver_made ∷ []) lan_made.ref ≡ fail stale
rebind-stale_example =
    rebind-stale env (holds registry) network (codes "lan") no_binding registry
      (record registry { objects = rebound ∷ resolver_made ∷ [] }) lan_made rebound runs.1 runs.5
      runs.4
