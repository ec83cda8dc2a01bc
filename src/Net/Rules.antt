-- ===== src/Net/Rules.antt =====
-- internal/netpolicy/policy.go: the rules of the registry and how tuples resolve to them.
use pins.Prelude.{
  ◌+◌, ◌%◌, ◌^◌, Bool, true, false, not, ◌&&◌, ◌||◌, List, [], ◌∷◌, ◌++◌, none, some, leb, ◌==◌,
  any, length, if◌then◌else◌,
}
use pins.Go.Text.{Str, codes, text_eq, is_empty}
use pins.Net.{
  Ref, ref_eq, Kind, network, vpn, service, Object, Tuple, tuple_eq, Rule, ResolvedTuple, NetEnv,
  invalid, stale, conflict, Result, fail, ok, ◌>>=◌, demand, RegistryState,
}
use pins.Net.Objects.{name_ok}
use pins.Net.Registry.{find_object}

abbrev pub one_of : Str → Str → Str → Bool
one_of a b s = text_eq s a || text_eq s b

-- A reference with a revision is the one that was found.
abbrev pub current : Ref → Ref → Bool
current r found = r.revision == 0 || ref_eq r found

-- The map `seen` of tuples: no tuple occurs twice.
unfoldable pub new_tuples : List Tuple → List Tuple → Bool
new_tuples seen [] = true
new_tuples seen (t ∷ ts) = not (any (tuple_eq t) seen) && new_tuples (t ∷ seen) ts

-- The tuples of the rules in the order of the loops of `overlap`.
unfoldable pub all_tuples : List Rule → List Tuple
all_tuples [] = []
all_tuples (r ∷ rs) = r.tuples ++ all_tuples rs

-- `overlap`, with `true` for no error.
unfoldable pub no_overlap : List Rule → Bool
no_overlap rules = new_tuples [] (all_tuples rules)

module _ (env : NetEnv) where
  unfoldable pub family_fits : Str → Str → Bool
  family_fits target family = elim (env.parse_addr target) [
    | none ↦ false
    | some true ↦ text_eq family (codes "ipv4")
    | some false ↦ not (text_eq family (codes "ipv4"))
  ]

  -- `canonicalTuple`, once the two objects are found.
  unfoldable pub canonical_found : Tuple → Object → Object → Result Tuple
  canonical_found t s e =
      let realm = codes "realm_" ++ env.hash_realm e.ref e.binding.realm in
      demand (current t.source s.ref && current t.endpoint e.ref) stale (
        demand
          (one_of (codes "ipv4") (codes "ipv6") t.family
            && one_of (codes "udp") (codes "tcp") t.transport
            && one_of (codes "direct") (codes "mediated") t.mode
            && t.port == e.binding.port)
          invalid
          (demand (family_fits e.binding.target t.family) invalid (
            demand (text_eq t.realm e.binding.realm || text_eq t.realm realm) invalid
              (ok (record t { source = s.ref; endpoint = e.ref; realm = realm })))))

  unfoldable pub canonical_tuple : List Object → Tuple → Result Tuple
  canonical_tuple objects t = find_object env objects network t.source.id >>= λ s.
      find_object env objects service t.endpoint.id >>= λ e. canonical_found t s e

  -- The loop of `normalizeRule`.
  unfoldable pub normalize_tuples : List Object → List Tuple → List Tuple → Result (List Tuple)
  normalize_tuples objects seen [] = ok []
  normalize_tuples objects seen (t ∷ ts) = canonical_tuple objects t >>= λ c.
      demand (not (any (tuple_eq c) seen)) conflict
        (normalize_tuples objects (c ∷ seen) ts >>= λ cs. ok (c ∷ cs))

  unfoldable pub normalize_path : List Object → Ref → Result Ref
  normalize_path objects path =
      if is_empty path.id
      then ok path
      else (find_object env objects vpn path.id >>= λ o.
          demand (current path o.ref) stale (ok o.ref))

  -- `normalizeRule`
  unfoldable pub normalize_rule : List Object → Rule → Result Rule
  normalize_rule objects rule =
      demand
        (name_ok rule.alias
          && one_of (codes "allow") (codes "deny") rule.decision
          && not (is_empty rule.tuples)
          && leb (length rule.tuples) 256)
        invalid
        (normalize_tuples objects [] rule.tuples >>= λ tuples.
          normalize_path objects rule.path >>= λ path.
          ok (record rule { tuples = tuples; path = path }))

  -- The loop of `putRule`: the rule takes the place of the one with its alias, or the last place.
  unfoldable pub place_rule : Str → Rule → List Rule → List Rule × Rule
  place_rule alias rule [] = (rule ∷ [], rule)
  place_rule alias rule (old ∷ rest) =
      let (rest', placed) = place_rule alias rule rest in
      let next = record rule {
        ref = record { id = old.ref.id; revision = (old.ref.revision + 1) % 2 ^ 64 };
      } in
      if text_eq old.alias alias then (next ∷ rest, next) else (old ∷ rest', placed)

  -- `putRule`; `id` is what `NewID("npol")` gives.
  unfoldable pub put_rule : Str → Rule → RegistryState → Result (RegistryState × Rule)
  put_rule id rule s = demand (is_empty rule.ref.id && rule.ref.revision == 0) invalid (
      normalize_rule s.objects rule >>= λ normalized.
      let (rules, placed) =
        place_rule rule.alias (record normalized { ref = record { id = id; revision = 1 } })
          s.policies in
      demand (no_overlap rules) conflict (ok (record s { policies = rules }, placed)))

  -- The reference of the object that `find` gives, or the zero reference.
  unfoldable pub found_id : List Object → Kind → Str → Str
  found_id objects kind name = elim (find_object env objects kind name) [
    | fail _ ↦ []
    | ok o ↦ o.ref.id
  ]

  -- A declared tuple that cannot be made canonical, but is the one that is asked for.
  unfoldable pub stale_match : List Object → Tuple → Tuple → Bool
  stale_match objects declared t =
      text_eq (found_id objects network declared.source.id) t.source.id
      && text_eq (found_id objects service declared.endpoint.id) t.endpoint.id
      && text_eq declared.transport t.transport
      && declared.port == t.port
      && text_eq declared.family t.family
      && text_eq declared.mode t.mode

  abbrev pub resolved_by : Rule → Tuple → ResolvedTuple
  resolved_by r t = record {
    tuple = t;
    policy = r.ref;
    decision = r.decision;
    path = r.path;
    fail_closed = r.fail_closed;
    filtering = r.filtering;
  }

  -- A round of the inner loop: the matches of one declared tuple of a rule, none or one.
  unfoldable pub match_found :
      List Object → Tuple → Rule → Tuple → Result Tuple → Result (List ResolvedTuple)
  match_found objects t rule declared (fail _) =
      demand (not (stale_match objects declared t)) stale (ok [])
  match_found objects t rule declared (ok scope) =
      if tuple_eq scope t
      then (normalize_rule objects rule >>= λ r. ok (resolved_by r t ∷ []))
      else ok []

  unfoldable pub match_tuples :
      List Object → Tuple → Rule → List Tuple → Result (List ResolvedTuple)
  match_tuples objects t rule [] = ok []
  match_tuples objects t rule (declared ∷ rest) =
      match_found objects t rule declared (canonical_tuple objects declared) >>= λ found.
      match_tuples objects t rule rest >>= λ more. ok (found ++ more)

  -- The two loops; `count` is the length, and `match` the last.
  unfoldable pub match_rules : List Object → Tuple → List Rule → Result (List ResolvedTuple)
  match_rules objects t [] = ok []
  match_rules objects t (rule ∷ rest) = match_tuples objects t rule rule.tuples >>= λ found.
      match_rules objects t rest >>= λ more. ok (found ++ more)

  -- `if count != 1 { return ErrConflict }`
  unfoldable pub only : List ResolvedTuple → Result ResolvedTuple
  only (found ∷ []) = ok found
  only _ = fail conflict

  unfoldable pub resolve_tuple : RegistryState → Tuple → Result ResolvedTuple
  resolve_tuple s input = canonical_tuple s.objects input >>= λ t.
      match_rules s.objects t s.policies >>= λ found. only found

  unfoldable pub resolve_loop : RegistryState → List Tuple → Result (List ResolvedTuple)
  resolve_loop s [] = ok []
  resolve_loop s (t ∷ ts) = resolve_tuple s t >>= λ r. resolve_loop s ts >>= λ rs. ok (r ∷ rs)

  -- `ResolveTuples`, on the state that was loaded.
  unfoldable pub resolve_tuples : RegistryState → List Tuple → Result (List ResolvedTuple)
  resolve_tuples s tuples =
      demand (not (is_empty tuples) && leb (length tuples) 256) invalid (resolve_loop s tuples)
