-- ===== src/Net/Invariant.antt =====
-- What every call of the registry of internal/netpolicy/registry.go and policy.go keeps.
use pins.Prelude.{
  Pairwise, ◌≡◌, ◌≢◌, refl, subst, Bool, true, false, ◌&&◌, List, [], ◌∷◌, ◌++◌, Option, none, some,
  ◌==◌, All, if◌then◌else◌,
}
use pins.Go.Text.{Str, is_empty}
use pins.Net.{
  Kind, Object, Rule, NetEnv, NetError, unsafe, Result, fail, ok, ok_cases, demand_cases,
  RegistryState,
}
use pins.Net.Objects.{clone_object}
use pins.Net.Registry.{
  validate_objects, create_body, change_loop, change_body, rename_body, rebind_body, bind_refs,
  with_alias, with_binding,
}
use pins.Net.Rules.{all_tuples, no_overlap, new_tuples, normalize_rule, place_rule, put_rule}
use pins.Net.Mutate.{
  File, absent, unreadable, holds, Attempt, unwritten, replaced, unsynced, write_state, load,
  mutated, locked, mutate, create, rename, rebind, put_policy, import_objects, bind_objects,
  import_rules, import_body, import_all, Step, creates, renames, rebinds, puts, imports, Reached,
  start, next,
}
use pins.Net.Distinct.{Apart, Sound, validate_objects-Sound, no_overlap_sound}

-- A registry in which each object is valid, no two objects share an identifier, a name of one kind or
-- an endpoint, and no two rules (and no rule twice) have one tuple.
pub record WellFormed (env : NetEnv) (s : RegistryState) : Type 0 where
  pub objects : All (Sound env) s.objects
  pub apart : Pairwise Apart s.objects
  pub tuples : Pairwise (λ a b. a ≢ b) (all_tuples s.policies)

module _ (env : NetEnv) where
  -- The body of a call leaves rules without a common tuple, if there were none.
  Keeps : {T : Type 0} → (RegistryState → Result (RegistryState × T)) → Type 0
  Keeps {T} body =
      (s after : RegistryState) (a : T)
      → no_overlap s.policies ≡ true
      → body s ≡ ok (after, a)
      → no_overlap after.policies ≡ true

  put_rule-Keeps : (id : Str) (rule : Rule) → Keeps (put_rule env id rule)
  unfolding Keeps put_rule
  put_rule-Keeps id rule s after a h e =
      demand_cases (is_empty rule.ref.id && rule.ref.revision == 0) _ _ e λ _ e1.
        ok_cases (normalize_rule env s.objects rule) _ e1 λ normalized _ e2.
          let placed =
            place_rule env rule.alias (record normalized { ref = record { id = id; revision = 1 } })
              s.policies in
          demand_cases (no_overlap placed.0) _ _ e2 λ free e3.
            let pair : ◌≡◌ {A = RegistryState × Rule} (record s { policies = placed.0 }, placed.1)
                (after, a) =
              cc in
            subst (λ p. no_overlap p.0.policies ≡ true) pair free

  create_body-Keeps : (id : Str) (o : Object) → Keeps (create_body env id o)
  unfolding Keeps create_body
  create_body-Keeps id object s after a h e =
      let o = clone_object env object in
      demand_cases (is_empty o.ref.id && o.ref.revision == 0) _ _ e λ _ e1.
        ok_cases (bind_refs env s.objects o.binding) _ e1 λ b e2 e3.
          let made = record o { ref = record { id = id; revision = 1 }; binding = b } in
          let pair : ◌≡◌ {A = RegistryState × Object}
              (record s { objects = s.objects ++ (made ∷ []) }, clone_object env made) (after, a) =
            cc in
          subst (λ p. no_overlap p.0.policies ≡ true) pair h

  change_body-Keeps :
      (kind : Kind) (name : Str) (change : Object → Object)
      → Keeps (change_body env kind name change)
  unfolding Keeps change_body
  change_body-Keeps kind name change s after a h e =
      ok_cases (change_loop env [] kind name change s.objects) _ e λ (objects, o) _ e1.
        let pair : ◌≡◌ {A = RegistryState × Object} (record s { objects = objects }, o) (after, a) =
          cc in
        subst (λ p. no_overlap p.0.policies ≡ true) pair h

  import_rules_keeps :
      (rules : List (Str × Rule)) (s after : RegistryState)
      → no_overlap s.policies ≡ true
      → import_rules env rules s ≡ ok after
      → no_overlap after.policies ≡ true
  unfolding import_rules Keeps
  import_rules_keeps [] s after h e =
      let same : s ≡ after = cc in subst (λ r. no_overlap r.policies ≡ true) same h
  import_rules_keeps ((id, rule) ∷ rest) s after h e =
      ok_cases (put_rule env id rule s) _ e λ (s', placed) e1 e2.
        import_rules_keeps rest s' after (put_rule-Keeps id rule s s' placed h e1) e2

  import_body-Keeps :
      (objects : List (Str × Object)) (rules : List (Str × Rule))
      → Keeps (import_body env objects rules)
  unfolding Keeps import_body
  import_body-Keeps objects rules s after a h e =
      ok_cases (import_objects env objects) _ e λ added _ e1.
        ok_cases (bind_objects env s.objects added) _ e1 λ bound _ e2.
          ok_cases (import_rules env rules (record s { objects = bound })) _ e2 λ s' e3 e4.
            let pair : ◌≡◌ {A = RegistryState × Unit {0}} (s', tt) (after, a) = cc in
            subst (λ p. no_overlap p.0.policies ≡ true) pair
              (import_rules_keeps rules (record s { objects = bound }) s' h e3)

  -- What stands in the file.
  Kept : File → Type 0
  Kept (holds s) = WellFormed env s × (no_overlap s.policies ≡ true)
  Kept _ = Unit

  load-no_overlap :
      (file : File) {s : RegistryState}
      → Kept file
      → load env file ≡ ok s
      → no_overlap s.policies ≡ true
  unfolding Kept load no_overlap all_tuples new_tuples
  load-no_overlap absent {s} k e =
      let same : record { schema = 1; objects = []; policies = [] } ≡ s = cc in
      subst (λ r. no_overlap r.policies ≡ true) same refl
  load-no_overlap (unreadable error) k e = absurd (cc e)
  load-no_overlap (holds s') {s} k e = demand_cases (s'.schema == 1) _ _ e λ _ e1.
      ok_cases (validate_objects env s'.objects) _ e1 λ os _ e2.
        let same : record s' { objects = os } ≡ s = cc in
        subst (λ r. no_overlap r.policies ≡ true) same k.1

  mutated-Kept :
      {T : Type 0} (file : File) (body : RegistryState → Result (RegistryState × T))
      → Keeps body
      → Kept file
      → (s : RegistryState) (value : T) → mutated env file body ≡ ok (s, value)
      → Kept (holds s)
  unfolding Kept Keeps mutated
  mutated-Kept {T} file body keeps k s value e = ok_cases (load env file) _ e λ before e1 e2.
      ok_cases (body before) _ e2 λ (after, a) e3 e4.
        ok_cases (validate_objects env after.objects) _ e4 λ os e5 e6.
          let free = keeps before after a (load-no_overlap file k e1) e3 in
          let (sound, apart) = validate_objects-Sound env after.objects e5 in
          let pair : ◌≡◌ {A = RegistryState × T} (record after { objects = os }, a) (s, value) =
            cc in
          subst (λ p. Kept (holds p.0)) pair
            (
              record {
                objects = sound;
                apart = apart;
                tuples = no_overlap_sound after.policies free;
              },
              free,
            )

  locked-Kept :
      {T : Type 0} (a : Attempt) (file : File) (r : Result (RegistryState × T))
      → Kept file
      → ((s : RegistryState) (value : T) → r ≡ ok (s, value) → Kept (holds s))
      → Kept (locked env a file r).0
  unfolding locked write_state
  locked-Kept a file (fail e) k later = k
  locked-Kept a file (ok (s, value)) k later =
      elim (a.writing) as (λ w. Kept (write_state w file s value).0) [
        | unwritten ↦ k
        | replaced ↦ later s value refl
        | unsynced ↦ later s value refl
      ]

  attempted-Kept :
      {T : Type 0} (directory : Bool) (lock : Option NetError) (file : File) (r : File × Result T)
      → Kept file
      → Kept r.0
      → Kept
          (if◌then◌else◌ {A = File × Result T} directory
            (elim lock [ some e ↦ (file, fail e) | none ↦ r ])
            (file, fail unsafe)).0
  attempted-Kept false lock file r k k' = k
  attempted-Kept true (some e) file r k k' = k
  attempted-Kept true none file r k k' = k'

  mutate-Kept :
      {T : Type 0} (a : Attempt) (file : File) (body : RegistryState → Result (RegistryState × T))
      → Keeps body
      → Kept file
      → Kept (mutate env a file body).0
  unfolding mutate
  mutate-Kept a file body keeps k =
      attempted-Kept a.directory a.lock file (locked env a file (mutated env file body)) k
        (locked-Kept a file (mutated env file body) k (mutated-Kept file body keeps k))

  Step-Kept : (file after : File) → Step env file after → Kept file → Kept after
  unfolding create rename rebind put_policy import_all rename_body rebind_body
  Step-Kept file after (creates a id o) k =
      mutate-Kept a file (create_body env id o) (create_body-Keeps id o) k
  Step-Kept file after (renames a kind name alias) k =
      mutate-Kept a file (rename_body env kind name alias)
        (change_body-Keeps kind name (with_alias env alias)) k
  Step-Kept file after (rebinds a kind name b) k =
      mutate-Kept a file (rebind_body env kind name b)
        (change_body-Keeps kind name (with_binding env b)) k
  Step-Kept file after (puts a id rule) k =
      mutate-Kept a file (put_rule env id rule) (put_rule-Keeps id rule) k
  Step-Kept file after (imports a objects rules) k =
      mutate-Kept a file (import_body env objects rules) (import_body-Keeps objects rules) k

  reached-Kept : (file : File) → Reached env file → Kept file
  unfolding Kept
  reached-Kept absent start = tt
  reached-Kept after (next {file} r step) = Step-Kept file after step (reached-Kept file r)

-- What any sequence of calls, whatever each meets, makes of a file that is not there is a registry
-- that is well formed.
pub Reached-WellFormed :
    (env : NetEnv) (s : RegistryState) → Reached env (holds s) → WellFormed env s
unfolding Kept
Reached-WellFormed env s r = (reached-Kept env (holds s) r).0
