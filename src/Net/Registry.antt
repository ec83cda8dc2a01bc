-- ===== src/Net/Registry.antt =====
-- `Registry` of internal/netpolicy/registry.go: objects and how they are named. The rules are in
-- Net/Rules.
use pins.Prelude.{
  ℕ, zero, suc, ◌+◌, ◌/◌, ◌%◌, ◌^◌, Bool, true, false, not, ◌&&◌, ◌||◌, List, [], ◌∷◌, ◌++◌, Option,
  none, some, ltb, ◌==◌, find, if◌then◌else◌,
}
use pins.Go.Text.{Str, codes, text_eq, member, is_empty}
use pins.Net.{
  Ref, ref_eq, Binding, Kind, gateway, network, vpn, service, Object, NetEnv, invalid, unknown,
  stale, conflict, Result, fail, ok, ◌>>=◌, demand, RegistryState,
}
use pins.Net.Objects.{valid_object, clone_object, clone_binding}

unfoldable pub kind_text : Kind → Str
kind_text gateway = codes "network_gateway"
kind_text network = codes "network"
kind_text vpn = codes "vpn"
kind_text service = codes "service"

-- `strconv.FormatUint`, of at most so many digits.
unfoldable pub decimal : ℕ → ℕ → Str
decimal zero n = []
decimal (suc fuel) n =
    let high = decimal fuel (n / 10) in
    if ltb n 10 then (48 + n) ∷ [] else high ++ ((48 + n % 10) ∷ [])

-- `stringPort`; a port is a `uint16`.
unfoldable pub string_port : ℕ → Str
string_port p = decimal 5 p

abbrev pub alias_key : Object → Str
alias_key o = kind_text o.kind ++ (codes ":" ++ o.alias)

abbrev pub endpoint_key : Object → Str
endpoint_key o =
    o.binding.realm
    ++ (codes "|" ++ (o.binding.target ++ (codes "|" ++ string_port o.binding.port)))

abbrev pub is_service : Kind → Bool
is_service service = true
is_service _ = false

unfoldable pub has_net_prefix : Str → Bool
has_net_prefix (a ∷ b ∷ c ∷ d ∷ _) = text_eq (a ∷ b ∷ c ∷ d ∷ []) (codes "net_")
has_net_prefix _ = false

module _ (env : NetEnv) where
  -- The loop of `validateObjects`, with the three maps; it also clones each object in its place.
  unfoldable pub validate_loop : List Str → List Str → List Str → List Object → Result (List Object)
  validate_loop refs aliases endpoints [] = ok []
  validate_loop refs aliases endpoints (object ∷ rest) =
      let o = clone_object env object in
      let serves = is_service o.kind in
      let more =
        validate_loop (o.ref.id ∷ refs) (alias_key o ∷ aliases)
          (if serves then endpoint_key o ∷ endpoints else endpoints) rest in
      demand
        (valid_object env o
          && has_net_prefix o.ref.id
          && not (o.ref.revision == 0)
          && not (member o.ref.id refs))
        invalid
        (demand (not (member (alias_key o) aliases)) conflict (
          demand (not (serves && member (endpoint_key o) endpoints)) conflict
            (more >>= λ os. ok (o ∷ os))))

  -- `validateObjects`
  unfoldable pub validate_objects : List Object → Result (List Object)
  validate_objects objects = validate_loop [] [] [] objects

  unfoldable pub kind_eq : Kind → Kind → Bool
  kind_eq a b = text_eq (kind_text a) (kind_text b)

  unfoldable pub is_named : Kind → Str → Object → Bool
  is_named kind name o = kind_eq o.kind kind && (text_eq o.alias name || text_eq o.ref.id name)

  abbrev cloned : Option Object → Result Object
  cloned none = fail unknown
  cloned (some o) = ok (clone_object env o)

  -- `find`
  unfoldable pub find_object : List Object → Kind → Str → Result Object
  find_object objects kind name = cloned (find (is_named kind name) objects)

  -- A round of the loop of `bindRefs`: the revision that a reference gets.
  unfoldable pub bind_ref : List Object → Kind → Ref → Result Ref
  bind_ref objects kind r =
      if is_empty r.id
      then ok r
      else find_object objects kind r.id >>= λ o.
          demand (r.revision == 0 || r.revision == o.ref.revision) stale (ok o.ref)

  -- `bindRefs`
  unfoldable pub bind_refs : List Object → Binding → Result Binding
  bind_refs objects b = bind_ref objects gateway b.gateway >>= λ g.
      bind_ref objects vpn b.vpn >>= λ v. bind_ref objects network b.source >>= λ s.
      bind_ref objects service b.control >>= λ c.
      ok (record b { gateway = g; vpn = v; source = s; control = c })

  abbrev fresh_ref : Ref → Bool
  fresh_ref r = is_empty r.id && r.revision == 0

  -- The function that `Create` passes to `mutate`; `id` is what `NewID("net")` gives.
  unfoldable pub create_body : Str → Object → RegistryState → Result (RegistryState × Object)
  create_body id object s =
      let o = clone_object env object in
      demand (fresh_ref o.ref) invalid (
        bind_refs s.objects o.binding >>= λ b.
        let made = record o { ref = record { id = id; revision = 1 }; binding = b } in
        ok (record s { objects = s.objects ++ (made ∷ []) }, clone_object env made))

  -- The loop of `change`: `before` are the objects that it passed.
  unfoldable pub change_loop :
      List Object → Kind → Str → (Object → Object) → List Object → Result (List Object × Object)
  change_loop before kind name change [] = fail unknown
  change_loop before kind name change (o ∷ after) =
      let later = change_loop (before ++ (o ∷ [])) kind name change after in
      let changed = change o in
      if is_named kind name o
      then (bind_refs (before ++ (changed ∷ after)) changed.binding >>= λ b.
          let final = record changed { binding = b } in
          ok (before ++ (final ∷ after), clone_object env final))
      else later

  unfoldable pub change_body :
      Kind → Str → (Object → Object) → RegistryState → Result (RegistryState × Object)
  change_body kind name change s = change_loop [] kind name change s.objects >>= λ (objects, o).
      ok (record s { objects = objects }, o)

  -- `Rename` and `Rebind`
  abbrev pub with_alias : Str → Object → Object
  with_alias alias o = record o { alias = alias }

  abbrev pub with_binding : Binding → Object → Object
  with_binding b o = record o {
    binding = clone_binding env b;
    ref = record (o.ref) { revision = (o.ref.revision + 1) % 2 ^ 64 };
  }

  unfoldable pub rename_body : Kind → Str → Str → RegistryState → Result (RegistryState × Object)
  rename_body kind name alias s = change_body kind name (with_alias alias) s

  unfoldable pub rebind_body :
      Kind → Str → Binding → RegistryState → Result (RegistryState × Object)
  rebind_body kind name b s = change_body kind name (with_binding b) s

  -- `ResolveRef`, on the objects that were loaded.
  unfoldable pub resolve_ref : List Object → Ref → Result Object
  resolve_ref [] r = fail unknown
  resolve_ref (o ∷ rest) r =
      let later = resolve_ref rest r in
      if text_eq o.ref.id r.id
      then demand (ref_eq o.ref r) stale (ok (clone_object env o))
      else later
