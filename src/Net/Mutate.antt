-- ===== src/Net/Mutate.antt =====
-- `load`, `mutate` and the calls that use it of internal/netpolicy/registry.go and policy.go: the file
-- of the registry, and what a call makes of it.
use pins.Prelude.{Bool, ◌&&◌, if◌then◌else◌, List, [], ◌∷◌, ◌++◌, Option, none, some, ◌==◌}
use pins.Go.Text.{Str, is_empty}
use pins.Net.{
  Binding, Kind, Object, Rule, NetEnv, NetError, invalid, unsafe, Result, fail, ok, ◌>>=◌, demand,
  RegistryState,
}
use pins.Net.Registry.{validate_objects, bind_refs, create_body, rename_body, rebind_body}
use pins.Net.Rules.{put_rule}

-- What `readSafe` finds.
pub data File : Type 0 where
  absent : File
  unreadable : NetError → File
  holds : RegistryState → File

-- How `atomicJSON` ends: nothing is written; the file is replaced; or it is replaced, but the
-- directory is not synced, which is an error.
pub data Writing : Type 0 where
  unwritten replaced unsynced : Writing

-- What a call meets: whether the directory is as it must be, the error of the lock, and the writing.
pub record Attempt : Type 0 where
  pub directory : Bool
  pub lock : Option NetError
  pub writing : Writing

unfoldable pub write_state {ℓ} : {T : Type ℓ} → Writing → File → RegistryState → T → File × Result T
write_state unwritten file s a = (file, fail unsafe)
write_state replaced file s a = (holds s, ok a)
write_state unsynced file s a = (holds s, fail unsafe)

module _ (env : NetEnv) where
  -- `load`
  unfoldable pub load : File → Result RegistryState
  load absent = ok (record { schema = 1; objects = []; policies = [] })
  load (unreadable e) = fail e
  load (holds s) =
      demand (s.schema == 1) invalid
        (validate_objects env s.objects >>= λ objects. ok (record s { objects = objects }))

  -- What `mutate` writes, and what the call gives.
  unfoldable pub mutated {ℓ} :
      {T : Type ℓ}
      → File
      → (RegistryState → Result (RegistryState × T))
      → Result (RegistryState × T)
  mutated file body = load file >>= λ s. body s >>= λ (s', a).
      validate_objects env s'.objects >>= λ objects. ok (record s' { objects = objects }, a)

  unfoldable pub locked {ℓ} :
      {T : Type ℓ} → Attempt → File → Result (RegistryState × T) → File × Result T
  locked a file (fail e) = (file, fail e)
  locked a file (ok (s, value)) = write_state a.writing file s value

  -- `mutate`
  unfoldable pub mutate {ℓ} :
      {T : Type ℓ} → Attempt → File → (RegistryState → Result (RegistryState × T)) → File × Result T
  mutate a file body =
      if a.directory
      then elim (a.lock) [ some e ↦ (file, fail e) | none ↦ locked a file (mutated file body) ]
      else (file, fail unsafe)

  -- `Create`, `Rename`, `Rebind` and `PutPolicy`
  unfoldable pub create : Attempt → File → Str → Object → File × Result Object
  create a file id o = mutate a file (create_body env id o)

  unfoldable pub rename : Attempt → File → Kind → Str → Str → File × Result Object
  rename a file kind name alias = mutate a file (rename_body env kind name alias)

  unfoldable pub rebind : Attempt → File → Kind → Str → Binding → File × Result Object
  rebind a file kind name b = mutate a file (rebind_body env kind name b)

  unfoldable pub put_policy : Attempt → File → Str → Rule → File × Result Rule
  put_policy a file id rule = mutate a file (put_rule env id rule)

  -- The first loop of `Import`: the new objects, with the identifiers that `NewID("net")` gives.
  unfoldable pub import_objects : List (Str × Object) → Result (List Object)
  import_objects [] = ok []
  import_objects ((id, o) ∷ rest) =
      demand (is_empty o.ref.id && o.ref.revision == 0) invalid (
        import_objects rest >>= λ os. ok (record o { ref = record { id = id; revision = 1 } } ∷ os))

  -- The second loop: `before` are the objects that it passed, with the old ones.
  unfoldable pub bind_objects : List Object → List Object → Result (List Object)
  bind_objects before [] = ok before
  bind_objects before (o ∷ after) = bind_refs env (before ++ (o ∷ after)) o.binding >>= λ b.
      bind_objects (before ++ (record o { binding = b } ∷ [])) after

  -- The third.
  unfoldable pub import_rules : List (Str × Rule) → RegistryState → Result RegistryState
  import_rules [] s = ok s
  import_rules ((id, rule) ∷ rest) s = put_rule env id rule s >>= λ (s', _). import_rules rest s'

  unfoldable pub import_body :
      List (Str × Object) → List (Str × Rule) → RegistryState → Result (RegistryState × Unit {0})
  import_body objects rules s = import_objects objects >>= λ added.
      bind_objects s.objects added >>= λ all_objects.
      import_rules rules (record s { objects = all_objects }) >>= λ s'. ok (s', tt)

  -- `Import`, of an input that can be decoded.
  unfoldable pub import_all :
      Attempt → File → List (Str × Object) → List (Str × Rule) → File × Result (Unit {0})
  import_all a file objects rules = mutate a file (import_body objects rules)

  -- A call that changes the registry, from the file before it to the file after it.
  pub data Step (file : File) : File → Type 0 where
    creates : (a : Attempt) (id : Str) (o : Object) → Step file (create a file id o).0
    renames :
        (a : Attempt) (kind : Kind) (name alias : Str) → Step file (rename a file kind name alias).0
    rebinds :
        (a : Attempt) (kind : Kind) (name : Str) (b : Binding)
        → Step file (rebind a file kind name b).0
    puts : (a : Attempt) (id : Str) (rule : Rule) → Step file (put_policy a file id rule).0
    imports :
        (a : Attempt) (objects : List (Str × Object)) (rules : List (Str × Rule))
        → Step file (import_all a file objects rules).0

  -- The files that calls make of a file that is not there.
  pub data Reached : File → Type 0 where
    start : Reached absent
    next : {file after : File} → Reached file → Step file after → Reached after
