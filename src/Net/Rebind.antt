-- ===== src/Net/Rebind.antt =====
-- `Rebind` of internal/netpolicy/registry.go, and the references that were given before it.
use pins.Prelude.{
  Pairwise, ℕ, ◌+◌, ◌%◌, ◌^◌, ◌≡◌, ◌≢◌, refl, sym, ap, subst, ◌∙◌, Bool, true, false, not, ◌&&◌,
  List, [], ◌∷◌, ◌++◌, map, append-nil, append_assoc, some, arith, ◌==◌, ==_iff, All, find,
  if◌then◌else◌, Bool-cases, inl, inr,
}
use pins.Go.Text.{Str, text_eq, text_eq_iff, member}
use pins.Net.{
  Ref, ref_eq, Binding, Kind, Object, NetEnv, stale, fail, ok, ok_cases, demand_cases,
  RegistryState,
}
use pins.Net.Objects.{valid_object, clone_object}
use pins.Net.Registry.{
  alias_key, endpoint_key, is_service, has_net_prefix, validate_loop, validate_objects, is_named,
  bind_refs, with_binding, change_loop, change_body, rebind_body, resolve_ref,
}
use pins.Net.Mutate.{File, load, mutated}
use pins.Net.Distinct.{Apart, validate_objects-Sound}

validate_loop_lem :
    (env : NetEnv) (refs aliases endpoints : List Str) (objects : List Object) {os : List Object}
    → validate_loop env refs aliases endpoints objects ≡ ok os
    → os ≡ map (clone_object env) objects
unfolding validate_loop
validate_loop_lem env refs aliases endpoints [] e = cc
validate_loop_lem env refs aliases endpoints (object ∷ rest) e =
    let o = clone_object env object in
    demand_cases
      (valid_object env o
        && has_net_prefix o.ref.id
        && not (o.ref.revision == 0)
        && not (member o.ref.id refs))
      _ _ e
      λ _ e1. demand_cases (not (member (alias_key o) aliases)) _ _ e1 λ _ e2.
        demand_cases (not (is_service o.kind && member (endpoint_key o) endpoints)) _ _ e2 λ _ e3.
          ok_cases
            (validate_loop env (o.ref.id ∷ refs) (alias_key o ∷ aliases)
              (if is_service o.kind then endpoint_key o ∷ endpoints else endpoints) rest)
            _ e3
            λ later e4 e5.
              let same =
                validate_loop_lem env (o.ref.id ∷ refs) (alias_key o ∷ aliases)
                  (if is_service o.kind then endpoint_key o ∷ endpoints else endpoints) rest e4 in
              cc

-- What a change makes of the objects.
record Changed (env : NetEnv) (kind : Kind) (name : Str) (change : Object → Object)
    (before objects after : List Object) : Type 0 where
  old : Object
  found : find (is_named env kind name) objects ≡ some old
  left : List Object
  right : List Object
  binding : Binding
  result : after ≡ (before ++ left) ++ (record (change old) { binding = binding } ∷ right)

passed :
    (before : List Object) (x : Object) (left rest : List Object)
    → ((before ++ (x ∷ [])) ++ left) ++ rest ≡ (before ++ (x ∷ left)) ++ rest
passed before x left rest = ap (λ front. front ++ rest) (rw append_assoc refl)

change_loop_lem :
    (env : NetEnv) (before : List Object) (kind : Kind) (name : Str) (change : Object → Object)
    (objects : List Object) {after : List Object} {o : Object}
    → change_loop env before kind name change objects ≡ ok (after, o)
    → Changed env kind name change before objects after
unfolding change_loop find
change_loop_lem env before kind name change [] e = absurd (cc e)
change_loop_lem env before kind name change (x ∷ xs) {after} {o} e =
    elim (Bool-cases (is_named env kind name x)) [
      | inr other ↦
          let c = change_loop_lem env (before ++ (x ∷ [])) kind name change xs (rw other at e) in
          record {
            old = c.old;
            found = rw other c.found;
            left = x ∷ c.left;
            right = c.right;
            binding = c.binding;
            result =
                c.result
                ∙ passed before x c.left (record (change c.old) { binding = c.binding } ∷ c.right);
          }
      | inl it ↦
          ok_cases (bind_refs env (before ++ (change x ∷ xs)) (change x).binding) _ (rw it at e)
            λ b _ e1.
              let final = record (change x) { binding = b } in
              let pair : ◌≡◌ {A = List Object × Object}
                  (before ++ (final ∷ xs), clone_object env final) (after, o) =
                cc in
              record {
                old = x;
                found = rw it refl;
                left = [];
                right = xs;
                binding = b;
                result =
                    sym (ap (λ p. p.0) pair)
                    ∙ ap (λ front. front ++ (final ∷ xs)) (sym (append-nil before));
              }
    ]

Apart-All :
    (xs : List Object) (o : Object) (ys : List Object)
    → Pairwise Apart (xs ++ (o ∷ ys))
    → All (λ x. x.ref.id ≢ o.ref.id) xs
Apart-All [] o ys p = tt
Apart-All (x ∷ xs) o ys p = (Apart.ids (middle xs o ys p.0), Apart-All xs o ys p.1)
  where
    middle :
        (xs : List Object) (o : Object) (ys : List Object)
        → All (Apart x) (xs ++ (o ∷ ys))
        → Apart x o
    middle [] o ys h = h.0
    middle (b ∷ bs) o ys h = middle bs o ys h.1

unless : (b : Bool) → (b ≡ true → ⊥) → b ≡ false
unless true h = absurd (h refl)
unless false h = refl

-- The first object with the identifier has another revision.
resolve_ref-stale :
    (env : NetEnv) (xs : List Object) (o : Object) (ys : List Object) (r : Ref)
    → All (λ x. x.ref.id ≢ o.ref.id) xs
    → o.ref.id ≡ r.id
    → o.ref.revision ≢ r.revision
    → resolve_ref env (xs ++ (o ∷ ys)) r ≡ fail stale
unfolding resolve_ref ref_eq
resolve_ref-stale env [] o ys r h same differ =
    let here : text_eq o.ref.id r.id ≡ true = (text_eq_iff o.ref.id r.id).1 same in
    let other : (o.ref.revision == r.revision) ≡ false =
      unless (o.ref.revision == r.revision)
        (λ e. differ ((==_iff o.ref.revision r.revision).0 e)) in
    rw (here, other) refl
resolve_ref-stale env (x ∷ xs) o ys r h same differ =
    let passes : text_eq x.ref.id r.id ≡ false =
      unless (text_eq x.ref.id r.id) (λ e. h.0 ((text_eq_iff x.ref.id r.id).0 e ∙ sym same)) in
    rw passes (resolve_ref-stale env xs o ys r h.1 same differ)

map-append : (f : Object → Object) (xs ys : List Object) → map f (xs ++ ys) ≡ map f xs ++ map f ys
map-append f [] ys = refl
map-append f (x ∷ xs) ys = ap (λ l. f x ∷ l) (map-append f xs ys)

next_revision : (n : ℕ) → (n + 1) % 2 ^ 64 ≢ n
next_revision n e = absurd (omega (arith, e))

-- If `Rebind` gives what it will write, then in that registry the reference that the object had before
-- it, in the registry that was read, is stale.
pub rebind-stale :
    (env : NetEnv) (file : File) (kind : Kind) (name : Str) (b : Binding) (s after : RegistryState)
    (old made : Object)
    → load env file ≡ ok s
    → find (is_named env kind name) s.objects ≡ some old
    → mutated env file (rebind_body env kind name b) ≡ ok (after, made)
    → resolve_ref env after.objects old.ref ≡ fail stale
unfolding mutated rebind_body change_body validate_objects clone_object
rebind-stale env file kind name b s after old made loaded named e =
    ok_cases (load env file) _ e λ s0 e1 e2.
      ok_cases (change_body env kind name (with_binding env b) s0) _ e2 λ (s1, o1) e3 e4.
        ok_cases (validate_objects env s1.objects) _ e4 λ os e5 e6.
          ok_cases (change_loop env [] kind name (with_binding env b) s0.objects) _ e3
            λ (changed, o2) e7 e8.
              let c = change_loop_lem env [] kind name (with_binding env b) s0.objects e7 in
              let same : s0 ≡ s = cc in
              let was : c.old ≡ old =
                cc (
                  sym c.found ∙ (ap (λ r. find (is_named env kind name) r.objects) same ∙ named)) in
              let front = map (clone_object env) c.left in
              let back = map (clone_object env) c.right in
              let final = record (with_binding env b c.old) { binding = c.binding } in
              let pair : ◌≡◌ {A = RegistryState × Object} (record s0 { objects = changed }, o2)
                  (s1, o1) =
                cc in
              let pair' : ◌≡◌ {A = RegistryState × Object} (record s1 { objects = os }, o1)
                  (after, made) =
                cc in
              let cloned : os ≡ front ++ (clone_object env final ∷ back) =
                validate_loop_lem env [] [] [] s1.objects e5
                ∙ (ap (λ p. map (clone_object env) p.0.objects) (sym pair)
                    ∙ (ap (map (clone_object env)) c.result
                        ∙ map-append (clone_object env) c.left (final ∷ c.right))) in
              let (_, apart) = validate_objects-Sound env s1.objects e5 in
              let ahead =
                Apart-All front (clone_object env final) back
                  (subst (Pairwise Apart) cloned apart) in
              let shape : after.objects ≡ front ++ (clone_object env final ∷ back) =
                ap (λ p. p.0.objects) (sym pair') ∙ cloned in
              subst (λ o. resolve_ref env after.objects o.ref ≡ fail stale) was
                (rw shape (
                  resolve_ref-stale env front (clone_object env final) back c.old.ref ahead refl
                    (next_revision c.old.ref.revision)))
