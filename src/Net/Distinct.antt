-- ===== src/Net/Distinct.antt =====
-- What `validateObjects` and `overlap` of internal/netpolicy let through: nothing is there twice.
use pins.Prelude.{
  ◌≡◌, ◌≢◌, refl, sym, subst, ◌∙◌, Bool, true, false, not, ◌&&◌, &&-eq_true, ||-eq_false, List, [],
  ◌∷◌, arith, ◌==◌, ==_iff, ==_refl, any, Pairwise, All, if◌then◌else◌,
}
use pins.Go.Text.{Str, text_eq, text_eq_iff, text_eq_refl, member}
use pins.Net.{
  ref_eq, Kind, service, Object, Tuple, tuple_eq, Rule, NetEnv, ok, ok_cases, demand_cases,
}
use pins.Net.Objects.{valid_object, clone_object}
use pins.Net.Registry.{
  alias_key, endpoint_key, is_service, has_net_prefix, validate_loop, validate_objects,
}
use pins.Net.Rules.{new_tuples, all_tuples, no_overlap}

-- Two objects that a registry may have together.
pub record Apart (a b : Object) : Type 0 where
  pub ids : a.ref.id ≢ b.ref.id
  pub names : a.kind ≡ b.kind → a.alias ≢ b.alias
  pub endpoints :
      a.kind ≡ service
      → b.kind ≡ service
      → a.binding.realm ≡ b.binding.realm
      → a.binding.target ≡ b.binding.target
      → a.binding.port ≢ b.binding.port

pub record Sound (env : NetEnv) (o : Object) : Type 0 where
  pub valid : valid_object env o ≡ true
  pub named : has_net_prefix o.ref.id ≡ true
  pub revised : o.ref.revision ≢ 0

-- The object is new to the three maps.
record Unseen (refs aliases endpoints : List Str) (o : Object) : Type 0 where
  id : member o.ref.id refs ≡ false
  alias : member (alias_key o) aliases ≡ false
  endpoint : (is_service o.kind && member (endpoint_key o) endpoints) ≡ false

unequal : (s t : Str) → text_eq s t ≡ false → s ≢ t
unequal s t f e = absurd (cc (sym ((text_eq_iff s t).1 e) ∙ f))

is_service_lem : (k : Kind) → k ≡ service → is_service k ≡ true
is_service_lem k e = rw e refl

abbrev more_endpoints : Object → List Str → List Str
more_endpoints o endpoints = if is_service o.kind then endpoint_key o ∷ endpoints else endpoints

endpoint_parts :
    (serves other : Bool) (key found : Str) (endpoints : List Str)
    → (other && member found (if serves then key ∷ endpoints else endpoints)) ≡ false
    → (serves ≡ true → other ≡ true → text_eq found key ≡ false)
      × ((other && member found endpoints) ≡ false)
unfolding member
endpoint_parts true true key found endpoints h =
    let (one, more) = ||-eq_false (text_eq found key) (member found endpoints) h in
    (λ _ _. one, more)
endpoint_parts true false key found endpoints h = (λ _ e. cc, refl)
endpoint_parts false other key found endpoints h = (λ e _. cc, h)

alias_keys : (o b : Object) → o.kind ≡ b.kind → o.alias ≡ b.alias → alias_key b ≡ alias_key o
alias_keys o b kinds aliases = rw (kinds, aliases) refl

endpoint_keys :
    (o b : Object)
    → o.binding.realm ≡ b.binding.realm
    → o.binding.target ≡ b.binding.target
    → o.binding.port ≡ b.binding.port
    → endpoint_key b ≡ endpoint_key o
endpoint_keys o b realms targets ports = rw (realms, targets, ports) refl

Unseen-Apart :
    (o b : Object) (refs aliases endpoints : List Str)
    → Unseen (o.ref.id ∷ refs) (alias_key o ∷ aliases) (more_endpoints o endpoints) b
    → Apart o b × Unseen refs aliases endpoints b
unfolding member
Unseen-Apart o b refs aliases endpoints u =
    let (id, ids) = ||-eq_false (text_eq b.ref.id o.ref.id) (member b.ref.id refs) u.id in
    let (alias, names) =
      ||-eq_false (text_eq (alias_key b) (alias_key o)) (member (alias_key b) aliases) u.alias in
    let (endpoint, others) =
      endpoint_parts (is_service o.kind) (is_service b.kind) (endpoint_key o) (endpoint_key b)
        endpoints u.endpoint in
    (
      record {
        ids = λ e. unequal b.ref.id o.ref.id id (sym e);
        names = λ k a. unequal (alias_key b) (alias_key o) alias (alias_keys o b k a);
        endpoints = λ ko kb realm target port.
            unequal (endpoint_key b) (endpoint_key o)
              (endpoint (is_service_lem o.kind ko) (is_service_lem b.kind kb))
              (endpoint_keys o b realm target port);
      },
      record { id = ids; alias = names; endpoint = others },
    )

All-split :
    {A : Type 0} {P Q R : A → Type 0} (xs : List A)
    → ((x : A) → P x → Q x × R x)
    → All P xs
    → All Q xs × All R xs
All-split [] f h = (tt, tt)
All-split (x ∷ xs) f h =
    let (one, more) = f x h.0 in
    let (ones, mores) = All-split xs f h.1 in ((one, ones), (more, mores))

record Placed (env : NetEnv) (refs aliases endpoints : List Str) (os : List Object) : Type 0 where
  unseen : All (Unseen refs aliases endpoints) os
  sound : All (Sound env) os
  apart : Pairwise Apart os

validate_loop_sound :
    (env : NetEnv) (refs aliases endpoints : List Str) (objects : List Object) {os : List Object}
    → validate_loop env refs aliases endpoints objects ≡ ok os
    → Placed env refs aliases endpoints os
unfolding validate_loop
validate_loop_sound env refs aliases endpoints [] {os} e =
    let same : [] ≡ os = cc in
    subst (Placed env refs aliases endpoints) same (record { unseen = tt; sound = tt; apart = tt })
validate_loop_sound env refs aliases endpoints (object ∷ rest) {os} e =
    let o = clone_object env object in
    demand_cases
      (valid_object env o
        && has_net_prefix o.ref.id
        && not (o.ref.revision == 0)
        && not (member o.ref.id refs))
      _ _ e
      λ good e1. demand_cases (not (member (alias_key o) aliases)) _ _ e1 λ alias e2.
        demand_cases (not (is_service o.kind && member (endpoint_key o) endpoints)) _ _ e2
          λ endpoint e3.
            ok_cases
              (validate_loop env (o.ref.id ∷ refs) (alias_key o ∷ aliases)
                (more_endpoints o endpoints) rest)
              _ e3
              λ later e4 e5.
                let placed =
                  validate_loop_sound env (o.ref.id ∷ refs) (alias_key o ∷ aliases)
                    (more_endpoints o endpoints) rest e4 in
                let (apart, unseen) =
                  All-split later (λ b. Unseen-Apart o b refs aliases endpoints) placed.unseen in
                let same : o ∷ later ≡ os = cc in
                let here : Unseen refs aliases endpoints o = record {
                  id = ground arith;
                  alias = ground arith;
                  endpoint = ground arith;
                } in
                let fine : Sound env o = record {
                  valid = ground arith;
                  named = ground arith;
                  revised = λ zero_revision. absurd (ground (arith, ==_iff o.ref.revision 0));
                } in
                subst (Placed env refs aliases endpoints) same (record {
                  unseen = (here, unseen);
                  sound = (fine, placed.sound);
                  apart = (apart, placed.apart);
                })

-- The objects that `validateObjects` lets through.
pub validate_objects-Sound :
    (env : NetEnv) (objects : List Object) {os : List Object}
    → validate_objects env objects ≡ ok os
    → All (Sound env) os × Pairwise Apart os
unfolding validate_objects
validate_objects-Sound env objects e =
    let placed = validate_loop_sound env [] [] [] objects e in (placed.sound, placed.apart)

tuple_eq_refl : (t : Tuple) → tuple_eq t t ≡ true
unfolding tuple_eq ref_eq
tuple_eq_refl t = ground (
  arith,
  text_eq_refl t.source.id,
  text_eq_refl t.endpoint.id,
  text_eq_refl t.realm,
  text_eq_refl t.family,
  text_eq_refl t.transport,
  text_eq_refl t.mode,
  ==_refl t.source.revision,
  ==_refl t.endpoint.revision,
  ==_refl t.port,
)

new_tuples_sound :
    (seen ts : List Tuple)
    → new_tuples seen ts ≡ true
    → All (λ t. any (tuple_eq t) seen ≡ false) ts × Pairwise (λ a b. a ≢ b) ts
unfolding new_tuples any
new_tuples_sound seen [] e = (tt, tt)
new_tuples_sound seen (t ∷ ts) e =
    let (fresh, more) = &&-eq_true (not (any (tuple_eq t) seen)) (new_tuples (t ∷ seen) ts) e in
    let (later, apart) = new_tuples_sound (t ∷ seen) ts more in
    let (differ, unseen) = All-split ts (λ b u. parts b u) later in
    ((ground arith, unseen), (differ, apart))
  where
    parts :
        (b : Tuple)
        → any (tuple_eq b) (t ∷ seen) ≡ false
        → (t ≢ b) × (any (tuple_eq b) seen ≡ false)
    parts b u =
        let (differ, unseen) = ||-eq_false (tuple_eq b t) (any (tuple_eq b) seen) u in
        (
          λ e.
              absurd
                (cc (sym (subst (λ x. tuple_eq b x ≡ true) (sym e) (tuple_eq_refl b)) ∙ differ)),
          unseen,
        )

-- The tuples of the rules that `overlap` lets through.
pub no_overlap_sound :
    (rules : List Rule) → no_overlap rules ≡ true → Pairwise (λ a b. a ≢ b) (all_tuples rules)
unfolding no_overlap
no_overlap_sound rules e = (new_tuples_sound [] (all_tuples rules) e).1
