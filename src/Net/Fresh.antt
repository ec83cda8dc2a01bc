-- ===== src/Net/Fresh.antt =====
-- What `validFact` of internal/netpolicy/evidence.go asks of a fact.
use mathlib.Core.List.{Perm, Memᴰ}
use mathlib.Core.List.Perm
use pins.Prelude.{
  ◌+◌, ◌*◌, ◌≤◌, ◌≡◌, ◌⊎◌, refl, ap₂, Bool, true, false, &&-eq_true, List, [], ◌∷◌, Option, arith,
  leb→le, ◌==◌, ==_iff, length, Bool-cases, inl, inr,
}
use pins.Go.Text.{Str, codes, text_eq, text_eq_iff}
use pins.Go.Sort.{sort_by, sort_by-Perm}
use pins.Lease.Types.{Time, minute}
use pins.Net.{Ref, Tuple, ref_eq, NetEnv, Fact, ObservationRequest, verified}
use pins.Net.Evidence.{same_order, assurance_ok, same_refs, valid_fact}
use pins.Net.Verify.{counts, mode_direct, scope_of, evaluate}
use pins.Net.Verify.Meaning.{Asked, evaluate-verified_iff}

ref_eq_sound : (a b : Ref) → ref_eq a b ≡ true → a ≡ b
unfolding ref_eq
ref_eq_sound a b e =
    let (ids, revisions) = &&-eq_true (text_eq a.id b.id) (a.revision == b.revision) e in
    ap₂ (λ i n. record { id = i; revision = n }) ((text_eq_iff a.id b.id).0 ids)
      ((==_iff a.revision b.revision).0 revisions)

same_order_sound : (as' bs : List Ref) → same_order as' bs ≡ true → as' ≡ bs
unfolding same_order
same_order_sound [] [] e = refl
same_order_sound [] (b ∷ bs) e = cc
same_order_sound (a ∷ as') [] e = cc
same_order_sound (a ∷ as') (b ∷ bs) e =
    let (one, more) = &&-eq_true (ref_eq a b) (same_order as' bs) e in
    ap₂ (λ x xs. x ∷ xs) (ref_eq_sound a b one) (same_order_sound as' bs more)

same_refs-Perm : (h : NetEnv) (a b : List Ref) → same_refs h a b ≡ true → Perm a b
unfolding same_refs
same_refs-Perm h a b e =
    let (_, order) =
      &&-eq_true (length a == length b) (same_order (sort_by h.hash_ref a) (sort_by h.hash_ref b))
        e in
    let same = same_order_sound (sort_by h.hash_ref a) (sort_by h.hash_ref b) order in
    Perm.trans (Perm.symm (sort_by-Perm h.hash_ref a)) (rw same (sort_by-Perm h.hash_ref b))

assurance_real :
    (fixture : Bool) (a : Str)
    → assurance_ok fixture a ≡ true
    → fixture ≡ false
    → (a ≡ codes "runtime_validated") ⊎ (a ≡ codes "operator_attested")
unfolding assurance_ok
assurance_real fixture a e never = elim (Bool-cases (text_eq a (codes "runtime_validated"))) [
  | inl is_runtime ↦ inl ((text_eq_iff a (codes "runtime_validated")).0 is_runtime)
  | inr other ↦
      let attested : text_eq a (codes "operator_attested") ≡ true = ground arith in
      inr ((text_eq_iff a (codes "operator_attested")).0 attested)
]

-- The fact is about the target, the objects and the policies of the request, at their revisions, and
-- fresh at this time.
pub record Fresh (q : ObservationRequest) (now : Time) (fixture : Bool) (f : Fact) : Type 0 where
  pub validated : f.validated ≡ true
  pub target : f.target ≡ q.target
  pub objects : Perm f.scope q.objects
  pub policies : Perm f.policies q.policies
  pub past : f.observed_at ≤ now
  pub valid : now ≤ f.valid_until
  pub short : f.valid_until ≤ f.observed_at + 10 * minute
  pub real :
      fixture ≡ false
      → (f.assurance ≡ codes "runtime_validated") ⊎ (f.assurance ≡ codes "operator_attested")

-- A fact that counts for a property in an assessment is about that property and fresh; its tuple is
-- the one of the scope, and has direct access.
pub counts-Fresh :
    (h : NetEnv) (q : ObservationRequest) (facts : List Fact) (now : Time) (fixture : Bool)
    (scoped : Option Tuple) (property : Str) (f : Fact)
    → counts h q facts now fixture scoped property f ≡ true
    → (f.property ≡ property) × Fresh q now fixture f × (mode_direct f.tuple ≡ true)
unfolding counts valid_fact
counts-Fresh h q facts now fixture scoped property f e =
    let about : text_eq f.property property ≡ true = ground arith in
    let target : ref_eq f.target q.target ≡ true = ground arith in
    let objects : same_refs h f.scope q.objects ≡ true = ground arith in
    let policies : same_refs h f.policies q.policies ≡ true = ground arith in
    let assurance : assurance_ok fixture f.assurance ≡ true = ground arith in
    (
      (text_eq_iff f.property property).0 about,
      record {
        validated = ground arith;
        target = ref_eq_sound f.target q.target target;
        objects = same_refs-Perm h f.scope q.objects objects;
        policies = same_refs-Perm h f.policies q.policies policies;
        past = leb→le f.observed_at now (ground arith);
        valid = leb→le now f.valid_until (ground arith);
        short = leb→le f.valid_until (f.observed_at + 10 * minute) (ground arith);
        real = assurance_real fixture f.assurance assurance;
      },
      ground arith,
    )

-- If the verdict is VERIFIED, then for each property that the request asks for there is a fact among
-- those given that is about it, true, and fresh: about the target, the objects and the policies of the
-- request at their revisions, observed no more than ten minutes before it ends, and not yet ended.
pub verified-Fresh :
    (h : NetEnv) (q : ObservationRequest) (facts : List Fact) (now : Time) (fixture : Bool)
    (id : Str) (cleanup : Bool) (t : Tuple) (name : Str)
    → (evaluate h q facts now fixture id cleanup).verdict ≡ verified
    → Asked h q facts now fixture t name
    → (f : Fact) × Memᴰ f facts × (f.property ≡ name) × Fresh q now fixture f × (f.value ≡ true)
verified-Fresh h q facts now fixture id cleanup t name e asked =
    let (_, supported) = (evaluate-verified_iff h q facts now fixture id cleanup).0 e in
    let (f, known, counted, value) = supported.each t name asked in
    let (about, fresh, _) =
      counts-Fresh h q facts now fixture (scope_of h q facts now fixture t) name f counted in
    (f, known, about, fresh, value)
