-- ===== src/Policy/Admission.antt =====
-- What `enforcePolicy` of internal/gateway/server.go lets through.
use pins.Prelude.{
  ◌+◌, ◌≤◌, ◌<◌, ◌≡◌, refl, ap, Bool, true, false, not, ◌||◌, ◌&&◌, is_some, Option, none, some,
  Bool-cases, inl, inr, bind_cases, guard_cases, guard-eq_some, &&-eq_true, arith, subst, sym, ltb,
}
use pins.Prelude.Int.{ℤ, pos, negsuc, leb_ℤ}
use pins.Go.Text.{Str, codes, text_eq, text_eq_sound, is_empty}
use pins.Go.Fold.{trim_space}
use pins.Policy.Types.{
  Grant, ActionRequest, EvaluationResult, Receipt, Decision, allow, block, require_approval,
  undecided, ApprovalRequest, approved, IdentityAttestation,
}
use pins.Policy.Receipts.{leeway, verify_attestation, signable_attestation, is_sub}
use pins.Policy.Engine.{evaluate_action}
use pins.Policy.Engine.Exact.{Permits, evaluate_action_iff}
use pins.Policy.Store.{Store, get_grant, get_approval, add_receipt}
use pins.Policy.Enforce.{
  World, Headers, passed, enforce, enforce_cost, enforce_found, decide_request, respond, receipt_of,
  request_of, approval_of, cost_of, matches_request, is_attested, verify_stored,
}

-- An attestation that holds: a key of the environment verifies its signature over these fields, its
-- issuer is an `https` address, it is for this service and by the hosted method, and it is in force.
pub record Genuine (w : World) (a : IdentityAttestation) : Type 0 where
  pub key : Str
  pub known : w.public_key a.key_id ≡ some key
  pub issuer_eq : a.issuer ≡ trim_space a.issuer
  pub over_https : w.is_https a.issuer ≡ true
  pub audience_eq : a.audience ≡ codes "21pins"
  pub method_eq : a.method ≡ codes "hosted_ck"
  pub begun : a.issued_at ≤ w.now 0 + leeway
  pub unexpired : w.now 0 < a.expires_at + leeway
  pub payload : Str
  pub payload_eq :
      w.crypto.attestation_json (record {
        id = a.id;
        subject = a.subject;
        issuer = a.issuer;
        audience = a.audience;
        method = a.method;
        issued_at = a.issued_at;
        expires_at = a.expires_at;
        key_id = a.key_id;
      })
      ≡ some payload
  pub tag : Str
  pub tag_eq : w.crypto.decode64 a.signature ≡ some tag
  pub verifies : w.crypto.verify key payload tag ≡ true

-- An approval in the store that was given to this very request, with an attestation of its approver.
pub record Approved (w : World) (s : Store) (q : ActionRequest) : Type 0 where
  pub approval : ApprovalRequest
  pub stored : get_approval s q.approval_id ≡ some approval
  pub granted : approval.status ≡ approved
  pub grant_eq : approval.grant_id ≡ q.grant_id
  pub sub_eq : approval.sub ≡ q.sub
  pub capability_eq : approval.capability ≡ q.capability
  pub class_eq : approval.data_class ≡ q.data_class
  pub target_eq : approval.target ≡ q.target
  pub cost_eq : approval.cost_cents ≡ q.cost_cents
  pub attestation : IdentityAttestation
  pub attested : approval.approver_attestation ≡ some attestation
  pub approver_eq : attestation.subject ≡ approval.approver_sub
  pub genuine : Genuine w attestation

-- The grant that the request names permits it at this cost, and where it counts as approved, an
-- approval was given. The grant is that of the store as other requests had left it when it was read,
-- and the approval that of the store a moment later.
pub record Admitted (w : World) (s : Store) (h : Headers) (target : Str) : Type 0 where
  pub cost : ℤ
  pub costs : cost_of w h.cost_cents ≡ some cost
  pub grant : Grant
  pub stored : get_grant (w.others 0 s) (trim_space h.grant_id) ≡ some grant
  pub given : Bool
  pub permits :
      Permits w.fold grant
        (record (request_of h target cost) { approval_granted = given })
        (w.now 1)
  pub approval : given ≡ true → Approved w (w.others 1 (w.others 0 s)) (request_of h target cost)

leb_ℤ_antisym : (a b : ℤ) → leb_ℤ a b ≡ true → leb_ℤ b a ≡ true → a ≡ b
leb_ℤ_antisym (pos a) (pos b) p q = ap pos (ground arith)
leb_ℤ_antisym (pos a) (negsuc b) p q = ground arith
leb_ℤ_antisym (negsuc a) (pos b) p q = ground arith
leb_ℤ_antisym (negsuc a) (negsuc b) p q = ap negsuc (ground arith)

verify_attestation-Genuine :
    (w : World) (a : IdentityAttestation) (key : Str)
    → w.public_key a.key_id ≡ some key
    → w.is_https (trim_space a.issuer) ≡ true
    → verify_attestation w.crypto a key (trim_space a.issuer) (w.now 0) ≡ some tt
    → Genuine w a
unfolding verify_attestation signable_attestation
verify_attestation-Genuine w a key known https h =
    guard_cases (not (is_empty (trim_space a.id))) _ h λ _ h₁.
      guard_cases (is_sub a.subject) _ h₁ λ _ h₂.
        guard_cases (text_eq a.issuer (trim_space a.issuer)) _ h₂ λ issuer h₃.
          guard_cases (text_eq a.audience (codes "21pins")) _ h₃ λ audience h₄.
            guard_cases (text_eq a.method (codes "hosted_ck")) _ h₄ λ method h₅.
              guard_cases
                (not (
                  ltb (w.now 0 + leeway) a.issued_at
                  || not (ltb (w.now 0) (a.expires_at + leeway))))
                _ h₅
                λ in_force h₆. bind_cases (w.crypto.attestation_json _) _ h₆ λ payload written h₇.
                  bind_cases (w.crypto.decode64 a.signature) _ h₇ λ tag read h₈.
                    let trimmed = text_eq_sound a.issuer (trim_space a.issuer) issuer in
                    record {
                      key = key;
                      known = known;
                      issuer_eq = trimmed;
                      over_https = subst (λ i. w.is_https i ≡ true) (sym trimmed) https;
                      audience_eq = text_eq_sound a.audience (codes "21pins") audience;
                      method_eq = text_eq_sound a.method (codes "hosted_ck") method;
                      begun = ground arith;
                      unexpired = ground arith;
                      payload = payload;
                      payload_eq = written;
                      tag = tag;
                      tag_eq = read;
                      verifies = guard-eq_some (w.crypto.verify key payload tag) h₈;
                    }

verify_stored-Genuine :
    (w : World) (a : IdentityAttestation) → verify_stored w a (w.now 0) ≡ some tt → Genuine w a
unfolding verify_stored
verify_stored-Genuine w a h = guard_cases (not (is_empty (trim_space a.issuer))) _ h λ _ h₁.
    guard_cases (w.is_https (trim_space a.issuer)) _ h₁ λ https h₂.
      bind_cases (w.public_key a.key_id) _ h₂
        λ key known h₃. verify_attestation-Genuine w a key known https h₃

no_error : (o : Option (Unit {0})) → is_some o ≡ true → o ≡ some tt
no_error none h = cc
no_error (some tt) h = refl

is_attested-Genuine :
    (w : World) (a : ApprovalRequest) (o : Option IdentityAttestation)
    → is_attested w a o ≡ true
    → (t : IdentityAttestation) × (o ≡ some t) × (t.subject ≡ a.approver_sub) × Genuine w t
unfolding is_attested
is_attested-Genuine w a none h = cc
is_attested-Genuine w a (some t) h =
    let (same, verified) =
      &&-eq_true (text_eq t.subject a.approver_sub) (is_some (verify_stored w t (w.now 0))) h in
    (
      t,
      refl,
      text_eq_sound t.subject a.approver_sub same,
      verify_stored-Genuine w t (no_error (verify_stored w t (w.now 0)) verified),
    )

-- What the handler compares says that the approval is for this request.
matched :
    {w : World} {s : Store} (a : ApprovalRequest) (q : ActionRequest) (t : IdentityAttestation)
    → get_approval s q.approval_id ≡ some a
    → matches_request a q ≡ true
    → a.approver_attestation ≡ some t
    → t.subject ≡ a.approver_sub
    → Genuine w t
    → Approved w s q
unfolding matches_request
matched a q t e h attested by genuine = record {
  approval = a;
  stored = e;
  granted = ground arith;
  grant_eq = ground (arith, text_eq_sound a.grant_id q.grant_id);
  sub_eq = ground (arith, text_eq_sound a.sub q.sub);
  capability_eq = ground (arith, text_eq_sound a.capability q.capability);
  class_eq = ground (arith, text_eq_sound a.data_class q.data_class);
  target_eq = ground (arith, text_eq_sound a.target q.target);
  cost_eq = leb_ℤ_antisym a.cost_cents q.cost_cents (ground arith) (ground arith);
  attestation = t;
  attested = attested;
  approver_eq = by;
  genuine = genuine;
}

approval_of-Approved :
    (w : World) (s : Store) (q : ActionRequest) → approval_of w s q ≡ some true → Approved w s q
unfolding approval_of
approval_of-Approved w s q h = elim (Bool-cases (is_empty q.approval_id)) [
  | inl empty ↦ cc (rw empty at h)
  | inr named ↦ bind_cases (get_approval s q.approval_id) _ (rw named at h) λ a e rest.
      guard_cases (matches_request a q && is_attested w a a.approver_attestation) _ rest λ t done.
        let (fits, attested) =
          &&-eq_true (matches_request a q) (is_attested w a a.approver_attestation) t in
        let (att, there, by, genuine) = is_attested-Genuine w a a.approver_attestation attested in
        matched a q att e fits there by genuine
]

-- The handler lets a request through only if the decision is `allow`.
respond-passed :
    (w : World) (s : Store) (q : ActionRequest) (result : EvaluationResult) (r : Receipt)
    (d : Decision) {id : Str}
    → (respond w s q result r d).1 ≡ passed id
    → d ≡ allow
unfolding respond
respond-passed w s q result r allow h = refl
respond-passed w s q result r block h = cc
respond-passed w s q result r require_approval h = cc
respond-passed w s q result r undecided h = cc

decide_request-Permits :
    (w : World) (s : Store) (g : Grant) (q : ActionRequest) {id : Str}
    → (decide_request w s g q).1 ≡ passed id
    → Permits w.fold g q (w.now 1)
unfolding decide_request
decide_request-Permits w s g q h =
    let result = evaluate_action w.fold g q (w.now 1) in
    let r = receipt_of w g q result in
    (evaluate_action_iff w.fold g q (w.now 1)).0 (
      respond-passed w (add_receipt w.saving_receipt (w.others 2 s) r).0 q result r result.decision
        h)

enforce_found-Admitted :
    (w : World) (s : Store) (h : Headers) (target : Str) (cost : ℤ) (o : Option Grant)
    (a : Option Bool) {id : Str}
    → cost_of w h.cost_cents ≡ some cost
    → get_grant (w.others 0 s) (trim_space h.grant_id) ≡ o
    → approval_of w (w.others 1 (w.others 0 s)) (request_of h target cost) ≡ a
    → (enforce_found w (w.others 0 s) (w.others 1 (w.others 0 s)) (request_of h target cost) o a).1
      ≡ passed id
    → Admitted w s h target
unfolding enforce_found
enforce_found-Admitted w s h target cost none a costs e f p = cc
enforce_found-Admitted w s h target cost (some g) none costs e f p = cc
enforce_found-Admitted w s h target cost (some g) (some given) costs e f p = record {
  cost = cost;
  costs = costs;
  grant = g;
  stored = e;
  given = given;
  permits =
      decide_request-Permits w _ g (record (request_of h target cost) { approval_granted = given })
        p;
  approval = λ yes. approval_of-Approved w _ (request_of h target cost) (rw yes at f);
}

enforce_cost-Admitted :
    (w : World) (s : Store) (h : Headers) (target : Str) (cost : Option ℤ) {id : Str}
    → cost_of w h.cost_cents ≡ cost
    → (enforce_cost w s h target cost).1 ≡ passed id
    → Admitted w s h target
unfolding enforce_cost request_of
enforce_cost-Admitted w s h target none e p = cc
enforce_cost-Admitted w s h target (some cost) e p =
    let q = request_of h target cost in
    let s' = w.others 0 s in
    enforce_found-Admitted w s h target cost (get_grant s' q.grant_id)
      (approval_of w (w.others 1 s') q) e refl refl p

-- If a request that names a grant goes on, then, whatever other requests do meanwhile, the store had
-- the grant when it was looked up, and the grant permits the request at the cost that its header says;
-- and if the request counts as approved, the store had an approval with the approved status for the
-- same grant, subject, capability, data class, target and cost, with an attestation of its approver:
-- a key of the environment verifies its signature, and it is for this service and in force.
pub enforce-Admitted :
    (w : World) (s : Store) (h : Headers) (target : Str) {id : Str}
    → is_empty (trim_space h.grant_id) ≡ false
    → (enforce w s h target).1 ≡ passed id
    → Admitted w s h target
unfolding enforce
enforce-Admitted w s h target named p =
    elim (Bool-cases (
      is_empty (trim_space h.sub)
      || is_empty (trim_space h.capability)
      || is_empty (trim_space h.data_class))) [
        | inl short ↦ cc (rw (named, short) at p)
        | inr full ↦
            enforce_cost-Admitted w s h target (cost_of w h.cost_cents) refl (rw (named, full) at p)
      ]
