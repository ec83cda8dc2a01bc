-- ===== src/Policy/Enforce.antt =====
-- `enforcePolicy` of internal/gateway/server.go: a request of the gateway against its grant. Each of
-- its calls of the store is a critical section of its own, and `others` is what other requests do to
-- the store between them.
use pins.Prelude.{
  ℕ, Bool, true, false, not, ◌&&◌, ◌||◌, [], Option, none, some, if◌then◌else◌, ◌>>=◌, ◌>>◌, guard,
  is_some,
}
use pins.Prelude.Int.{ℤ, pos, ltb_ℤ, leb_ℤ}
use pins.Go.Text.{Str, codes, text_eq, is_empty, text_eq}
use pins.Go.Map.{lookup, text_at}
use pins.Go.Fold.{trim_space}
use pins.Policy.Types.{
  Time, Grant, PinStatus, fail, pass, requires_approval, Decision, allow, require_approval,
  undecided, ActionRequest, EvaluationResult, Receipt, ApprovalStatus, approved, ApprovalRequest,
  IdentityAttestation,
}
use pins.Policy.Engine.{evaluate_action}
use pins.Policy.Receipts.{Crypto, new_receipt, sign_receipt, verify_attestation}
use pins.Policy.Store.{Store, Saving, get_grant, get_approval, add_receipt, add_grant_spend}

-- The headers that are read, `""` for a missing one.
pub record Headers : Type 0 where
  pub grant_id : Str
  pub sub : Str
  pub capability : Str
  pub data_class : Str
  pub cost_cents : Str
  pub approval_id : Str

-- What a request meets: Unicode's folding table, `strconv.ParseInt`, whether `url.Parse` finds `https`
-- and a host, the public keys of the environment by their identifiers (`PublicKeyFromEnv`), the key
-- pair of the store, if it has one, the new identifier, the clock, and how each saving ends. `others 0`
-- is what other requests do before the grant is read, `others 1` between that and the reading of the
-- approval, `others 2` from there until the receipt is added, and `others 3` until the cost is spent.
-- What a first use of the signing keys does, which saves them, is in `others 2`.
pub record World : Type 0 where
  pub fold : ℕ → ℕ
  pub crypto : Crypto
  pub parse_int : Str → Option ℤ
  pub is_https : Str → Bool
  pub public_key : Str → Option Str
  pub keypair : Option (Str × Str)
  pub receipt_id : Str
  pub now : ℕ → Time
  pub saving_receipt : Saving
  pub saving_spend : Saving
  pub others : ℕ → Store → Store

-- The request goes on, with the identifier of its receipt, or is answered with a status.
pub data Answer : Type 0 where
  passed : Str → Answer
  refused : ℕ → Answer

unfoldable pub cost_of : World → Str → Option ℤ
cost_of w raw =
    if is_empty (trim_space raw)
    then some (pos 0)
    else do cost ← w.parse_int (trim_space raw); guard (not (ltb_ℤ cost (pos 0))); some cost

abbrev is_approved : ApprovalStatus → Bool
is_approved approved = true
is_approved _ = false

-- The approval is for this very request.
unfoldable pub matches_request : ApprovalRequest → ActionRequest → Bool
matches_request a q =
    is_approved a.status
    && text_eq a.grant_id q.grant_id
    && text_eq a.sub q.sub
    && text_eq a.capability q.capability
    && text_eq a.data_class q.data_class
    && text_eq a.target q.target
    && (leb_ℤ a.cost_cents q.cost_cents && leb_ℤ q.cost_cents a.cost_cents)

-- `hosted.VerifyStoredAttestation`
unfoldable pub verify_stored : World → IdentityAttestation → Time → Option (Unit {0})
verify_stored w a now = do
  guard (not (is_empty (trim_space a.issuer)))
  guard (w.is_https (trim_space a.issuer))
  public ← w.public_key a.key_id
  verify_attestation w.crypto a public (trim_space a.issuer) now

-- The approver's attestation is there, names the approver, and verifies.
unfoldable pub is_attested : World → ApprovalRequest → Option IdentityAttestation → Bool
is_attested w a none = false
is_attested w a (some att) =
    text_eq att.subject a.approver_sub && is_some (verify_stored w att (w.now 0))

-- Whether an approval is given; `none` for one that does not hold.
unfoldable pub approval_of : World → Store → ActionRequest → Option Bool
approval_of w s q = if is_empty q.approval_id then some false else do
  a ← get_approval s q.approval_id
  guard (matches_request a q && is_attested w a a.approver_attestation)
  some true

-- `Receipt{}`, which `SignReceipt` gives with an error.
abbrev empty_receipt : Receipt
empty_receipt = record {
  id = [];
  grant_id = [];
  sub = [];
  authority = [];
  pin_states = [];
  decision = undecided;
  capability = [];
  data_class = [];
  target = [];
  cost_cents = pos 0;
  approval_ref = [];
  identity_attestation_id = [];
  created_at = 0;
  key_id = [];
  signature = [];
}

abbrev or_empty : Option Receipt → Receipt
or_empty none = empty_receipt
or_empty (some r) = r

unfoldable pub signed : World → Receipt → Receipt
signed w r = elim w.keypair [
  | none ↦ r
  | some (private, key_id) ↦ or_empty (sign_receipt w.crypto r private key_id)
]

unfoldable pub receipt_of : World → Grant → ActionRequest → EvaluationResult → Receipt
receipt_of w g q result =
    signed w
      (record (new_receipt w.receipt_id g q result (w.now 1)) { approval_ref = q.approval_id })

abbrev is_failed : Option PinStatus → Bool
is_failed none = false
is_failed (some pass) = false
is_failed (some fail) = true
is_failed (some requires_approval) = false

unfoldable pub over_budget : EvaluationResult → Bool
over_budget result =
    is_failed (lookup result.pin_states (codes "spend_policy"))
    && text_eq (text_at result.reasons (codes "spend_policy")) (codes "budget exceeded")

-- The end of the handler: `s` holds the receipt already.
unfoldable pub respond :
    World → Store → ActionRequest → EvaluationResult → Receipt → Decision → Store × Answer
respond w s q result r allow = (
  if ltb_ℤ (pos 0) q.cost_cents
      then (add_grant_spend w.saving_spend (w.others 3 s) q.grant_id q.cost_cents (w.now 2)).0
      else s,
  passed r.id,
)
respond w s q result r require_approval = (s, refused 428)
respond w s q result r _ = (s, refused (if over_budget result then 402 else 403))

unfoldable pub decide_request : World → Store → Grant → ActionRequest → Store × Answer
decide_request w s g q =
    let result = evaluate_action w.fold g q (w.now 1) in
    let r = receipt_of w g q result in
    respond w (add_receipt w.saving_receipt (w.others 2 s) r).0 q result r result.decision

-- From the lookup of the grant on; `s` is the store where the grant was looked up, `s'` the one where
-- the approval was, and `q` has no approval yet.
unfoldable pub enforce_found :
    World → Store → Store → ActionRequest → Option Grant → Option Bool → Store × Answer
enforce_found w s s' q none a = (s, refused 403)
enforce_found w s s' q (some g) none = (s', refused 403)
enforce_found w s s' q (some g) (some given) =
    decide_request w s' g (record q { approval_granted = given })

unfoldable pub request_of : Headers → Str → ℤ → ActionRequest
request_of h target cost = record {
  grant_id = trim_space h.grant_id;
  sub = trim_space h.sub;
  capability = trim_space h.capability;
  data_class = trim_space h.data_class;
  target = target;
  cost_cents = cost;
  approval_id = trim_space h.approval_id;
  approval_granted = false;
}

unfoldable pub enforce_cost : World → Store → Headers → Str → Option ℤ → Store × Answer
enforce_cost w s h target none = (s, refused 400)
enforce_cost w s h target (some cost) =
    let q = request_of h target cost in
    let s' = w.others 0 s in
    let s'' = w.others 1 s' in
    enforce_found w s' s'' q (get_grant s' q.grant_id) (approval_of w s'' q)

-- `enforcePolicy`
unfoldable pub enforce : World → Store → Headers → Str → Store × Answer
enforce w s h target =
    if is_empty (trim_space h.grant_id)
    then (s, passed [])
    else if is_empty (trim_space h.sub)
        || is_empty (trim_space h.capability)
        || is_empty (trim_space h.data_class)
    then (s, refused 400)
    else enforce_cost w s h target (cost_of w h.cost_cents)
