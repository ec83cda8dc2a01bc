-- ===== src/Policy/Trials.antt =====
-- Small runs of the policy store, and of `enforcePolicy` over it.
use pins.Prelude.{
  ◌+◌, ◌==◌, if◌then◌else◌, List, all, ◌≡◌, refl, true, [], ◌∷◌, none, some, arith, map, any, find,
}
use pins.Prelude.Int.{ℤ, pos, ◌+ℤ◌, wrap64}
use pins.Go.Text.{codes, text_eq, contains_byte}
use pins.Go.Utf8.{runes}
use pins.Go.Fold.{trim_space, equal_fold}
use pins.Policy.Types.{Grant, pending, approved, ApprovalRequest, IdentityAttestation}
use pins.Policy.Engine.{
  contains, identity_pin, leaf_pin, chain_pin, authority_pin, listed_pin, spend_pin, approval_pin,
  verdicts, evaluate_action, decide,
}
use pins.Policy.Receipts.{
  new_receipt, sign_receipt, signable, verify_attestation, signable_attestation, is_sub,
}
use pins.Policy.Store.{
  State, Store, written, add_grant_spend, change_grant, change_found, get_grant, get_approval,
  add_receipt, save_locked, update_first,
}
use pins.Policy.Enforce.{
  World, Headers, enforce, enforce_cost, enforce_found, decide_request, respond, receipt_of, signed,
  request_of, approval_of, cost_of, matches_request, is_attested, verify_stored,
}
use pins.Policy.Budget.{Budgeted, Apart, enforce-Budgeted}
use pins.Policy.Admission.{Admitted, enforce-Admitted}
use pins.Policy.Samples.{ascii_fold, grant, shift_up, crypto, receipt}

abbrev state : State
state = record { grants = grant ∷ []; receipts = []; approvals = [] }

abbrev store : Store
store = record { memory = state; disk = state }

store-Budgeted : Budgeted store
store-Budgeted = record { synced = refl; within = (omega arith, tt) }

abbrev world : World
world = record {
  fold = ascii_fold;
  crypto = crypto;
  parse_int = λ _. some (pos 60);
  is_https = λ _. true;
  public_key = λ _. none;
  keypair = some (codes "secret", codes "k1");
  receipt_id = codes "rcp_1";
  now = λ n. n + 50;
  saving_receipt = written;
  saving_spend = written;
  others = λ _ s. s;
}

abbrev headers : Headers
headers = record {
  grant_id = codes " grt_1";
  sub = codes "ck_sub_1";
  capability = codes "chat";
  data_class = codes "public";
  cost_cents = codes "60";
  approval_id = [];
}

-- Meanwhile another request adds a receipt.
abbrev busy_world : World
busy_world = record world { others = λ _ s. (add_receipt written s receipt).0 }

busy-Apart : Apart busy_world (trim_space headers.grant_id)
unfolding add_receipt save_locked get_grant
busy-Apart = record {
  budgeted = λ n s b. record { synced = refl; within = b.within };
  untouched = λ n s. refl;
}

enforce-Budgeted_example : Budgeted (enforce busy_world store headers (codes "openrouter")).0
enforce-Budgeted_example =
    enforce-Budgeted busy_world store headers (codes "openrouter") (λ e. cc) (λ e. cc) busy-Apart
      store-Budgeted

abbrev spent : Store → List ℤ
spent s = map (λ (g : Grant). g.pins.spend_policy.spent_cents) s.memory.grants

one_request : spent (enforce busy_world store headers (codes "openrouter")).0 ≡ pos 100 ∷ []
unfolding enforce enforce_cost enforce_found decide_request respond receipt_of signed request_of
    approval_of cost_of evaluate_action verdicts decide identity_pin authority_pin chain_pin
    leaf_pin listed_pin spend_pin approval_pin contains equal_fold runes trim_space text_eq any ◌+ℤ◌
    wrap64 get_grant find add_receipt save_locked sign_receipt signable new_receipt add_grant_spend
    change_grant change_found update_first
one_request = refl

-- Where another request at the same grant, which has read it too, spends in between, the two go over
-- the limit together.
over_limit_together :
    spent
      (enforce
        (record world {
          others = λ n s.
              if n == 3 then (add_grant_spend written s (codes "grt_1") (pos 60) 51).0 else s;
        })
        store
        headers
        (codes "openrouter")).0
    ≡ pos 160 ∷ []
unfolding enforce enforce_cost enforce_found decide_request respond receipt_of signed request_of
    approval_of cost_of evaluate_action verdicts decide identity_pin authority_pin chain_pin
    leaf_pin listed_pin spend_pin approval_pin contains equal_fold runes trim_space text_eq any ◌+ℤ◌
    wrap64 get_grant find add_receipt save_locked sign_receipt signable new_receipt add_grant_spend
    change_grant change_found update_first
over_limit_together = refl

abbrev approval : ApprovalRequest
approval = record {
  id = codes "apr_1";
  grant_id = codes "grt_1";
  receipt_id = codes "rcp_1";
  sub = codes "ck_sub_1";
  capability = codes "chat";
  data_class = codes "public";
  target = codes "openrouter";
  cost_cents = pos 60;
  status = pending;
  requested_at = 1;
  resolved_at = none;
  approver_sub = [];
  approver_attestation = none;
  reason = [];
}

abbrev attestation : IdentityAttestation
attestation = record {
  id = codes "att_1";
  subject = codes "ck_sub_9";
  issuer = codes "https://ck";
  audience = codes "21pins";
  method = codes "hosted_ck";
  issued_at = 1;
  expires_at = 99;
  key_id = codes "k9";
  signature = shift_up (1 ∷ codes "att_1");
}

abbrev asked : Store
asked = record {
  memory = record state { approvals = approval ∷ [] };
  disk = record state { approvals = approval ∷ [] };
}

abbrev answered : ApprovalRequest
answered = record approval {
  status = approved;
  approver_sub = codes "ck_sub_9";
  approver_attestation = some attestation;
  reason = codes "fine";
  resolved_at = some 7;
}

-- A grant that asks for an approval from a cost of 50 on, and a request with one.
abbrev strict_grant : Grant
strict_grant = record grant { pins = record (grant.pins) { threshold_cents = pos 50 } }

abbrev approval_store : Store
approval_store =
    let st : State = record {
      grants = strict_grant ∷ [];
      receipts = [];
      approvals = answered ∷ [];
    } in
    record { memory = st; disk = st }

abbrev trusting_world : World
trusting_world = record busy_world { public_key = λ _. some (codes "open") }

abbrev approved_headers : Headers
approved_headers = record headers { approval_id = codes "apr_1" }

enforce-Admitted_example :
    Admitted trusting_world approval_store approved_headers (codes "openrouter")
unfolding enforce enforce_cost enforce_found decide_request respond receipt_of signed request_of
    approval_of cost_of evaluate_action verdicts decide identity_pin authority_pin chain_pin
    leaf_pin listed_pin spend_pin approval_pin contains equal_fold runes trim_space text_eq any ◌+ℤ◌
    wrap64 get_grant find add_receipt save_locked sign_receipt signable new_receipt add_grant_spend
    change_grant change_found update_first get_approval matches_request is_attested verify_stored
    verify_attestation signable_attestation is_sub all contains_byte
enforce-Admitted_example =
    enforce-Admitted trusting_world approval_store approved_headers (codes "openrouter")
      {id = codes "rcp_1"} refl refl

abbrev answered_store : Store
answered_store = record {
  memory = record state { approvals = answered ∷ [] };
  disk = record state { approvals = answered ∷ [] };
}
