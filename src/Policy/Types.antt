-- ===== src/Policy/Types.antt =====
-- The types of internal/policy/types.go. An instant is a count of nanoseconds, an `int64` an
-- integer, whose arithmetic wraps around where it is computed.
use pins.Prelude.{ℕ, Bool, List, Option}
use pins.Prelude.Int.{ℤ}
use pins.Go.Text.{Str}
use pins.Go.Map.{Map}

abbrev pub Time : Type 0
Time = ℕ

pub data GrantStatus : Type 0 where
  active revoked expired : GrantStatus

pub record IdentityAttestation : Type 0 where
  pub id : Str
  pub subject : Str
  pub issuer : Str
  pub audience : Str
  pub method : Str
  pub issued_at : Time
  pub expires_at : Time
  pub key_id : Str
  pub signature : Str

pub record SpendPolicyPin : Type 0 where
  pub limit_cents : ℤ
  pub spent_cents : ℤ
  pub window_start : Time
  pub window_end : Time

-- `Pins`; a pin with one field is that field.
pub record Pins : Type 0 where
  pub identity_sub : Str
  pub chain : List Str
  pub allowed : List Str
  pub allowed_classes : List Str
  pub spend_policy : SpendPolicyPin
  pub allowed_targets : List Str
  pub threshold_cents : ℤ

pub record Grant : Type 0 where
  pub id : Str
  pub sub : Str
  pub status : GrantStatus
  pub delegated_by : Str
  pub pins : Pins
  pub created_at : Time
  pub updated_at : Time
  pub revoked_at : Option Time
  pub identity_attestation : Option IdentityAttestation

pub data PinStatus : Type 0 where
  pass fail requires_approval : PinStatus

-- `undecided` is the zero value, the decision of an empty receipt.
pub data Decision : Type 0 where
  allow block require_approval undecided : Decision

pub record ActionRequest : Type 0 where
  pub grant_id : Str
  pub sub : Str
  pub capability : Str
  pub data_class : Str
  pub target : Str
  pub cost_cents : ℤ
  pub approval_id : Str
  pub approval_granted : Bool

pub record EvaluationResult : Type 0 where
  pub decision : Decision
  pub pin_states : Map PinStatus
  pub reasons : Map Str

pub record Receipt : Type 0 where
  pub id : Str
  pub grant_id : Str
  pub sub : Str
  pub authority : List Str
  pub pin_states : Map PinStatus
  pub decision : Decision
  pub capability : Str
  pub data_class : Str
  pub target : Str
  pub cost_cents : ℤ
  pub approval_ref : Str
  pub identity_attestation_id : Str
  pub created_at : Time
  pub key_id : Str
  pub signature : Str

pub data ApprovalStatus : Type 0 where
  pending approved rejected : ApprovalStatus

pub record ApprovalRequest : Type 0 where
  pub id : Str
  pub grant_id : Str
  pub receipt_id : Str
  pub sub : Str
  pub capability : Str
  pub data_class : Str
  pub target : Str
  pub cost_cents : ℤ
  pub status : ApprovalStatus
  pub requested_at : Time
  pub resolved_at : Option Time
  pub approver_sub : Str
  pub approver_attestation : Option IdentityAttestation
  pub reason : Str
