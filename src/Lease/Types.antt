-- ===== src/Lease/Types.antt =====
-- The types of internal/sshaccess/lease.go. An instant is the number of nanoseconds since Go's zero
-- time, a duration a number of nanoseconds, and a map the list of its entries.
use pins.Prelude.{ℕ, ◌*◌, ◌^◌, Bool, true, false, List, Option, if◌then◌else◌}
use pins.Go.Text.{Str}
use pins.Go.Map.{Map}
use pins.Command.Rules.{Authority}

abbrev pub Time : Type 0
Time = ℕ

abbrev pub second : ℕ
second = 10 ^ 9

abbrev pub minute : ℕ
minute = 60 * second

abbrev pub hour : ℕ
hour = 60 * minute

-- A `Status` is a string: `other` stands for one that is none of the constants.
pub data Status : Type 0 where
  pending active completed cancelled revoked expired : Status
  other : Str → Status

pub record Actor : Type 0 where
  pub id : Str
  pub name : Str
  pub can_approve : Bool

pub record Role : Type 0 where
  pub ssh_user : Str
  pub default_lease : Str
  pub max_lease : Str
  pub max_cert_ttl : Str
  pub requesters : Map Str
  pub requester_max_lease : Map Str
  pub explicit_approval : Bool
  pub permit_pty : Bool
  pub permit_port_forwarding : Bool
  pub permit_agent_forwarding : Bool
  pub permit_x11 : Bool
  pub command_authority : Option Authority

pub record Host : Type 0 where
  pub alias : Str
  pub jump_alias : Str
  pub roles : Map Role

pub record Ca : Type 0 where
  pub mode : Str
  pub public_key_file : Str
  pub secret_ref : Str
  pub agent_socket : Str
  pub fingerprint : Str

pub record Config : Type 0 where
  pub workspace : Str
  pub ca : Ca
  pub cert_ttl : Str
  pub renew_before : Str
  pub clock_skew : Str
  pub hosts : Map Host

pub record OpenRequest : Type 0 where
  pub host_id : Str
  pub role_id : Str
  pub agent_class : Str
  pub objective_id : Str
  pub purpose : Str
  pub estimated_duration : Str
  pub max_duration : Str
  pub public_key : Str

pub record Lease : Type 0 where
  pub id : Str
  pub workspace : Str
  pub requester_id : Str
  pub requester : Str
  pub agent_class : Str
  pub host_id : Str
  pub role_id : Str
  pub ssh_user : Str
  pub ssh_alias : Str
  pub ssh_jump_alias : Str
  pub renew_before : Str
  pub objective_id : Str
  pub purpose : Str
  pub public_key_fingerprint : Str
  pub principal : Str
  pub estimated_duration : Str
  pub policy_digest : Str
  pub opened_at : Time
  pub hard_expires_at : Time
  pub closed_at : Option Time
  pub status : Status
  pub termination_reason : Str
  pub approved_by : Str
  pub effective_policy : Role

pub record Issuance : Type 0 where
  pub lease_id : Str
  pub serial : ℕ
  pub fingerprint : Str
  pub valid_after : Time
  pub valid_before : Time
  pub issued_at : Time

pub record IssueResult : Type 0 where
  pub lease : Lease
  pub certificate : Str
  pub issuance : Issuance

pub record SignRequest : Type 0 where
  pub public_key : Str
  pub lease_id : Str
  pub serial : ℕ
  pub principal : Str
  pub key_id : Str
  pub valid_after : Time
  pub valid_before : Time
  pub force_command : Str
  pub permit_pty : Bool
  pub permit_port_forwarding : Bool
  pub permit_agent_forwarding : Bool
  pub permit_x11 : Bool

-- `diskState`
pub record Disk : Type 0 where
  pub next_serial : ℕ
  pub leases : Map Lease
  pub issuances : List Issuance

-- What `scopeDigest` hashes.
pub record Scope : Type 0 where
  pub workspace : Str
  pub host : Str
  pub role : Str
  pub alias : Str
  pub jump : Str
  pub policy : Role
  pub ca : Ca
  pub ttl : Str
  pub skew : Str

-- `ErrDenied`, and one constructor for each group of other errors.
pub data Error : Type 0 where
  denied invalid unavailable exhausted signer_unavailable signing_failed : Error

pub data Result {ℓ} (T : Type ℓ) : Type ℓ where
  fail : Error → Result T
  ok : T → Result T

-- An early return of an error, and the next statement.
infixl 5 ◌>>◌ ◌>>=◌
abbrev pub ◌>>=◌ {ℓ κ} : {S : Type ℓ} {T : Type κ} → Result S → (S → Result T) → Result T
fail why >>= next = fail why
ok s >>= next = next s

abbrev pub ◌>>◌ {ℓ} : {T : Type ℓ} → Result (Unit {0}) → Result T → Result T
test >> next = test >>= λ done. next

-- `if !passed { return why }`
abbrev pub guard : Bool → Error → Result (Unit {0})
guard passed why = if passed then ok tt else fail why

abbrev pub or_else {ℓ} : {A : Type ℓ} → Option A → Error → Result A
or_else o why = elim o [ Option.none ↦ fail why | Option.some a ↦ ok a ]

-- The lease may still be used: it is `Active` or `PendingApproval`.
abbrev pub is_open : Status → Bool
is_open active = true
is_open pending = true
is_open _ = false

abbrev pub is_active : Status → Bool
is_active active = true
is_active _ = false

abbrev pub is_pending : Status → Bool
is_pending pending = true
is_pending _ = false
