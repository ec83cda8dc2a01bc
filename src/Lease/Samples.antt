-- ===== src/Lease/Samples.antt =====
-- A small history of the service, and the theorems about leases at it.
use pins.Prelude.{
  ℕ, ◌*◌, ◌+◌, ◌≤◌, ◌≡◌, refl, true, false, [], ◌∷◌, ◌++◌, Option, none, some, ◌==◌, if◌then◌else◌,
  all,
}
use pins.Prelude.Int.{ℤ, pos}
use pins.Go.Text.{Str, codes, text_eq, contains_any, contains_byte, member}
use pins.Go.Utf8.{has_hidden}
use pins.Go.Map.{lookup, insert, text_at}
use pins.Command.Rules.{is_id}
use pins.Lease.Types.{
  Actor, Role, Config, OpenRequest, Lease, Disk, IssueResult, Time, minute, hour, ok,
}
use pins.Lease.Config.{
  Env, duration, duration_or_zero, public_fingerprint, host_at, scope_digest, role_of,
  skew_duration, validate_config,
}
use pins.Lease.Transaction.{Moment, empty, settle, transaction, need, check, expire}
use pins.Lease.Opening.{renew_window, new_lease, window_of, admit, open_body, open_lease}
use pins.Lease.Issue.{
  Signing, valid_before, valid_after, sign_request, force_of, issuable, final_valid, still_valid,
  issuance, sign_and_record, reserve, issue_body, issue_for, issue,
}
use pins.Lease.Calls.{opens, issues, step, Run, start, next}
use pins.Lease.Certificates.{Certified}
use pins.Lease.Certificates.Issued.{issue-Certified}
use pins.Lease.Audit.{Audited, Run-Audited}

-- Durations are told apart by their first byte.
abbrev durations : Str → Option ℤ
durations [] = none
durations (c ∷ _) =
    if c == b'4'
    then some (pos (4 * hour))
    else if c == b'8'
    then some (pos (8 * hour))
    else if c == b'9'
    then some (pos (9 * minute))
    else if c == b'2'
    then some (pos (2 * minute))
    else if c == b'1'
    then some (pos minute)
    else none

abbrev key_bytes : Str
key_bytes =
    0
    ∷ 0
    ∷ 0
    ∷ 11
    ∷ (codes "ssh-ed25519" ++ 0 ∷ 0 ∷ 0 ∷ 32 ∷ codes "0123456789abcdef0123456789abcdef")

abbrev pub env : Env
env = record {
  parse_duration = durations;
  format_duration = λ _. codes "3m0s";
  fields = λ _. codes "ssh-ed25519" ∷ codes "AAAA" ∷ [];
  decode64 = λ _. some key_bytes;
  raw_encode64 = λ _. codes "hash";
  sha256 = λ s. s;
  digest_scope = λ s. s.host;
  digest_rules = λ _. [];
}

abbrev pub observe : Role
observe = record {
  ssh_user = codes "agent";
  default_lease = codes "4h";
  max_lease = codes "8h";
  max_cert_ttl = codes "9m";
  requesters = (codes "pi", codes "preapproved") ∷ [];
  requester_max_lease = [];
  explicit_approval = false;
  permit_pty = true;
  permit_port_forwarding = false;
  permit_agent_forwarding = false;
  permit_x11 = false;
  command_authority = none;
}

abbrev pub config : Config
config = record {
  workspace = codes "home";
  ca = record {
    mode = codes "dev";
    public_key_file = [];
    secret_ref = [];
    agent_socket = [];
    fingerprint = [];
  };
  cert_ttl = codes "9m";
  renew_before = codes "2m";
  clock_skew = codes "1m";
  hosts =
      (
        codes "vm220",
        record { alias = codes "vm220"; jump_alias = []; roles = (codes "observe", observe) ∷ [] },
      )
      ∷ [];
}

config_valid : validate_config env config ≡ true
unfolding validate_config skew_duration duration is_id text_at lookup text_eq member all
config_valid = refl

abbrev pub agent : Actor
agent = record { id = codes "hash-of-token"; name = codes "pi"; can_approve = false }

abbrev pub key : Str
key = codes "ssh-ed25519 AAAA"

abbrev pub question : OpenRequest
question = record {
  host_id = codes "vm220";
  role_id = codes "observe";
  agent_class = codes "coding";
  objective_id = codes "obj-1";
  purpose = codes "look at the logs";
  estimated_duration = [];
  max_duration = [];
  public_key = key;
}

abbrev pub at : ℕ → Moment
at t = record { now = λ _. t; opens = true; can_save = λ _. true; authorize = λ _. true }

abbrev pub id : Str
id = codes "0f0f"

abbrev pub certificate : Str
certificate = codes "ssh-ed25519-cert-v01@openssh.com x"

abbrev pub signing : ℕ → Signing
signing t = record {
  config_before = some config;
  config_after = some config;
  signer = some (λ _. some certificate);
  can_reserve = λ _. true;
  now_after = t;
  authorize_after = λ _. true;
}

abbrev pub opened_time : Time
opened_time = 1000 * hour

abbrev pub opened : Disk
opened = step env config (at opened_time) (opens agent question id) empty

abbrev pub used : Disk
used =
    step env config (at (opened_time + minute))
      (issues (signing (opened_time + minute)) agent id key) opened

Run-opened : Run env config empty opened
Run-opened = next start (at opened_time) (opens agent question id) (unfold lookup in refl) refl

Run-used : Run env config opened used
Run-used =
    next start (at (opened_time + minute)) (issues (signing (opened_time + minute)) agent id key) tt
      refl

Run-Audited_example : Audited used × (opened.next_serial ≤ used.next_serial)
Run-Audited_example = Run-Audited env config opened used Run-opened Run-used

abbrev pub issued_time : Time
issued_time = opened_time + minute

abbrev granted : Lease
granted =
    new_lease env config agent question observe (codes "SHA256:hash") (4 * hour) id opened_time

abbrev out : IssueResult
out = record {
  lease = granted;
  certificate = certificate;
  issuance = issuance env config id 1 certificate issued_time (issued_time + 9 * minute);
}

issue_granted :
    issue env config (signing issued_time) (at issued_time) opened agent id key ≡ (used, ok out)
unfolding step open_lease admit window_of public_fingerprint contains_any contains_byte text_eq
    is_id all has_hidden role_of lookup text_at duration duration_or_zero transaction settle
    open_body new_lease insert host_at scope_digest renew_window issue issue_body need check expire
    issuable reserve valid_before sign_and_record force_of sign_request valid_after still_valid
    final_valid issue_for issuance
issue_granted = refl

issue-Certified_example :
    Certified env config (signing issued_time) (at issued_time) agent id key opened used out
issue-Certified_example =
    issue-Certified env config (signing issued_time) (at issued_time) agent id key opened used out
      issue_granted
