-- ===== src/Lease/Issue.antt =====
-- `Issue` of internal/sshaccess/lease.go, which signs a short certificate for an active lease.
use pins.Prelude.{
  ℕ, suc, ◌+◌, ◌-◌, ◌%◌, ◌^◌, Bool, false, not, ◌&&◌, [], ◌∷◌, ◌++◌, Option, none, some, ltb, ◌==◌,
  if◌then◌else◌, ◌>>=◌, ◌>>◌, guard,
}
use pins.Prelude.Int.{pos, negsuc}
use pins.Go.Text.{Str, codes, text_eq}
use pins.Go.Map.{lookup}
use pins.Command.Roles.{forced_command}
use pins.Lease.Types.{
  Time, second, Actor, Role, Config, Lease, Issuance, IssueResult, SignRequest, Disk, denied,
  invalid, unavailable, exhausted, signer_unavailable, signing_failed, Result, fail, is_active,
}
use pins.Lease.Config.{Env, duration_or_zero, public_fingerprint, scope_digest, role_of}
use pins.Lease.Transaction.{Moment, Outcome, commit, transaction, need, check, put, expire}

-- What `Issue` meets beyond a `Moment`: what a reload of the configuration gives before and after
-- the signing (the service's own configuration where it is not live), the signer, which may be
-- missing or fail, whether the reserved serial can be saved, and the clock and `Authorize` after
-- the signing.
pub record Signing : Type 0 where
  pub config_before : Option Config
  pub config_after : Option Config
  pub signer : Option (SignRequest → Option Str)
  pub can_reserve : Disk → Bool
  pub now_after : Time
  pub authorize_after : Actor → Bool

-- `t.Truncate(time.Second)`
abbrev pub truncate : Time → Time
truncate t = t - t % second

-- When the certificate ends: after the shorter of the two lives, and no later than the lease.
unfoldable pub valid_before : Env → Config → Role → Lease → Time → Time
valid_before env c r l now =
    let ttl = duration_or_zero env c.cert_ttl in
    let cap = duration_or_zero env r.max_cert_ttl in
    let before = truncate (now + (if ltb cap ttl then cap else ttl)) in
    if ltb l.hard_expires_at before then truncate l.hard_expires_at else before

-- `now.Add(-skew)`
unfoldable pub valid_after : Env → Config → Time → Time
valid_after env c now = elim (env.parse_duration c.clock_skew) [
  | none ↦ now
  | some (pos d) ↦ now - d
  | some (negsuc n) ↦ now + suc n
]

unfoldable pub sign_request :
    Env → Config → Str → Str → Lease → Role → ℕ → Time → Time → Str → SignRequest
sign_request env c id key l r serial now before force = record {
  public_key = key;
  lease_id = id;
  serial = serial;
  principal = l.principal;
  key_id =
      codes "21pins:" ++ (id ++ (codes ":" ++ (l.agent_class ++ (codes ":" ++ l.objective_id))));
  valid_after = valid_after env c now;
  valid_before = before;
  force_command = force;
  permit_pty = r.permit_pty;
  permit_port_forwarding = r.permit_port_forwarding;
  permit_agent_forwarding = r.permit_agent_forwarding;
  permit_x11 = r.permit_x11;
}

-- The forced command of a gated role, `""` for a role with no gate, and `none` for an error.
unfoldable pub force_of : Env → Lease → Role → Option Str
force_of env l r = elim r.command_authority [
  | none ↦ some []
  | some a ↦ forced_command env.digest_rules a l.workspace l.host_id l.role_id l.ssh_user
]

-- The tests before the serial is reserved: the role under the configuration that is then in force.
unfoldable pub issuable : Env → Signing → Moment → Actor → Str → Lease → Option Role
issuable env x m a fp l = do
  guard (is_active l.status && text_eq l.public_key_fingerprint fp)
  current ← x.config_before
  r ← role_of env current a l.host_id l.role_id
  guard (m.authorize a && text_eq l.policy_digest (scope_digest env current l.host_id l.role_id))
  some r

-- The tests after the signing, under the configuration that is then in force.
unfoldable pub final_valid : Env → Signing → Actor → Lease → Time → Option Config → Bool
final_valid env x a l before none = false
final_valid env x a l before (some final) =
    ltb x.now_after before
    && x.authorize_after a
    && text_eq l.policy_digest (scope_digest env final l.host_id l.role_id)

unfoldable pub still_valid : Env → Signing → Actor → Lease → Time → Bool
unfolding final_valid
still_valid env x a l before = final_valid env x a l before x.config_after

unfoldable pub issuance : Env → Config → Str → ℕ → Str → Time → Time → Issuance
issuance env c id serial cert now before = record {
  lease_id = id;
  serial = serial;
  fingerprint = codes "SHA256:" ++ env.raw_encode64 (env.sha256 cert);
  valid_after = valid_after env c now;
  valid_before = before;
  issued_at = now;
}

-- From the signing on; `d` holds the reserved serial and is on disk.
unfoldable pub sign_and_record :
    Env
    → Config
    → Signing
    → Moment
    → Actor
    → Str
    → Str
    → Lease
    → Role
    → Time
    → Disk
    → Outcome IssueResult
sign_and_record env c x m a id key l r before d = need x.signer d signer_unavailable λ sign.
    need (force_of env l r) d denied λ force.
      need (sign (sign_request env c id key l r d.next_serial (m.now 0) before force)) d
        signing_failed
        λ cert. check (still_valid env x a l before) d denied (
          let i = issuance env c id d.next_serial cert (m.now 0) before in
          commit d (record d { issuances = d.issuances ++ i ∷ [] })
            (record { lease = l; certificate = cert; issuance = i }))

-- The serial is reserved and saved before the signing, so that none is ever used twice. `d` is what
-- is on disk before.
unfoldable pub reserve :
    Env → Config → Signing → Moment → Actor → Str → Str → Lease → Role → Disk → Outcome IssueResult
reserve env c x m a id key l r d =
    let before = valid_before env c r l (m.now 0) in
    let d' = record (put d id l) { next_serial = suc d.next_serial } in
    check (ltb (m.now 0) before) d denied (
      check (not (d.next_serial == 2 ^ 64 - 1)) d exhausted
        (check (x.can_reserve d') d unavailable (sign_and_record env c x m a id key l r before d')))

-- The function that `Issue` runs in its transaction.
unfoldable pub issue_body :
    Env → Config → Signing → Moment → Actor → Str → Str → Str → Disk → Outcome IssueResult
issue_body env c x m a id key fp d = need (lookup d.leases id) d denied λ l.
    check (text_eq l.requester_id a.id) d denied (
      let l' = expire l (m.now 0) in
      need (issuable env x m a fp l') d denied λ r. reserve env c x m a id key l' r d)

-- `Issue`, and its transaction under the fingerprint of the key.
unfoldable pub issue_for :
    Env
    → Config
    → Signing
    → Moment
    → Disk
    → Actor
    → Str
    → Str
    → Option Str
    → Disk × Result IssueResult
issue_for env c x m d a id key none = (d, fail invalid)
issue_for env c x m d a id key (some fp) = transaction m d (issue_body env c x m a id key fp)

unfoldable pub issue :
    Env → Config → Signing → Moment → Disk → Actor → Str → Str → Disk × Result IssueResult
unfolding issue_for
issue env c x m d a id key = issue_for env c x m d a id key (public_fingerprint env key)
