-- ===== src/Lease/Certificates/Issued.antt =====
-- The certificates that `Issue` of internal/sshaccess/lease.go gives.
use pins.Prelude.{
  suc, ◌-◌, ◌^◌, ◌<◌, ◌≡◌, ◌≢◌, refl, sym, ap, subst, ◌∙◌, true, not, ◌&&◌, Option, none, some,
  arith, ltb, ◌==◌, bind_cases, guard_cases, ltb→lt,
}
use pins.Go.Text.{Str, text_eq, text_eq_sound}
use pins.Go.Map.{lookup}
use pins.Lease.Types.{Disk, Actor, Role, Config, Lease, Time, ok, IssueResult, is_active, active}
use pins.Lease.Config.{Env, public_fingerprint, scope_digest, role_of}
use pins.Lease.Transaction.{Moment, Outcome, commit, abort, put, expire}
use pins.Lease.Issue.{
  Signing, valid_before, sign_request, force_of, issuable, still_valid, final_valid, issuance,
  sign_and_record, reserve, issue_body, issue, issue_for,
}
use pins.Lease.Certificates.{
  Certified, valid_before-le, need_committed, check_committed, transaction_committed,
}

-- The tests before the serial is reserved.
record Issuable (env : Env) (x : Signing) (m : Moment) (a : Actor) (fp : Str) (l : Lease) (r : Role)
    : Type 0 where
  live : l.status ≡ active
  key_eq : l.public_key_fingerprint ≡ fp
  config_before : Config
  config_eq : x.config_before ≡ some config_before
  role_eq : role_of env config_before a l.host_id l.role_id ≡ some r
  policy_eq : l.policy_digest ≡ scope_digest env config_before l.host_id l.role_id
  authorized : m.authorize a ≡ true

issuable-Issuable :
    (env : Env) (x : Signing) (m : Moment) (a : Actor) (fp : Str) (l : Lease) (r : Role)
    → issuable env x m a fp l ≡ some r
    → Issuable env x m a fp l r
unfolding issuable
issuable-Issuable env x m a fp l r h =
    guard_cases (is_active l.status && text_eq l.public_key_fingerprint fp) _ h λ t h₁.
      bind_cases x.config_before _ h₁ λ current e h₂.
        bind_cases (role_of env current a l.host_id l.role_id) _ h₂ λ r' role h₃.
          guard_cases
            (m.authorize a
              && text_eq l.policy_digest (scope_digest env current l.host_id l.role_id))
            _ h₃
            λ u h₄. record {
              live = ground arith;
              key_eq = ground (arith, text_eq_sound l.public_key_fingerprint fp);
              config_before = current;
              config_eq = e;
              role_eq = role ∙ h₄;
              policy_eq = ground (
                arith,
                text_eq_sound l.policy_digest (scope_digest env current l.host_id l.role_id),
              );
              authorized = ground arith;
            }

-- The tests after the signing.
record StillValid (env : Env) (x : Signing) (a : Actor) (l : Lease) (before : Time) : Type 0 where
  config_after : Config
  config_eq : x.config_after ≡ some config_after
  policy_eq : l.policy_digest ≡ scope_digest env config_after l.host_id l.role_id
  authorized : x.authorize_after a ≡ true
  alive : x.now_after < before

final_valid-StillValid :
    (env : Env) (x : Signing) (a : Actor) (l : Lease) (before : Time) (o : Option Config)
    → x.config_after ≡ o
    → final_valid env x a l before o ≡ true
    → StillValid env x a l before
unfolding final_valid
final_valid-StillValid env x a l before none e h = cc
final_valid-StillValid env x a l before (some final) e h = record {
  config_after = final;
  config_eq = e;
  policy_eq =
      ground (arith, text_eq_sound l.policy_digest (scope_digest env final l.host_id l.role_id));
  authorized = ground arith;
  alive = ground arith;
}

-- A lease that is active after `expire` is the one before it, and has not run out.
expire-active :
    (l : Lease) (t : Time)
    → (expire l t).status ≡ active
    → (expire l t ≡ l) × (t < l.hard_expires_at)
unfolding expire
expire-active l t h = ground arith

-- A statement about what was committed, carried along an equation of outcomes.
abbrev Holds {κ} : {A : Type κ} → (Disk → A → Type 0) → Outcome A → Type 0
Holds P (commit saved d a) = P d a
Holds P (abort d e) = Unit

module _ (env : Env) (c : Config) (x : Signing) (m : Moment) (a : Actor) (id key : Str)
    (d : Disk) where
  -- From the signing on.
  signed-Certified :
      {saved : Disk} (l : Lease) (fp : Str) (r : Role) (d' : Disk) (out : IssueResult)
      → lookup d.leases id ≡ some l
      → l.requester_id ≡ a.id
      → m.now 0 < l.hard_expires_at
      → public_fingerprint env key ≡ some fp
      → Issuable env x m a fp l r
      → m.now 0 < valid_before env c r l (m.now 0)
      → d.next_serial ≢ 2 ^ 64 - 1
      → sign_and_record env c x m a id key l r
          (valid_before env c r l (m.now 0))
          (record (put d id l) { next_serial = suc d.next_serial })
        ≡ commit saved d' out
      → Certified env c x m a id key d d' out
  unfolding sign_and_record issuance still_valid
  signed-Certified l fp r d' out found own in_window key_eq ready alive room h =
      let before = valid_before env c r l (m.now 0) in
      let e : Disk = record (put d id l) { next_serial = suc d.next_serial } in
      need_committed x.signer e _ _ h λ sign signer h₁.
        need_committed (force_of env l r) e _ _ h₁ λ force forced h₂.
          need_committed
            (sign (sign_request env c id key l r (suc d.next_serial) (m.now 0) before force)) e _ _
            h₂
            λ cert signed h₃. check_committed (still_valid env x a l before) e _ _ h₃ λ valid h₄.
              let bounds = valid_before-le env c r l (m.now 0) in
              let after = final_valid-StillValid env x a l before x.config_after refl valid in
              subst (Holds (Certified env c x m a id key d)) h₄ (record {
                found = found;
                live = ready.live;
                in_window = in_window;
                own = own;
                key_eq = key_eq ∙ ap some (sym ready.key_eq);
                role = r;
                config_before = ready.config_before;
                config_after = after.config_after;
                config_eq = (ready.config_eq, after.config_eq);
                role_eq = ready.role_eq;
                policy_eq = (ready.policy_eq, after.policy_eq);
                authorized = (ready.authorized, after.authorized);
                within_lease = bounds.0;
                within_ttl = bounds.1;
                within_role = bounds.2;
                alive = (alive, after.alive);
                serial_eq = (refl, refl);
                room = room;
                recorded = refl;
                force = force;
                force_eq = forced;
                signed = (sign, signer, signed);
              })

  reserved-Certified :
      {saved : Disk} (l : Lease) (fp : Str) (r : Role) (d' : Disk) (out : IssueResult)
      → lookup d.leases id ≡ some l
      → l.requester_id ≡ a.id
      → m.now 0 < l.hard_expires_at
      → public_fingerprint env key ≡ some fp
      → Issuable env x m a fp l r
      → reserve env c x m a id key l r d ≡ commit saved d' out
      → Certified env c x m a id key d d' out
  unfolding reserve
  reserved-Certified l fp r d' out found own in_window key_eq ready h =
      let before = valid_before env c r l (m.now 0) in
      let e : Disk = record (put d id l) { next_serial = suc d.next_serial } in
      check_committed (ltb (m.now 0) before) d _ _ h λ alive h₁.
        check_committed (not (d.next_serial == 2 ^ 64 - 1)) d _ _ h₁ λ room h₂.
          check_committed (x.can_reserve e) d _ _ h₂ λ _ h₃.
            signed-Certified l fp r d' out found own in_window key_eq ready
              (ltb→lt (m.now 0) before alive) (ground arith) h₃

  body-Certified :
      {saved : Disk} (fp : Str) (d' : Disk) (out : IssueResult)
      → public_fingerprint env key ≡ some fp
      → issue_body env c x m a id key fp d ≡ commit saved d' out
      → Certified env c x m a id key d d' out
  unfolding issue_body
  body-Certified fp d' out key_eq h = need_committed (lookup d.leases id) d _ _ h λ l₀ found h₁.
      check_committed (text_eq l₀.requester_id a.id) d _ _ h₁ λ own h₂.
        let l = expire l₀ (m.now 0) in
        need_committed (issuable env x m a fp l) d _ _ h₂ λ r ready h₃.
          let ready' = issuable-Issuable env x m a fp l r ready in
          let (same, in_window) = expire-active l₀ (m.now 0) ready'.live in
          reserved-Certified l fp r d' out (found ∙ ap some (sym same))
            (ap (λ (y : Lease). y.requester_id) same ∙ text_eq_sound l₀.requester_id a.id own)
            (subst (λ (y : Lease). m.now 0 < y.hard_expires_at) (sym same) in_window) key_eq ready'
            h₃

  issue_for-Certified :
      (o : Option Str) (d' : Disk) (out : IssueResult)
      → public_fingerprint env key ≡ o
      → issue_for env c x m d a id key o ≡ (d', ok out)
      → Certified env c x m a id key d d' out
  unfolding issue_for
  issue_for-Certified none d' out e h = cc
  issue_for-Certified (some fp) d' out e h =
      body-Certified fp d' out e (transaction_committed m d (issue_body env c x m a id key fp) h).1

  -- If `Issue` gives a certificate, the lease on disk is active, not past its hard expiry and the
  -- actor's own, and the key is the lease's; before and after the signing, under the configuration
  -- then in force, the actor is authorized and the policy is that of the lease, and the actor has
  -- the role before; the certificate ends no later than the lease, within the life that the
  -- configuration and the role allow from the first reading of the clock, and after both readings; it carries the next serial, which is reserved and recorded; and what was signed is this
  -- key, for the lease's principal and with the role's permissions and forced command.
  pub issue-Certified :
      (d' : Disk) (out : IssueResult)
      → issue env c x m d a id key ≡ (d', ok out)
      → Certified env c x m a id key d d' out
  unfolding issue
  issue-Certified d' out h = issue_for-Certified (public_fingerprint env key) d' out refl h
