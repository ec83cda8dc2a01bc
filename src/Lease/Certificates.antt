-- ===== src/Lease/Certificates.antt =====
-- What holds where `Issue` gives a certificate.
pub mod Issued
use pins.Prelude.{
  ℕ, suc, ◌+◌, ◌-◌, ◌%◌, ◌^◌, ◌≤◌, ◌<◌, ◌≡◌, ◌≢◌, refl, sym, ap, ◌∙◌, inl, inr, Bool, true, false,
  not, ◌&&◌, List, [], ◌∷◌, ◌++◌, Option, none, some, arith, if◌then◌else◌, ltb, leb, ◌==◌,
  Bool-cases, Option-cases,
}
use pins.Go.Text.{Str, text_eq, text_eq_sound}
use pins.Go.Map.{lookup}
use pins.Lease.Types.{
  Disk, Actor, Role, Config, Lease, Time, Error, Result, ok, fail, IssueResult, SignRequest,
  is_active, active, second,
}
use pins.Lease.Config.{Env, duration_or_zero, public_fingerprint, scope_digest, role_of}
use pins.Lease.Transaction.{
  Moment, Outcome, commit, abort, settle, transaction, need, check, put, expire,
}
use pins.Lease.Issue.{
  Signing, valid_before, sign_request, force_of, issuable, still_valid, issuance, sign_and_record,
  reserve, issue_body, issue, truncate,
}

-- The certificate ends no later than the lease, and within each of the two lives.
pub valid_before-le :
    (env : Env) (c : Config) (r : Role) (l : Lease) (now : Time)
    → (valid_before env c r l now ≤ l.hard_expires_at)
      × (valid_before env c r l now ≤ now + duration_or_zero env c.cert_ttl)
      × (valid_before env c r l now ≤ now + duration_or_zero env r.max_cert_ttl)
unfolding valid_before
valid_before-le env c r l now = ground arith

-- A chain of checks that committed.
pub need_committed {ℓ κ} :
    {V : Type ℓ} {A : Type κ} {P : Type 0} (v : Option V) (d : Disk) (e : Error) (o : V → Outcome A)
    {saved d' : Disk} {r : A}
    → need v d e o ≡ commit saved d' r
    → ((a : V) → v ≡ some a → o a ≡ commit saved d' r → P)
    → P
unfolding need
need_committed none d e o h k = cc
need_committed (some a) d e o h k = k a refl h

pub check_committed {κ} :
    {A : Type κ} {P : Type 0} (b : Bool) (d : Disk) (e : Error) (o : Outcome A) {saved d' : Disk}
    {r : A}
    → check b d e o ≡ commit saved d' r
    → (b ≡ true → o ≡ commit saved d' r → P)
    → P
unfolding check
check_committed true d e o h k = k refl h
check_committed false d e o h k = cc

settle_committed {κ} :
    {A : Type κ} {d' : Disk} {r : A} (m : Moment) (o : Outcome A)
    → settle m o ≡ (d', ok r)
    → (saved : Disk) × (o ≡ commit saved d' r)
unfolding settle
settle_committed {d' = d'} {r = r} m (commit saved e a) h = elim (Bool-cases (m.can_save e)) [
  | inl s ↦
      let same : e ≡ d' = cc (ap (λ p. p.0) (rw s at h)) in
      let out : ok a ≡ ok r = cc (ap (λ p. p.1) (rw s at h)) in (saved, cc)
  | inr s ↦ cc (rw s at h)
]
settle_committed m (abort e x) h = cc

opened_committed {κ} :
    {A : Type κ} (opens : Bool) (m : Moment) (d : Disk) (o : Outcome A) {d' : Disk} {r : A}
    → (if opens then settle m o else (d, fail Error.unavailable)) ≡ (d', ok r)
    → (saved : Disk) × (o ≡ commit saved d' r)
opened_committed true m d o h = settle_committed m o h
opened_committed false m d o h = cc

-- A transaction that returned no error ran its function to the end, and saved.
pub transaction_committed {κ} :
    {A : Type κ} (m : Moment) (d : Disk) (body : Disk → Outcome A) {d' : Disk} {r : A}
    → transaction m d body ≡ (d', ok r)
    → (saved : Disk) × (body d ≡ commit saved d' r)
unfolding transaction
transaction_committed m d body h = opened_committed m.opens m d (body d) h

-- What `Issue` has seen to when it gives `out` and leaves `d'`.
pub record Certified (env : Env) (c : Config) (x : Signing) (m : Moment) (a : Actor) (id key : Str)
    (d d' : Disk) (out : IssueResult) : Type 0 where
  -- the lease is on disk, active, not past its hard expiry, and the actor's own
  pub found : lookup d.leases id ≡ some out.lease
  pub live : out.lease.status ≡ active
  pub in_window : m.now 0 < out.lease.hard_expires_at
  pub own : out.lease.requester_id ≡ a.id
  -- the certificate is for the key of the lease
  pub key_eq : public_fingerprint env key ≡ some out.lease.public_key_fingerprint
  -- before the signing the actor had the role and the authorization, and the policy was that of the
  -- lease; after it, the authorization and the policy were so still
  pub role : Role
  pub config_before : Config
  pub config_after : Config
  pub config_eq : (x.config_before ≡ some config_before) × (x.config_after ≡ some config_after)
  pub role_eq : role_of env config_before a out.lease.host_id out.lease.role_id ≡ some role
  pub policy_eq :
      (out.lease.policy_digest ≡ scope_digest env config_before out.lease.host_id out.lease.role_id)
      × (out.lease.policy_digest
          ≡ scope_digest env config_after out.lease.host_id out.lease.role_id)
  pub authorized : (m.authorize a ≡ true) × (x.authorize_after a ≡ true)
  -- the certificate ends no later than the lease does, and lives no longer than the configuration
  -- and the role let it; it has not ended after the signing
  pub within_lease : out.issuance.valid_before ≤ out.lease.hard_expires_at
  pub within_ttl : out.issuance.valid_before ≤ m.now 0 + duration_or_zero env c.cert_ttl
  pub within_role : out.issuance.valid_before ≤ m.now 0 + duration_or_zero env role.max_cert_ttl
  pub alive : (m.now 0 < out.issuance.valid_before) × (x.now_after < out.issuance.valid_before)
  -- its serial is the next one, which was not yet the last, and it is recorded
  pub serial_eq : (out.issuance.serial ≡ suc d.next_serial) × (d'.next_serial ≡ suc d.next_serial)
  pub room : d.next_serial ≢ 2 ^ 64 - 1
  pub recorded : d'.issuances ≡ d.issuances ++ out.issuance ∷ []
  -- what was signed: this key, the lease's principal, the role's permissions
  pub force : Str
  pub force_eq : force_of env out.lease role ≡ some force
  pub signed :
      (sign : SignRequest → Option Str) × (x.signer ≡ some sign)
      × (sign (
            sign_request env c id key out.lease role
              (suc d.next_serial)
              (m.now 0)
              out.issuance.valid_before
              force)
          ≡ some out.certificate)
