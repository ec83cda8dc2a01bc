-- ===== src/Lease/Opening.antt =====
-- `Open` of internal/sshaccess/lease.go.
use Prim.Native.Nat.{◌/◌}
use pins.Prelude.{
  ℕ, ◌+◌, Bool, not, ◌&&◌, ◌||◌, [], ◌∷◌, ◌++◌, Option, none, some, leb, ltb, if◌then◌else◌, length,
  is_some,
}
use pins.Go.Text.{Str, codes, text_eq, is_empty}
use pins.Go.Utf8.{has_hidden}
use pins.Go.Map.{Map, text_at}
use pins.Command.Rules.{is_id}
use pins.Lease.Types.{
  Time, pending, active, Actor, Role, Config, OpenRequest, Lease, Disk, denied, invalid, Result, ok,
  fail, ◌>>=◌, ◌>>◌, guard, or_else, is_open,
}
use pins.Lease.Config.{
  Env, duration, duration_or_zero, public_fingerprint, host_at, scope_digest, role_of,
}
use pins.Lease.Transaction.{Moment, Outcome, commit, transaction, check, put}

-- The first lease of the loop with this key.
pub with_key : Map Lease → Str → Option Lease
with_key [] fp = none
with_key ((id, l) ∷ rest) fp =
    if text_eq l.public_key_fingerprint fp then some l else with_key rest fp

-- The request is the one that the lease was opened for, and the lease is still open.
unfoldable pub same_request : Actor → OpenRequest → Str → Time → Lease → Bool
same_request a q digest now l =
    text_eq l.requester_id a.id
    && text_eq l.host_id q.host_id
    && text_eq l.role_id q.role_id
    && text_eq l.objective_id q.objective_id
    && text_eq l.purpose q.purpose
    && text_eq l.agent_class q.agent_class
    && text_eq l.policy_digest digest
    && is_open l.status
    && ltb now l.hard_expires_at

-- The window in which a certificate is renewed.
unfoldable pub renew_window : Env → Config → Role → ℕ
renew_window env c r =
    let ttl = duration_or_zero env c.cert_ttl in
    let shortest : ℕ = elim (duration env r.max_cert_ttl) [
      | none ↦ ttl
      | some ceiling ↦ if ltb ceiling ttl then ceiling else ttl
    ] in
    let window = duration_or_zero env c.renew_before in
    if leb shortest window then shortest / 3 else window

abbrev pub principal : Config → OpenRequest → Str
principal c q =
    codes "21pins:" ++ (c.workspace ++ (codes ":" ++ (q.host_id ++ (codes ":" ++ q.role_id))))

-- The lease that `Open` makes.
unfoldable pub new_lease : Env → Config → Actor → OpenRequest → Role → Str → ℕ → Str → Time → Lease
new_lease env c a q r fp window fresh now =
    let preapproved =
      text_eq (text_at r.requesters a.name) (codes "preapproved") && not r.explicit_approval in
    let host = host_at env c q.host_id in
    record {
      id = fresh;
      workspace = c.workspace;
      requester_id = a.id;
      requester = a.name;
      agent_class = q.agent_class;
      host_id = q.host_id;
      role_id = q.role_id;
      ssh_user = r.ssh_user;
      ssh_alias = host.alias;
      ssh_jump_alias = host.jump_alias;
      renew_before = env.format_duration (renew_window env c r);
      objective_id = q.objective_id;
      purpose = q.purpose;
      public_key_fingerprint = fp;
      principal = principal c q;
      estimated_duration = q.estimated_duration;
      policy_digest = scope_digest env c q.host_id q.role_id;
      opened_at = now;
      hard_expires_at = now + window;
      closed_at = none;
      status = if preapproved then active else pending;
      termination_reason = [];
      approved_by = [];
      effective_policy = r;
    }

abbrev request_ok : OpenRequest → Bool
request_ok q =
    is_id q.agent_class
    && is_id q.objective_id
    && leb 1 (length q.purpose)
    && leb (length q.purpose) 256
    && not (has_hidden q.purpose)

-- The duration of the lease: the role's default, or what is asked for up to the role's maximum.
unfoldable pub window_of : Env → Role → Str → Result ℕ
window_of env r asked =
    if is_empty asked
    then ok (duration_or_zero env r.default_lease)
    else elim (duration env asked) [
      | none ↦ fail denied
      | some d ↦ if leb d (duration_or_zero env r.max_lease) then ok d else fail denied
    ]

abbrev estimate_ok : Env → Str → Bool
estimate_ok env v = is_some (duration env v)

-- The checks of `Open` before its transaction: the key's fingerprint, the role and the window.
unfoldable pub admit : Env → Config → Actor → OpenRequest → Result (Str × Role × ℕ)
admit env c a q = do
  fp ← or_else (public_fingerprint env q.public_key) invalid
  guard (request_ok q) invalid
  r ← or_else (role_of env c a q.host_id q.role_id) denied
  window ← window_of env r q.max_duration
  guard (is_empty q.estimated_duration || estimate_ok env q.estimated_duration) invalid
  ok (fp, r, window)

-- The function that `Open` runs in its transaction: a lease with this key is the answer to the same
-- request, and denies any other.
unfoldable pub open_body :
    Env → Config → Moment → Actor → OpenRequest → Str → Str × Role × ℕ → Disk → Outcome Lease
open_body env c m a q fresh (fp, r, window) d = elim (with_key d.leases fp) [
  | some l ↦
      check (same_request a q (scope_digest env c q.host_id q.role_id) (m.now 0) l) d denied
        (commit d d l)
  | none ↦ let l = new_lease env c a q r fp window fresh (m.now 0) in commit d (put d fresh l) l
]

-- `Open`; `fresh` is what `randomID` gives.
unfoldable pub open_lease :
    Env → Config → Moment → Disk → Actor → OpenRequest → Str → Disk × Result Lease
unfolding with_key
open_lease env c m d a q fresh = elim (admit env c a q) [
  | fail e ↦ (d, fail e)
  | ok admitted ↦ transaction m d (open_body env c m a q fresh admitted)
]
