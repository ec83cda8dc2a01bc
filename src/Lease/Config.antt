-- ===== src/Lease/Config.antt =====
-- `duration`, `validateConfig`, `PublicFingerprint`, `scopeDigest` and `Service.role` of
-- internal/sshaccess/lease.go. `none` is an error, and a validation is true where its error is nil.
use pins.Prelude.{
  ℕ, ◌*◌, Bool, true, false, not, ◌&&◌, ◌||◌, List, [], ◌∷◌, ◌++◌, Option, none, some, leb, ltb,
  ◌==◌, if◌then◌else◌, length, all, ◌>>=◌, ◌>>◌, guard,
}
use pins.Prelude.Int.{ℤ, pos, negsuc}
use pins.Go.Text.{Str, codes, text_eq, contains_any, is_empty, member}
use pins.Go.Map.{Map, lookup, text_at}
use pins.Command.Rules.{Rule, Authority, is_id, validate_authority}
use pins.Lease.Types.{minute, hour, Actor, Role, Host, Ca, Config, Scope}

-- The functions of Go's standard library that the service calls and that are not modelled further:
-- `time.ParseDuration`, `Duration.String`, `strings.Fields`, standard base64, SHA-256 of bytes, and
-- the hexadecimal SHA-256 of the JSON of a scope and of a list of rules.
pub record Env : Type 0 where
  pub parse_duration : Str → Option ℤ
  pub format_duration : ℕ → Str
  pub fields : Str → List Str
  pub decode64 : Str → Option Str
  pub raw_encode64 : Str → Str
  pub sha256 : Str → Str
  pub digest_scope : Scope → Str
  pub digest_rules : List Rule → Str

module _ (env : Env) where
  -- `duration`: positive and at most thirty days.
  unfoldable pub duration : Str → Option ℕ
  duration v = elim (env.parse_duration v) [
    | none ↦ none
    | some (negsuc _) ↦ none
    | some (pos d) ↦ if leb 1 d && leb d (30 * (24 * hour)) then some d else none
  ]

  -- `max, _ := duration(v)`
  unfoldable pub duration_or_zero : Str → ℕ
  duration_or_zero v = elim (duration v) [ none ↦ 0 | some d ↦ d ]

  -- The clock skew that `validateConfig` admits.
  unfoldable pub skew_duration : Str → Option ℕ
  skew_duration v = elim (env.parse_duration v) [
    | none ↦ none
    | some (negsuc _) ↦ none
    | some (pos d) ↦ if leb d (2 * minute) then some d else none
  ]

  abbrev is_some_le : ℕ → Option ℕ → Bool
  is_some_le bound none = false
  is_some_le bound (some d) = leb d bound

  ceiling_ok : Role → ℕ → Str × Str → Bool
  unfolding text_at
  ceiling_ok r max (user, v) =
      is_some_le max (duration v) && not (is_empty (text_at r.requesters user))

  requester_ok : Role → Str × Str → Bool
  requester_ok r (user, mode) =
      is_id user
      && member mode (codes "approval" ∷ codes "preapproved" ∷ [])
      && (not (text_eq r.ssh_user (codes "root")) || r.explicit_approval)

  -- The part of the loop over the roles that asks for one role alone, but for its command authority.
  pub role_ok : Str × Role → Bool
  unfolding ceiling_ok requester_ok
  role_ok (name, r) = is_id name && is_id r.ssh_user && elim (duration r.max_lease) [
    | none ↦ false
    | some max ↦
        is_some_le max (duration r.default_lease)
        && is_some_le max (duration r.max_cert_ttl)
        && all (ceiling_ok r max) r.requester_max_lease
        && all (requester_ok r) r.requesters
  ]

  abbrev same_gate : Option Authority → Authority → Bool
  same_gate none a = true
  same_gate (some b) a = text_eq b.policy_file a.policy_file && text_eq b.binary a.binary

  gated_ok : Ca → List Str → Role → Authority → Bool
  gated_ok ca users r a =
      validate_authority a
      && not (text_eq r.ssh_user (codes "root"))
      && not (member r.ssh_user users)
      && not (r.permit_pty || r.permit_port_forwarding || r.permit_agent_forwarding || r.permit_x11)
      && (not a.fixture || text_eq ca.mode (codes "dev"))

  -- The loop over the roles of a host: `gate` is the last role's authority, whose policy and binary
  -- the next one must share, and `users` the logins of the gated roles.
  pub roles_ok : Ca → Option Authority → List Str → Map Role → Bool
  unfolding gated_ok role_ok
  roles_ok ca gate users [] = true
  roles_ok ca gate users ((name, r) ∷ rest) = elim r.command_authority [
    | none ↦
        let later = roles_ok ca gate users rest in
        not (text_eq ca.mode (codes "agent")) && role_ok (name, r) && later
    | some a ↦
        let later = roles_ok ca (some a) (r.ssh_user ∷ users) rest in
        same_gate gate a && gated_ok ca users r a && role_ok (name, r) && later
  ]

  pub host_ok : Ca → Str × Host → Bool
  unfolding roles_ok
  host_ok ca (h, v) =
      is_id h
      && is_id v.alias
      && (is_empty v.jump_alias || is_id v.jump_alias)
      && roles_ok ca none [] v.roles

  -- `validateConfig`
  unfoldable pub validate_config : Config → Bool
  unfolding host_ok
  validate_config c = is_id c.workspace && elim (duration c.cert_ttl) [
    | none ↦ false
    | some ttl ↦ elim (duration c.renew_before) [
      | none ↦ false
      | some renew ↦ elim (skew_duration c.clock_skew) [
        | none ↦ false
        | some skew ↦ ltb renew ttl && all (host_ok c.ca) c.hosts
      ]
    ]
  ]

  -- The key of 51 bytes is four length bytes, the algorithm, four length bytes and the key.
  abbrev key_head : Str
  key_head = 0 ∷ 0 ∷ 0 ∷ 11 ∷ (codes "ssh-ed25519" ++ 0 ∷ 0 ∷ 0 ∷ 32 ∷ [])

  abbrev starts_with : Str → Str → Bool
  starts_with s [] = true
  starts_with [] (b ∷ p) = false
  starts_with (a ∷ s) (b ∷ p) = a == b && starts_with s p

  contains : Str → Str → Bool
  contains [] p = starts_with [] p
  contains (c ∷ s) p = starts_with (c ∷ s) p || contains s p

  key_fingerprint : List Str → Option Str
  key_fingerprint (algorithm ∷ key ∷ []) =
      if text_eq algorithm (codes "ssh-ed25519")
      then (do
        b ← env.decode64 key
        guard (length b == 51 && starts_with b key_head)
        some (codes "SHA256:" ++ env.raw_encode64 (env.sha256 b)))
      else none
  key_fingerprint _ = none

  -- `PublicFingerprint`
  unfoldable pub public_fingerprint : Str → Option Str
  unfolding key_fingerprint contains
  public_fingerprint key =
      if ltb 256 (length key) || contains_any key (13 ∷ 10 ∷ []) || contains key (codes "PRIVATE")
      then none
      else key_fingerprint (env.fields key)

  abbrev no_host : Host
  no_host = record { alias = []; jump_alias = []; roles = [] }

  abbrev no_role : Role
  no_role = record {
    ssh_user = [];
    default_lease = [];
    max_lease = [];
    max_cert_ttl = [];
    requesters = [];
    requester_max_lease = [];
    explicit_approval = false;
    permit_pty = false;
    permit_port_forwarding = false;
    permit_agent_forwarding = false;
    permit_x11 = false;
    command_authority = none;
  }

  abbrev value_or {ℓ} : {A : Type ℓ} → A → Option A → A
  value_or d none = d
  value_or d (some a) = a

  -- `c.Hosts[host]`, the zero host where it is missing.
  unfoldable pub host_at : Config → Str → Host
  host_at c host = value_or no_host (lookup c.hosts host)

  -- `scopeDigest`
  unfoldable pub scope_digest : Config → Str → Str → Str
  scope_digest c host role =
      let h = host_at c host in
      env.digest_scope (record {
        workspace = c.workspace;
        host = host;
        role = role;
        alias = h.alias;
        jump = h.jump_alias;
        policy = value_or no_role (lookup h.roles role);
        ca = c.ca;
        ttl = c.cert_ttl;
        skew = c.clock_skew;
      })

  -- A role under the ceiling that it sets for one requester.
  pub limited : Role → Str → Option Role
  limited r limit = if is_empty limit then some r else do
    ceiling ← duration limit
    default ← duration r.default_lease
    cert ← duration r.max_cert_ttl
    some (record r {
      max_lease = limit;
      default_lease = if ltb ceiling default then limit else r.default_lease;
      max_cert_ttl = if ltb ceiling cert then limit else r.max_cert_ttl;
    })

  -- `Service.role`
  unfoldable pub role_of : Config → Actor → Str → Str → Option Role
  unfolding limited
  role_of c a h r = do
    host ← lookup c.hosts h
    role ← lookup host.roles r
    guard (not (is_empty a.id) && not (is_empty (text_at role.requesters a.name)))
    limited role (text_at role.requester_max_lease a.name)
