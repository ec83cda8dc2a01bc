-- ===== src/Certificate.antt =====
-- `verifyCertificate` of internal/sshaccess/certificate.go, which checks what a signer gave before it
-- is handed out. `none` is an error. Where the source reads a field and compares it, the model has
-- one function that does both.
pub mod Fields
pub mod Extensions
pub mod Exact
pub mod Complete
pub mod Samples
use pins.Prelude.{
  ℕ, zero, suc, ◌+◌, ◌-◌, ◌/◌, ◌%◌, ◌^◌, Bool, true, false, not, ◌&&◌, List, [], ◌∷◌, ◌++◌, Option,
  none, some, leb, ◌==◌, if◌then◌else◌, length, drop, ◌>>=◌, ◌>>◌, guard,
}
use mathlib.Core.List.{erase}
use native.Mathlib.Decide.{ℕ_discrete}
use pins.Go.Text.{Str, codes, text_eq, is_empty, member}
use pins.Go.Wire.{take, read_4, read_8, read_string, put_4, put_8, put_string}
use pins.Lease.Types.{Time, second, SignRequest}
use pins.Lease.Config.{Env, public_fingerprint}

unfoldable pub text_dec : Discrete Str
unfolding ℕ_discrete
text_dec = hlevel ℕ_discrete

-- `crypto/ed25519`: key, message, signature.
abbrev pub Ed25519 : Type 0
Ed25519 = Str → Str → Str → Bool

abbrev pub cert_kind : Str
cert_kind = codes "ssh-ed25519-cert-v01@openssh.com"

-- `str()`, with what it must give.
unfoldable pub expect_string : Str → Str → Option Str
expect_string v s = do (found, rest) ← read_string s; guard (text_eq found v); some rest

-- `number(8)` and `number(4)`, likewise.
unfoldable pub expect_8 : ℕ → Str → Option Str
expect_8 v s = do (found, rest) ← read_8 s; guard (found == v); some rest

unfoldable pub expect_4 : ℕ → Str → Option Str
expect_4 v s = do (found, rest) ← read_4 s; guard (found == v); some rest

-- The list of principals holds the one of the request.
unfoldable pub principal_ok : Str → Str → Bool
principal_ok name found = length found == length name + 4 && elim (read_4 found) [
  | none ↦ false
  | some (n, rest) ↦ n == length name % 2 ^ 32 && text_eq rest name
]

unfoldable pub expect_principal : Str → Str → Option Str
expect_principal name s = do
  (found, rest) ← read_string s
  guard (principal_ok name found)
  some rest

-- `uint64(t.Unix())`; a time counts from the year 1.
unfoldable pub unix_seconds : Time → ℕ
unix_seconds t = (t / second + 2 ^ 64 - 62135596800) % 2 ^ 64

-- `expectedCritical`
unfoldable pub critical_options : SignRequest → Str
critical_options r =
    if is_empty r.force_command
    then []
    else put_string (codes "force-command") ++ put_string (put_string r.force_command)

abbrev pub if_so : Bool → Str → List Str → List Str
if_so true name rest = name ∷ rest
if_so false name rest = rest

-- The keys of the map `allowed`.
unfoldable pub allowed_extensions : SignRequest → List Str
allowed_extensions r = if_so r.permit_pty (codes "permit-pty") (
    if_so r.permit_port_forwarding (codes "permit-port-forwarding") (
      if_so r.permit_agent_forwarding (codes "permit-agent-forwarding")
        (if_so r.permit_x11 (codes "permit-X11-forwarding") [])))

-- One round of the loop over the extensions: a name that is followed by four bytes, which are 0.
unfoldable pub read_extension : Str → Option (Str × Str)
read_extension s = do
  (name, s') ← read_string s
  (size, rest) ← read_4 s'
  guard (size == 0)
  some (name, rest)

-- The loop over the extensions. A round takes eight bytes at least, so their number is fuel enough.
unfoldable pub extensions_ok : ℕ → List Str → Str → Bool
unfolding text_dec
extensions_ok fuel allowed [] = is_empty allowed
extensions_ok zero allowed (c ∷ s) = false
extensions_ok (suc fuel) allowed (c ∷ s) = elim (read_extension (c ∷ s)) [
  | none ↦ false
  | some (name, rest) ↦ elim (member name allowed) [
    | false ↦ false
    | true ↦ extensions_ok fuel (erase text_dec allowed name) rest
  ]
]

module _ (env : Env) (verify : Ed25519) where
  -- `"SHA256:" + base64(sha256(wire))`
  unfoldable pub wire_fingerprint : Str → Str
  wire_fingerprint pub_key =
      codes "SHA256:"
      ++ env.raw_encode64 (
          env.sha256 ((0 ∷ 0 ∷ 0 ∷ 11 ∷ (codes "ssh-ed25519" ++ (0 ∷ 0 ∷ 0 ∷ 32 ∷ []))) ++ pub_key))

  -- The key of the certificate is that of the request.
  unfoldable pub key_ok : SignRequest → Str → Bool
  key_ok r pub_key = length pub_key == 32 && elim (public_fingerprint env r.public_key) [
    | none ↦ false
    | some fp ↦ text_eq fp (wire_fingerprint pub_key)
  ]

  -- Kind, nonce, key, serial and type.
  unfoldable pub read_subject : SignRequest → Str → Option Str
  read_subject r b = do
    s1 ← expect_string cert_kind b
    (nonce, s2) ← read_string s1
    (pub_key, s3) ← read_string s2
    guard (key_ok r pub_key)
    s4 ← expect_8 r.serial s3
    expect_4 1 s4

  -- Key identifier, principal, validity and critical options.
  unfoldable pub read_scope : SignRequest → Str → Option Str
  read_scope r s = do
    s1 ← expect_string r.key_id s
    s2 ← expect_principal r.principal s1
    s3 ← expect_8 (unix_seconds r.valid_after) s2
    s4 ← expect_8 (unix_seconds r.valid_before) s3
    expect_string (critical_options r) s4

  -- Extensions, reserved data and the key of the authority.
  unfoldable pub read_rights : SignRequest → Str → Str → Option Str
  read_rights r ca s = do
    (extensions, s1) ← read_string s
    guard (extensions_ok (length extensions) (allowed_extensions r) extensions)
    s2 ← expect_string [] s1
    expect_string ca s2

  -- The last 64 bytes of a signature of the algorithm, which are the signature itself.
  unfoldable pub raw_signature : Str → Option Str
  raw_signature signature = do
    guard (length signature == 83)
    (n, s1) ← read_4 signature
    guard (n == 11)
    guard (text_eq (take 11 s1) (codes "ssh-ed25519"))
    (m, raw) ← read_4 (drop 11 s1)
    guard (m == 64)
    some raw

  -- The signature ends the certificate `b`, and signs what stands before it; `s` is its end.
  unfoldable pub read_signature : Str → Str → Str → Option (Unit {0})
  read_signature ca b s = do
    (signature, rest) ← read_string s
    guard (is_empty rest)
    raw ← raw_signature signature
    guard (length ca == 51 && verify (drop 19 ca) (take (length b - length s) b) raw)

  unfoldable pub verify_bytes : SignRequest → Str → Str → Option (Unit {0})
  verify_bytes r ca b = do
    guard (leb (length b) 8192)
    s1 ← read_subject r b
    s2 ← read_scope r s1
    s3 ← read_rights r ca s2
    read_signature ca b s3

  -- The second of the two fields of the authority's public line, decoded.
  unfoldable pub ca_field : List Str → Option Str
  ca_field (_ ∷ key ∷ []) = env.decode64 key
  ca_field _ = none

  unfoldable pub cert_field : List Str → Option Str
  cert_field (kind ∷ body ∷ _) = if text_eq kind cert_kind then env.decode64 body else none
  cert_field _ = none

  -- `verifyCertificate`
  unfoldable pub verify_certificate : Str → Str → SignRequest → Option (Unit {0})
  verify_certificate cert ca_public r = do
    b ← cert_field (env.fields cert)
    ca ← ca_field (env.fields ca_public)
    verify_bytes r ca b
