-- ===== src/Certificate/Samples.antt =====
-- A small certificate, and one with a right that was not asked for.
use pins.Prelude.{◌+◌, ◌*◌, ◌≡◌, ◌↔◌, refl, true, false, List, [], ◌∷◌, ◌++◌, none, some, arith}
use pins.Go.Text.{Str, codes, text_eq, member, contains_byte, contains_any, split}
use pins.Go.Wire.{
  take, read_4, read_8, read_string, put_4, put_8, put_string, are_bytes, are_bytes_sound,
}
use pins.Lease.Types.{minute, SignRequest}
use pins.Lease.Config.{Env, public_fingerprint}
use pins.Certificate.{
  Ed25519, text_dec, expect_string, expect_8, expect_4, principal_ok, expect_principal,
  unix_seconds, critical_options, allowed_extensions, read_extension, extensions_ok,
  wire_fingerprint, key_ok, read_subject, read_scope, read_rights, raw_signature, read_signature,
  verify_bytes,
}
use pins.Certificate.Extensions.{put_extensions}
use pins.Certificate.Exact.{put_signature, put_body, Certifies}
use pins.Certificate.Complete.{verify_bytes_iff}

abbrev pub_key : Str
pub_key = codes "0123456789abcdef0123456789abcdef"

abbrev authority : Str
authority =
    put_string (codes "ssh-ed25519") ++ put_string (codes "fedcba9876543210fedcba9876543210")

abbrev env : Env
env = record {
  parse_duration = λ _. none;
  format_duration = λ _. [];
  fields = λ s. codes "ssh-ed25519" ∷ s ∷ [];
  decode64 = λ s. some (put_string (codes "ssh-ed25519") ++ put_string s);
  raw_encode64 = λ s. s;
  sha256 = λ s. s;
  digest_scope = λ s. s.host;
  digest_rules = λ _. [];
}

-- A signature is the key, twice.
abbrev verify : Ed25519
verify key message raw = text_eq raw (key ++ key)

abbrev request : SignRequest
request = record {
  public_key = pub_key;
  lease_id = codes "l";
  serial = 7;
  principal = codes "agent";
  key_id = codes "l:7";
  valid_after = 1600000000 * 60 * minute;
  valid_before = 1600000000 * 60 * minute + 3 * minute;
  force_command = [];
  permit_pty = true;
  permit_port_forwarding = false;
  permit_agent_forwarding = false;
  permit_x11 = false;
}

abbrev written : List Str → Str
written names = put_body request (codes "n") pub_key names authority (
    put_string
      (put_signature (codes "fedcba9876543210fedcba9876543210fedcba9876543210fedcba9876543210")))

verify_bytes_pty :
    verify_bytes env verify request authority (written (codes "permit-pty" ∷ [])) ≡ some tt
unfolding verify_bytes read_subject read_scope read_rights read_signature raw_signature key_ok
    wire_fingerprint expect_string expect_8 expect_4 principal_ok expect_principal unix_seconds
    critical_options allowed_extensions read_extension extensions_ok text_dec read_4 read_8
    read_string put_4 put_8 put_string put_extensions put_body take text_eq member contains_byte
    contains_any split public_fingerprint
verify_bytes_pty = refl

verify_bytes_x11 :
    verify_bytes env verify request authority
      (written (codes "permit-pty" ∷ codes "permit-X11-forwarding" ∷ []))
    ≡ none
unfolding verify_bytes read_subject read_scope read_rights read_signature raw_signature key_ok
    wire_fingerprint expect_string expect_8 expect_4 principal_ok expect_principal unix_seconds
    critical_options allowed_extensions read_extension extensions_ok text_dec read_4 read_8
    read_string put_4 put_8 put_string put_extensions put_body take text_eq member contains_byte
    contains_any split public_fingerprint
verify_bytes_x11 = refl

written_bytes : are_bytes (written (codes "permit-pty" ∷ [])) ≡ true
unfolding are_bytes put_4 put_8 put_string put_extensions put_body unix_seconds critical_options
written_bytes = refl

verify_bytes_iff_example :
    (verify_bytes env verify request authority (written (codes "permit-pty" ∷ [])) ≡ some tt)
    ↔ Certifies env verify request authority (written (codes "permit-pty" ∷ []))
verify_bytes_iff_example =
    verify_bytes_iff env verify request authority (written (codes "permit-pty" ∷ []))
      (are_bytes_sound (written (codes "permit-pty" ∷ [])) written_bytes) (omega arith)
