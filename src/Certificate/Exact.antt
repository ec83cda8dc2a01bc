-- ===== src/Certificate/Exact.antt =====
-- Which bytes `verifyCertificate` of internal/sshaccess/certificate.go accepts.
use mathlib.Core.List.{Perm}
use pins.Prelude.{
  ◌-◌, ◌≤◌, ◌≡◌, sym, ap, ap₂, ◌∙◌, true, ◌&&◌, List, [], ◌++◌, append-nil, append_assoc, some,
  arith, leb, leb→le, ◌==◌, ==_iff, length, length-append, drop, bind_cases, guard_cases,
  guard-eq_some, &&-eq_true,
}
use pins.Go.Text.{Str, codes, text_eq, text_eq_iff, is_empty, empty-nil}
use pins.Go.Wire.{
  IsBytes, take, read_4, read_string, put_4, put_8, put_string, put_string-read_string,
  put_4-read_4, take-drop, take-append, IsBytes-drop, length-put_4,
}
use pins.Lease.Types.{SignRequest}
use pins.Lease.Config.{Env}
use pins.Certificate.{
  Ed25519, cert_kind, expect_string, expect_8, expect_principal, unix_seconds, critical_options,
  allowed_extensions, extensions_ok, key_ok, read_subject, read_scope, read_rights, raw_signature,
  read_signature, verify_bytes,
}
use pins.Certificate.Fields.{
  expect_string-IsBytes, expect_8-IsBytes, expect_4-IsBytes, expect_principal-IsBytes,
}
use pins.Certificate.Extensions.{put_extensions, extensions_ok_bytes}

-- The parts of a certificate, as they are written.
abbrev pub put_subject : SignRequest → Str → Str → Str → Str
put_subject r nonce pub_key rest =
    put_string cert_kind
    ++ (put_string nonce ++ (put_string pub_key ++ (put_8 r.serial ++ (put_4 1 ++ rest))))

abbrev pub put_scope : SignRequest → Str → Str
put_scope r rest =
    put_string r.key_id
    ++ (put_string (put_string r.principal)
        ++ (put_8 (unix_seconds r.valid_after)
            ++ (put_8 (unix_seconds r.valid_before) ++ (put_string (critical_options r) ++ rest))))

abbrev pub put_rights : List Str → Str → Str → Str
put_rights names ca rest =
    put_string (put_extensions names) ++ (put_string [] ++ (put_string ca ++ rest))

abbrev pub put_signature : Str → Str
put_signature raw = put_string (codes "ssh-ed25519") ++ put_string raw

-- What is signed.
unfoldable pub put_body : SignRequest → Str → Str → List Str → Str → Str → Str
put_body r nonce pub_key names ca rest =
    put_subject r nonce pub_key (put_scope r (put_rights names ca rest))

-- The bytes of a certificate for the request, by the authority with this key.
pub record Certifies (env : Env) (verify : Ed25519) (r : SignRequest) (ca b : Str) : Type 0 where
  pub nonce : Str
  pub pub_key : Str
  pub names : List Str
  pub raw : Str
  pub written : b ≡ put_body r nonce pub_key names ca (put_string (put_signature raw))
  pub size : length b ≤ 8192
  pub key : key_ok env verify r pub_key ≡ true
  pub extensions : Perm names (allowed_extensions r)
  pub raw_size : length raw ≡ 64
  pub ca_size : length ca ≡ 51
  pub signed : verify (drop 19 ca) (put_body r nonce pub_key names ca []) raw ≡ true

abbrev algorithm : Str
algorithm = codes "ssh-ed25519"

signature_parts :
    (s s1 raw : Str)
    → s ≡ put_4 11 ++ s1
    → s1 ≡ algorithm ++ (put_4 64 ++ raw)
    → length s ≡ 83
    → (s ≡ put_signature raw) × (length raw ≡ 64)
unfolding put_string
signature_parts s s1 raw first cut size =
    let whole : s ≡ put_4 11 ++ (algorithm ++ (put_4 64 ++ raw)) = rw cut at first in
    let left : length raw ≡ 64 = omega (
      arith,
      size,
      ap (length {0}) whole,
      length-put_4 11 (algorithm ++ (put_4 64 ++ raw)),
      length-put_4 64 raw,
    ) in
    (rw (left, append_assoc) whole, left)

module _ (env : Env) (verify : Ed25519) (r : SignRequest) where
  read_subject-IsBytes :
      (b : Str) {rest : Str}
      → IsBytes b
      → read_subject env verify r b ≡ some rest
      → (nonce : Str) × (pub_key : Str) × (b ≡ put_subject r nonce pub_key rest)
        × (key_ok env verify r pub_key ≡ true)
        × IsBytes rest
  unfolding read_subject
  read_subject-IsBytes b {rest} h e = bind_cases (expect_string cert_kind b) _ e λ s1 e1 more.
      let (b1, _, h1) = expect_string-IsBytes cert_kind b h e1 in
      bind_cases (read_string s1) _ more λ (nonce, s2) e2 more.
        let (b2, _, h2, _) = put_string-read_string s1 h1 e2 in
        bind_cases (read_string s2) _ more λ (pub_key, s3) e3 more.
          let (b3, _, h3, _) = put_string-read_string s2 h2 e3 in
          guard_cases (key_ok env verify r pub_key) _ more λ own more.
            bind_cases (expect_8 r.serial s3) _ more λ s4 e4 e5.
              let (b4, h4) = expect_8-IsBytes r.serial s3 h3 e4 in
              let (b5, h5) = expect_4-IsBytes 1 s4 h4 e5 in
              (nonce, pub_key, rw (← b5, ← b4, ← b3, ← b2) b1, own, h5)

  read_scope-IsBytes :
      (s : Str) {rest : Str}
      → IsBytes s
      → read_scope env verify r s ≡ some rest
      → (s ≡ put_scope r rest) × IsBytes rest
  unfolding read_scope
  read_scope-IsBytes s {rest} h e = bind_cases (expect_string r.key_id s) _ e λ s1 e1 more.
      let (b1, _, h1) = expect_string-IsBytes r.key_id s h e1 in
      bind_cases (expect_principal r.principal s1) _ more λ s2 e2 more.
        let (b2, h2) = expect_principal-IsBytes r.principal s1 h1 e2 in
        bind_cases (expect_8 (unix_seconds r.valid_after) s2) _ more λ s3 e3 more.
          let (b3, h3) = expect_8-IsBytes (unix_seconds r.valid_after) s2 h2 e3 in
          bind_cases (expect_8 (unix_seconds r.valid_before) s3) _ more λ s4 e4 e5.
            let (b4, h4) = expect_8-IsBytes (unix_seconds r.valid_before) s3 h3 e4 in
            let (b5, _, h5) = expect_string-IsBytes (critical_options r) s4 h4 e5 in
            (rw (← b5, ← b4, ← b3, ← b2) b1, h5)

  read_rights-IsBytes :
      (ca s : Str) {rest : Str}
      → IsBytes s
      → read_rights env verify r ca s ≡ some rest
      → (names : List Str) × (s ≡ put_rights names ca rest)
        × Perm names (allowed_extensions r)
        × IsBytes rest
  unfolding read_rights
  read_rights-IsBytes ca s {rest} h e = bind_cases (read_string s) _ e λ (extensions, s1) e1 more.
      let (b1, _, h1, own) = put_string-read_string s h e1 in
      guard_cases (extensions_ok (length extensions) (allowed_extensions r) extensions) _ more
        λ good more.
          let (names, equal, perm) =
            extensions_ok_bytes (length extensions) (allowed_extensions r) extensions own good in
          bind_cases (expect_string [] s1) _ more λ s2 e2 e3.
            let (b2, _, h2) = expect_string-IsBytes [] s1 h1 e2 in
            let (b3, _, h3) = expect_string-IsBytes ca s2 h2 e3 in
            (names, rw (← b3, ← b2, ← equal) b1, perm, h3)

  raw_signature_bytes :
      (s : Str) {raw : Str}
      → IsBytes s
      → raw_signature env verify s ≡ some raw
      → (s ≡ put_signature raw) × (length raw ≡ 64)
  unfolding raw_signature
  raw_signature_bytes s {raw} h e = guard_cases (length s == 83) _ e λ size more.
      bind_cases (read_4 s) _ more λ (n, s1) e1 more.
        let (b1, _, h1) = put_4-read_4 s h e1 in
        guard_cases (n == 11) _ more λ eleven more.
          guard_cases (text_eq (take 11 s1) algorithm) _ more λ named more.
            bind_cases (read_4 (drop 11 s1)) _ more λ (m, s2) e2 more.
              let (b2, _, h2) = put_4-read_4 (drop 11 s1) (IsBytes-drop 11 s1 h1) e2 in
              guard_cases (m == 64) _ more λ sixty_four done.
                let last : s2 ≡ raw = cc in
                let cut : s1 ≡ algorithm ++ (put_4 64 ++ raw) =
                  sym (take-drop 11 s1)
                  ∙ ap₂ (λ x y. x ++ y) ((text_eq_iff (take 11 s1) algorithm).0 named)
                      (b2 ∙ ap₂ (λ x y. put_4 x ++ y) ((==_iff m 64).0 sixty_four) last) in
                signature_parts s s1 raw (rw (← (==_iff n 11).0 eleven) b1) cut
                  ((==_iff (length s) 83).0 size)

  read_signature_bytes :
      (ca b s : Str)
      → IsBytes s
      → read_signature env verify ca b s ≡ some tt
      → (raw : Str) × (s ≡ put_string (put_signature raw))
        × (length raw ≡ 64)
        × (length ca ≡ 51)
        × (verify (drop 19 ca) (take (length b - length s) b) raw ≡ true)
  unfolding read_signature
  read_signature_bytes ca b s h e = bind_cases (read_string s) _ e λ (signature, rest) e1 more.
      let (b1, _, _, own) = put_string-read_string s h e1 in
      guard_cases (is_empty rest) _ more λ ends more.
        bind_cases (raw_signature env verify signature) _ more λ raw e2 more.
          let (b2, size) = raw_signature_bytes signature own e2 in
          let good =
            guard-eq_some
              (length ca == 51 && verify (drop 19 ca) (take (length b - length s) b) raw) more in
          let (ca_size, signed) =
            &&-eq_true (length ca == 51) (verify (drop 19 ca) (take (length b - length s) b) raw)
              good in
          let alone : s ≡ put_string signature = rw (empty-nil rest ends, append-nil) at b1 in
          (raw, rw b2 at alone, size, (==_iff (length ca) 51).0 ca_size, signed)

  put_body-append :
      (nonce pub_key : Str) (names : List Str) (ca s : Str)
      → put_body r nonce pub_key names ca s ≡ put_body r nonce pub_key names ca [] ++ s
  unfolding put_body
  put_body-append nonce pub_key names ca s = simp (append_assoc, append-nil)

  body_bytes :
      (b s1 s2 s3 nonce pub_key : Str) (names : List Str) (ca : Str)
      → b ≡ put_subject r nonce pub_key s1
      → s1 ≡ put_scope r s2
      → s2 ≡ put_rights names ca s3
      → b ≡ put_body r nonce pub_key names ca s3
  unfolding put_body
  body_bytes b s1 s2 s3 nonce pub_key names ca b1 b2 b3 = rw (b2, b3) at b1

  pub before_end :
      (b s nonce pub_key : Str) (names : List Str) (ca : Str)
      → b ≡ put_body r nonce pub_key names ca s
      → take (length b - length s) b ≡ put_body r nonce pub_key names ca []
  before_end b s nonce pub_key names ca whole =
      let body = put_body r nonce pub_key names ca [] in
      let cut : b ≡ body ++ s = whole ∙ put_body-append nonce pub_key names ca s in
      let size : length b - length s ≡ length body =
        omega (arith, ap (length {0}) cut, length-append {0} body s) in
      rw (size, cut) (take-append body s)

  pub verify_bytes_sound :
      (ca b : Str)
      → IsBytes b
      → verify_bytes env verify r ca b ≡ some tt
      → Certifies env verify r ca b
  unfolding verify_bytes
  verify_bytes_sound ca b h e = guard_cases (leb (length b) 8192) _ e λ fits more.
      bind_cases (read_subject env verify r b) _ more λ s1 e1 more.
        let (nonce, pub_key, b1, key, h1) = read_subject-IsBytes b h e1 in
        bind_cases (read_scope env verify r s1) _ more λ s2 e2 more.
          let (b2, h2) = read_scope-IsBytes s1 h1 e2 in
          bind_cases (read_rights env verify r ca s2) _ more λ s3 e3 more.
            let (names, b3, perm, h3) = read_rights-IsBytes ca s2 h2 e3 in
            let (raw, b4, raw_size, ca_size, signed) = read_signature_bytes ca b s3 h3 more in
            let whole : b ≡ put_body r nonce pub_key names ca s3 =
              body_bytes b s1 s2 s3 nonce pub_key names ca b1 b2 b3 in
            record {
              nonce = nonce;
              pub_key = pub_key;
              names = names;
              raw = raw;
              written = rw b4 at whole;
              size = leb→le (length b) 8192 fits;
              key = key;
              extensions = perm;
              raw_size = raw_size;
              ca_size = ca_size;
              signed = rw (before_end b s3 nonce pub_key names ca whole) at signed;
            }
