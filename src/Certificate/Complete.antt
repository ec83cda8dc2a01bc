-- ===== src/Certificate/Complete.antt =====
-- `verifyCertificate` of internal/sshaccess/certificate.go accepts what `Certifies` describes.
use mathlib.Core.List.{Perm}
use pins.Prelude.{
  ℕ, ◌+◌, ◌-◌, ◌^◌, ◌≤◌, ◌<◌, ◌≡◌, ◌↔◌, refl, sym, ap, ◌∙◌, true, List, [], ◌∷◌, ◌++◌, append-nil,
  append_assoc, some, arith, le→leb, length, drop, All,
}
use pins.Go.Text.{Str, codes, text_eq_refl}
use pins.Go.Wire.{
  IsBytes, take, read_4, read_string, put_4, put_8, put_string, read_string-put_string,
  read_4-put_4, length-put_string, take-append, drop-append, length-put_string_self, length-put_4,
  length-put_8,
}
use pins.Lease.Types.{SignRequest}
use pins.Lease.Config.{Env}
use pins.Certificate.{
  Ed25519, cert_kind, unix_seconds, critical_options, allowed_extensions, key_ok, read_subject,
  read_scope, read_rights, raw_signature, read_signature, verify_bytes,
}
use pins.Certificate.Fields.{
  expect_string-put_string, expect_8-put_8, expect_4-put_4, expect_principal-put_string,
}
use pins.Certificate.Extensions.{put_extensions, extensions_ok-put_extensions}
use pins.Certificate.Exact.{
  put_subject, put_scope, put_rights, put_signature, put_body, Certifies, before_end,
  verify_bytes_sound,
}

length-put_subject :
    (r : SignRequest) (nonce pub_key rest : Str)
    → length nonce + length pub_key + length rest ≤ length (put_subject r nonce pub_key rest)
length-put_subject r nonce pub_key rest = omega (
  arith,
  length-put_string cert_kind
      (put_string nonce ++ (put_string pub_key ++ (put_8 r.serial ++ (put_4 1 ++ rest)))),
  length-put_string nonce (put_string pub_key ++ (put_8 r.serial ++ (put_4 1 ++ rest))),
  length-put_string pub_key (put_8 r.serial ++ (put_4 1 ++ rest)),
  length-put_8 r.serial (put_4 1 ++ rest),
  length-put_4 1 rest,
)

length-put_scope :
    (r : SignRequest) (rest : Str)
    → length r.key_id + length (put_string r.principal) + length (critical_options r) + length rest
      ≤ length (put_scope r rest)
length-put_scope r rest =
    let s4 = put_string (critical_options r) ++ rest in
    let s3 = put_8 (unix_seconds r.valid_before) ++ s4 in
    let s2 = put_8 (unix_seconds r.valid_after) ++ s3 in
    omega (
      arith,
      length-put_string r.key_id (put_string (put_string r.principal) ++ s2),
      length-put_string (put_string r.principal) s2,
      length-put_8 (unix_seconds r.valid_after) s3,
      length-put_8 (unix_seconds r.valid_before) s4,
      length-put_string (critical_options r) rest,
    )

length-put_rights :
    (names : List Str) (ca rest : Str)
    → length (put_extensions names) + length ca + length rest ≤ length (put_rights names ca rest)
length-put_rights names ca rest = omega (
  arith,
  length-put_string (put_extensions names) (put_string [] ++ (put_string ca ++ rest)),
  length-put_string [] (put_string ca ++ rest),
  length-put_string ca rest,
)

names_small :
    (k : ℕ) (names : List Str) → length (put_extensions names) < k → All (λ n. length n < k) names
unfolding put_extensions
names_small k [] h = tt
names_small k (n ∷ names) h =
    let one = length-put_string n (put_4 0 ++ put_extensions names) in
    let two = length-put_4 0 (put_extensions names) in
    (omega arith, names_small k names (omega arith))

abbrev algorithm : Str
algorithm = codes "ssh-ed25519"

-- A signature of 64 bytes, with its parts spelled out.
put_signature_parts :
    (raw : Str)
    → length raw ≡ 64
    → (put_signature raw ≡ put_4 11 ++ (algorithm ++ (put_4 64 ++ raw)))
      × (length (put_signature raw) ≡ 83)
unfolding put_string
put_signature_parts raw h =
    let whole : put_signature raw ≡ put_4 11 ++ (algorithm ++ (put_4 64 ++ raw)) =
      rw (← h, append_assoc) refl in
    let size : length (put_signature raw) ≡ 83 = omega (
      arith,
      h,
      ap (length {0}) whole,
      length-put_4 11 (algorithm ++ (put_4 64 ++ raw)),
      length-put_4 64 raw,
    ) in
    (whole, size)

raw_signature-put :
    (env : Env) (verify : Ed25519) (raw : Str)
    → length raw ≡ 64
    → raw_signature env verify (put_signature raw) ≡ some raw
unfolding raw_signature
raw_signature-put env verify raw h =
    let (whole, size) = put_signature_parts raw h in
    let s = put_4 64 ++ raw in
    let eleven : read_4 (put_signature raw) ≡ some (11, algorithm ++ s) =
      rw whole (read_4-put_4 11 (algorithm ++ s) (omega arith)) in
    let cut : drop 11 (algorithm ++ s) ≡ s = drop-append algorithm s in
    let named : take 11 (algorithm ++ s) ≡ algorithm = take-append algorithm s in
    rw (size, eleven, named, cut, text_eq_refl algorithm, read_4-put_4 64 raw (omega arith)) refl

module _ (env : Env) (verify : Ed25519) (r : SignRequest) where
  read_subject-put :
      (nonce pub_key rest : Str)
      → length (put_subject r nonce pub_key rest) ≤ 8192
      → r.serial < 2 ^ 64
      → key_ok env verify r pub_key ≡ true
      → read_subject env verify r (put_subject r nonce pub_key rest) ≡ some rest
  unfolding read_subject
  read_subject-put nonce pub_key rest fits small own =
      let sizes = length-put_subject r nonce pub_key rest in
      let s4 = put_4 1 ++ rest in
      let s3 = put_8 r.serial ++ s4 in
      rw
        (
          expect_string-put_string cert_kind (put_string nonce ++ (put_string pub_key ++ s3))
              (omega arith),
          read_string-put_string nonce (put_string pub_key ++ s3) (omega arith),
          read_string-put_string pub_key s3 (omega arith),
          own,
          expect_8-put_8 r.serial s4 small,
          expect_4-put_4 1 rest (omega arith),
        )
        refl

  read_scope-put :
      (rest : Str)
      → length (put_scope r rest) ≤ 8192
      → read_scope env verify r (put_scope r rest) ≡ some rest
  unfolding read_scope unix_seconds
  read_scope-put rest fits =
      let sizes = length-put_scope r rest in
      let s4 = put_string (critical_options r) ++ rest in
      let s3 = put_8 (unix_seconds r.valid_before) ++ s4 in
      let s2 = put_8 (unix_seconds r.valid_after) ++ s3 in
      rw
        (
          expect_string-put_string r.key_id (put_string (put_string r.principal) ++ s2)
              (omega arith),
          expect_principal-put_string r.principal s2 (omega arith),
          expect_8-put_8 (unix_seconds r.valid_after) s3 (omega arith),
          expect_8-put_8 (unix_seconds r.valid_before) s4 (omega arith),
          expect_string-put_string (critical_options r) rest (omega arith),
        )
        refl

  read_rights-put :
      (names : List Str) (ca rest : Str)
      → length (put_rights names ca rest) ≤ 8192
      → Perm names (allowed_extensions r)
      → read_rights env verify r ca (put_rights names ca rest) ≡ some rest
  unfolding read_rights
  read_rights-put names ca rest fits perm =
      let sizes = length-put_rights names ca rest in
      let short = names_small (2 ^ 32) names (omega arith) in
      let good =
        extensions_ok-put_extensions (length (put_extensions names)) names (allowed_extensions r)
          perm (omega arith) short in
      rw
        (
          read_string-put_string (put_extensions names) (put_string [] ++ (put_string ca ++ rest))
              (omega arith),
          good,
          expect_string-put_string [] (put_string ca ++ rest) (omega arith),
          expect_string-put_string ca rest (omega arith),
        )
        refl

  read_signature-put :
      (ca b raw : Str)
      → length raw ≡ 64
      → length ca ≡ 51
      → verify (drop 19 ca) (take (length b - length (put_string (put_signature raw))) b) raw ≡ true
      → read_signature env verify ca b (put_string (put_signature raw)) ≡ some tt
  unfolding read_signature
  read_signature-put ca b raw size ca_size signed =
      let sizes = length-put_string_self (put_signature raw) in
      let (_, whole) = put_signature_parts raw size in
      let read : read_string (put_string (put_signature raw)) ≡ some (put_signature raw, []) =
        ap read_string (sym (append-nil (put_string (put_signature raw))))
        ∙ read_string-put_string (put_signature raw) [] (omega arith) in
      rw (read, raw_signature-put env verify raw size, ca_size, signed) refl

  put_body_lem :
      (nonce pub_key : Str) (names : List Str) (ca s : Str)
      → put_body r nonce pub_key names ca s
        ≡ put_subject r nonce pub_key (put_scope r (put_rights names ca s))
  unfolding put_body
  put_body_lem nonce pub_key names ca s = refl

  verify_bytes_complete :
      (ca b : Str)
      → r.serial < 2 ^ 64
      → Certifies env verify r ca b
      → verify_bytes env verify r ca b ≡ some tt
  unfolding verify_bytes
  verify_bytes_complete ca b small c =
      let s3 = put_string (put_signature c.raw) in
      let s2 = put_rights c.names ca s3 in
      let s1 = put_scope r s2 in
      let whole : b ≡ put_subject r c.nonce c.pub_key s1 =
        c.written ∙ put_body_lem c.nonce c.pub_key c.names ca s3 in
      let size : length b ≡ length (put_subject r c.nonce c.pub_key s1) = ap (length {0}) whole in
      let fits = c.size in
      let sizes = length-put_subject r c.nonce c.pub_key s1 in
      let sizes' = length-put_scope r s2 in
      let e1 : read_subject env verify r b ≡ some s1 =
        rw whole (read_subject-put c.nonce c.pub_key s1 (omega arith) small c.key) in
      let e2 = read_scope-put s2 (omega arith) in
      let e3 = read_rights-put c.names ca s3 (omega arith) c.extensions in
      let signed =
        rw (← before_end env verify r b s3 c.nonce c.pub_key c.names ca c.written) at c.signed in
      let e4 = read_signature-put ca b c.raw c.raw_size c.ca_size signed in
      rw (le→leb (length b) 8192 fits, e1, e2, e3) e4

-- For bytes, and a request whose serial number has 64 bits, `verifyCertificate` gives no error if and
-- only if the bytes are those of a certificate for this request, signed by this authority.
pub verify_bytes_iff :
    (env : Env) (verify : Ed25519) (r : SignRequest) (ca b : Str)
    → IsBytes b
    → r.serial < 2 ^ 64
    → (verify_bytes env verify r ca b ≡ some tt) ↔ Certifies env verify r ca b
verify_bytes_iff env verify r ca b h small =
    (verify_bytes_sound env verify r ca b h, verify_bytes_complete env verify r ca b small)
