-- ===== src/Policy/Receipts.antt =====
-- internal/policy: receipt.go, attestation.go and export.go, the documents that are signed. Ed25519,
-- JSON and base64 are not this program's.
pub mod Signed
use pins.Prelude.{
  ℕ, zero, suc, ◌+◌, ◌-◌, ◌*◌, ◌^◌, Bool, true, false, not, ◌&&◌, ◌||◌, List, [], ◌∷◌, ◌++◌, Option,
  none, some, leb, ltb, ◌==◌, if◌then◌else◌, ◌>>=◌, ◌>>◌, guard, length, all,
}
use pins.Prelude.Int.{ℤ, pos, negsuc, leb_ℤ}
use pins.Go.Text.{Str, codes, text_eq, is_empty, split, contains_byte}
use pins.Go.Map.{Map}
use pins.Go.Fold.{trim_space}
use pins.Policy.Types.{
  Time, IdentityAttestation, Pins, Grant, Receipt, ActionRequest, EvaluationResult, PinStatus,
  Decision,
}

-- `signableReceipt`: a receipt without its key and its signature.
pub record SignableReceipt : Type 0 where
  pub id : Str
  pub grant_id : Str
  pub sub : Str
  pub authority : List Str
  pub pin_states : Map PinStatus
  pub decision : Decision
  pub capability : Str
  pub data_class : Str
  pub target : Str
  pub cost_cents : ℤ
  pub approval_ref : Str
  pub identity_attestation_id : Str
  pub created_at : Time

-- `signableIdentityAttestation`
pub record SignableAttestation : Type 0 where
  pub id : Str
  pub subject : Str
  pub issuer : Str
  pub audience : Str
  pub method : Str
  pub issued_at : Time
  pub expires_at : Time
  pub key_id : Str

-- `GrantExportPayload`
pub record GrantExportPayload : Type 0 where
  pub grant_id : Str
  pub sub : Str
  pub pins_snapshot : Pins
  pub issued_at : Time
  pub expires_at : Time
  pub key_id : Str

-- `crypto/ed25519`, `encoding/base64` (RawURLEncoding) and `encoding/json`, which may fail.
pub record Crypto : Type 0 where
  pub sign : Str → Str → Str
  pub verify : Str → Str → Str → Bool
  pub encode64 : Str → Str
  pub decode64 : Str → Option Str
  pub receipt_json : SignableReceipt → Option Str
  pub attestation_json : SignableAttestation → Option Str
  pub export_json : GrantExportPayload → Option Str
  pub parse_export : Str → Option GrantExportPayload

abbrev pub attestation_id : Option IdentityAttestation → Str
attestation_id none = []
attestation_id (some a) = a.id

-- `NewReceipt`; `id` is what `NewID("rcp")` gives.
unfoldable pub new_receipt : Str → Grant → ActionRequest → EvaluationResult → Time → Receipt
new_receipt id g q result now = record {
  id = id;
  grant_id = g.id;
  sub = q.sub;
  authority = g.pins.chain;
  pin_states = result.pin_states;
  decision = result.decision;
  capability = q.capability;
  data_class = q.data_class;
  target = q.target;
  cost_cents = q.cost_cents;
  approval_ref = [];
  identity_attestation_id = attestation_id g.identity_attestation;
  created_at = now;
  key_id = [];
  signature = [];
}

unfoldable pub signable : Receipt → SignableReceipt
signable r = record {
  id = r.id;
  grant_id = r.grant_id;
  sub = r.sub;
  authority = r.authority;
  pin_states = r.pin_states;
  decision = r.decision;
  capability = r.capability;
  data_class = r.data_class;
  target = r.target;
  cost_cents = r.cost_cents;
  approval_ref = r.approval_ref;
  identity_attestation_id = r.identity_attestation_id;
  created_at = r.created_at;
}

-- `SignReceipt`; `none` is an error.
unfoldable pub sign_receipt : Crypto → Receipt → Str → Str → Option Receipt
sign_receipt x r private key_id = do
  payload ← x.receipt_json (signable r)
  some (record r { key_id = key_id; signature = x.encode64 (x.sign private payload) })

-- `VerifyReceipt`; `some` is no error.
unfoldable pub verify_receipt : Crypto → Receipt → Str → Option (Unit {0})
verify_receipt x r public = do
  guard (not (is_empty r.signature))
  payload ← x.receipt_json (signable r)
  sig ← x.decode64 r.signature
  guard (x.verify public payload sig)

unfoldable pub signable_attestation : IdentityAttestation → SignableAttestation
signable_attestation a = record {
  id = a.id;
  subject = a.subject;
  issuer = a.issuer;
  audience = a.audience;
  method = a.method;
  issued_at = a.issued_at;
  expires_at = a.expires_at;
  key_id = a.key_id;
}

abbrev is_sub_byte : ℕ → Bool
is_sub_byte c =
    leb b'A' c && leb c b'Z'
    || leb b'a' c && leb c b'z'
    || leb b'0' c && leb c b'9'
    || contains_byte (codes "._:@/-") c

-- `ckSubPattern`
unfoldable pub is_sub : Str → Bool
is_sub s = leb 3 (length s) && leb (length s) 256 && all is_sub_byte s

abbrev pub leeway : Time
leeway = 2 * 60 * 10 ^ 9

-- `VerifyIdentityAttestation`; two minutes of leeway are added where the source takes them away.
unfoldable pub verify_attestation :
    Crypto → IdentityAttestation → Str → Str → Time → Option (Unit {0})
verify_attestation x a public issuer now = do
  guard (not (is_empty (trim_space a.id)))
  guard (is_sub a.subject)
  guard (text_eq a.issuer issuer)
  guard (text_eq a.audience (codes "21pins"))
  guard (text_eq a.method (codes "hosted_ck"))
  guard (not (ltb (now + leeway) a.issued_at || not (ltb now (a.expires_at + leeway))))
  payload ← x.attestation_json (signable_attestation a)
  sig ← x.decode64 a.signature
  guard (x.verify public payload sig)

abbrev export_life : ℤ → ℕ
export_life (pos zero) = 15 * 60 * 10 ^ 9
export_life (pos (suc n)) = suc n
export_life (negsuc n) = 15 * 60 * 10 ^ 9

unfoldable pub export_payload : Grant → Str → Time → ℤ → GrantExportPayload
export_payload g key_id now ttl = record {
  grant_id = g.id;
  sub = g.sub;
  pins_snapshot = g.pins;
  issued_at = now;
  expires_at = now + export_life ttl;
  key_id = key_id;
}

abbrev pub dot : ℕ
dot = b'.'

-- `SignGrantExport`
unfoldable pub sign_export : Crypto → Grant → Str → Str → Time → ℤ → Option Str
sign_export x g private key_id now ttl = do
  b ← x.export_json (export_payload g key_id now ttl)
  some (x.encode64 b ++ (dot ∷ x.encode64 (x.sign private b)))

-- The part of `VerifyGrantExport` after the split.
unfoldable pub verify_parts : Crypto → Str → Time → List Str → Option GrantExportPayload
verify_parts x public now (body ∷ (tag ∷ [])) = do
  payload ← x.decode64 body
  sig ← x.decode64 tag
  guard (x.verify public payload sig)
  p ← x.parse_export payload
  guard (not (ltb p.expires_at now))
  some p
verify_parts x public now _ = none

-- `VerifyGrantExport`
unfoldable pub verify_export : Crypto → Str → Str → Time → Option GrantExportPayload
verify_export x token public now = verify_parts x public now (split dot token)
