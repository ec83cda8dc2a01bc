-- ===== src/Policy/Receipts/Signed.antt =====
-- Signing and verifying in internal/policy.
use pins.Prelude.{
  ℕ, ◌+◌, ◌≤◌, ◌≡◌, refl, subst, true, false, [], ◌∷◌, ◌++◌, some, arith, bind_cases,
}
use pins.Prelude.Int.{ℤ}
use pins.Go.Text.{Str, is_empty, split, contains_byte}
use pins.Policy.Types.{Time, Grant, Receipt}
use pins.Policy.Receipts.{
  Crypto, signable, sign_receipt, verify_receipt, dot, export_life, export_payload, sign_export,
  verify_parts, verify_export,
}

-- A key pair, and encodings that can be read back: what Ed25519 and base64 promise.
pub record Sound (x : Crypto) (private public : Str) : Type 0 where
  pub signs : (m : Str) → x.verify public m (x.sign private m) ≡ true
  pub reads : (s : Str) → x.decode64 (x.encode64 s) ≡ some s
  pub undotted : (s : Str) → contains_byte (x.encode64 s) dot ≡ false
  pub full : (m : Str) → is_empty (x.encode64 (x.sign private m)) ≡ false

-- A text without the byte is its own only part.
split_none : (b : ℕ) (s : Str) → contains_byte s b ≡ false → split b s ≡ s ∷ []
unfolding split contains_byte
split_none b [] h = refl
split_none b (c ∷ s) h = let rest = split_none b s (ground arith) in ground (arith, rest)

-- Two such texts around the byte are the two parts.
split_two :
    (b : ℕ) (s t : Str)
    → contains_byte s b ≡ false
    → contains_byte t b ≡ false
    → split b (s ++ (b ∷ t)) ≡ s ∷ (t ∷ [])
unfolding split contains_byte
split_two b [] t h k = let rest = split_none b t k in ground (arith, rest)
split_two b (c ∷ s) t h k = let rest = split_two b s t (ground arith) k in ground (arith, rest)

module _ (x : Crypto) (private public : Str) (good : Sound x private public) where
  -- A receipt that was signed verifies under the public key of the pair.
  pub verify_receipt-sign_receipt :
      (r r' : Receipt) (key_id : Str)
      → sign_receipt x r private key_id ≡ some r'
      → verify_receipt x r' public ≡ some tt
  unfolding sign_receipt verify_receipt signable
  verify_receipt-sign_receipt r r' key_id h =
      bind_cases (x.receipt_json (signable r)) _ h λ payload e done.
        let signed : Receipt = record r {
          key_id = key_id;
          signature = x.encode64 (x.sign private payload);
        } in
        let same : signed ≡ r' = cc in
        subst (λ y. verify_receipt x y public ≡ some tt) same
          (rw (good.full payload, e, good.reads (x.sign private payload), good.signs payload) refl)

  -- Where the JSON of the payload parses to the payload, an exported grant verifies until it expires,
  -- and what is read is the snapshot of the grant.
  pub verify_export-sign_export :
      (g : Grant) (key_id token : Str) (now later : Time) (ttl : ℤ)
      → ((b : Str)
          → x.export_json (export_payload g key_id now ttl) ≡ some b
          → x.parse_export b ≡ some (export_payload g key_id now ttl))
      → sign_export x g private key_id now ttl ≡ some token
      → later ≤ now + export_life ttl
      → verify_export x token public later ≡ some (export_payload g key_id now ttl)
  unfolding sign_export verify_export verify_parts export_payload
  verify_export-sign_export g key_id token now later ttl parses h k =
      bind_cases (x.export_json (export_payload g key_id now ttl)) _ h λ b e done.
        let same : x.encode64 b ++ (dot ∷ x.encode64 (x.sign private b)) ≡ token = cc in
        subst (λ t. verify_export x t public later ≡ some (export_payload g key_id now ttl)) same
          (rw
            (
              split_two dot (x.encode64 b) (x.encode64 (x.sign private b)) (good.undotted b)
                  (good.undotted (x.sign private b)),
              good.reads b,
              good.reads (x.sign private b),
              good.signs b,
              parses b e,
            )
            (ground arith))
