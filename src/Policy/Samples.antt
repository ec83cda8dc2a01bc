-- ===== src/Policy/Samples.antt =====
-- Small runs of the policy engine and its documents.
use mathlib.Core.Logic.{◌↔◌}
use pins.Prelude.{
  ℕ, ◌+◌, ◌-◌, ◌^◌, ◌≡◌, refl, false, [], ◌∷◌, ◌++◌, none, some, arith, map, any, ap, ap₂,
}
use pins.Prelude.Int.{ℤ, pos, ◌+ℤ◌, wrap64}
use pins.Go.Text.{Str, codes, text_eq, text_eq_refl, contains_byte}
use pins.Go.Utf8.{runes}
use pins.Go.Fold.{trim_space, equal_fold}
use pins.Policy.Types.{active, Grant, ActionRequest, allow, block, Receipt}
use pins.Policy.Engine.{
  contains, identity_pin, leaf_pin, chain_pin, authority_pin, listed_pin, spend_pin, approval_pin,
  verdicts, evaluate_action, decide,
}
use pins.Policy.Engine.Exact.{Permits, evaluate_action_iff}
use pins.Policy.Receipts.{
  Crypto, new_receipt, sign_receipt, verify_receipt, sign_export, verify_export, export_payload,
  signable, dot,
}
use pins.Policy.Receipts.Signed.{Sound, verify_receipt-sign_receipt, verify_export-sign_export}

abbrev pub ascii_fold : ℕ → ℕ
ascii_fold c = c

trim_both : trim_space (codes " \t a b\n") ≡ codes "a b"
unfolding trim_space
trim_both = refl

abbrev pub grant : Grant
grant = record {
  id = codes "grt_1";
  sub = codes "ck_sub_1";
  status = active;
  delegated_by = codes "ck_sub_0";
  pins = record {
    identity_sub = codes "ck_sub_1";
    chain = codes "ck_sub_0" ∷ codes "ck_sub_1" ∷ [];
    allowed = codes "chat" ∷ [];
    allowed_classes = codes "public" ∷ [];
    spend_policy = record {
      limit_cents = pos 100;
      spent_cents = pos 40;
      window_start = 10;
      window_end = 90;
    };
    allowed_targets = codes "openrouter" ∷ [];
    threshold_cents = pos 0;
  };
  created_at = 1;
  updated_at = 1;
  revoked_at = none;
  identity_attestation = none;
}

abbrev ask : ℤ → ActionRequest
ask cost = record {
  grant_id = codes "grt_1";
  sub = codes "ck_sub_1";
  capability = codes "chat";
  data_class = codes "public";
  target = codes "openrouter";
  cost_cents = cost;
  approval_id = [];
  approval_granted = false;
}

within_budget : (evaluate_action ascii_fold grant (ask (pos 60)) 50).decision ≡ allow
unfolding evaluate_action verdicts decide identity_pin authority_pin chain_pin leaf_pin listed_pin
    spend_pin approval_pin contains equal_fold runes trim_space text_eq any ◌+ℤ◌ wrap64
within_budget = refl

over_limit : (evaluate_action ascii_fold grant (ask (pos 61)) 50).decision ≡ block
unfolding evaluate_action verdicts decide identity_pin authority_pin chain_pin leaf_pin listed_pin
    spend_pin approval_pin contains equal_fold runes trim_space text_eq any ◌+ℤ◌ wrap64
over_limit = refl

-- The sum wraps around, and is taken for a small one.
sum_wraps : (evaluate_action ascii_fold grant (ask (pos (2 ^ 63 - 1))) 50).decision ≡ allow
unfolding evaluate_action verdicts decide identity_pin authority_pin chain_pin leaf_pin listed_pin
    spend_pin approval_pin contains equal_fold runes trim_space text_eq any ◌+ℤ◌ wrap64
sum_wraps = refl

evaluate_action_iff_example :
    ((evaluate_action ascii_fold grant (ask (pos 60)) 50).decision ≡ allow)
    ↔ Permits ascii_fold grant (ask (pos 60)) 50
evaluate_action_iff_example = evaluate_action_iff ascii_fold grant (ask (pos 60)) 50

-- An encoding that writes no byte 46, and a signature that repeats the message.
abbrev pub shift_up : Str → Str
shift_up s = map (λ c. c + 47) s

abbrev shift_down : Str → Str
shift_down s = map (λ c. c - 47) s

abbrev pub crypto : Crypto
crypto = record {
  sign = λ private m. 1 ∷ m;
  verify = λ public m sig. text_eq sig (1 ∷ m);
  encode64 = shift_up;
  decode64 = λ s. some (shift_down s);
  receipt_json = λ r. some r.id;
  attestation_json = λ a. some a.id;
  export_json = λ p. some p.grant_id;
  parse_export = λ b. some (export_payload grant (codes "k1") 50 (pos 5));
}

shift_back : (s : Str) → shift_down (shift_up s) ≡ s
shift_back [] = refl
shift_back (c ∷ s) = ap₂ (λ a b. a ∷ b) (omega arith) (shift_back s)

shift_undotted : (s : Str) → contains_byte (shift_up s) dot ≡ false
unfolding contains_byte
shift_undotted [] = refl
shift_undotted (c ∷ s) = let rest = shift_undotted s in ground (arith, rest)

crypto-Sound : Sound crypto (codes "secret") (codes "open")
crypto-Sound = record {
  signs = λ m. text_eq_refl (1 ∷ m);
  reads = λ s. ap (λ t. some t) (shift_back s);
  undotted = shift_undotted;
  full = λ m. refl;
}

abbrev pub receipt : Receipt
receipt =
    new_receipt (codes "rcp_1") grant (ask (pos 60))
      (evaluate_action ascii_fold grant (ask (pos 60)) 50) 50

abbrev signed_receipt : Receipt
signed_receipt = record receipt { key_id = codes "k1"; signature = shift_up (1 ∷ codes "rcp_1") }

verify_receipt-sign_receipt_example : verify_receipt crypto signed_receipt (codes "open") ≡ some tt
unfolding sign_receipt signable new_receipt
verify_receipt-sign_receipt_example =
    verify_receipt-sign_receipt crypto (codes "secret") (codes "open") crypto-Sound receipt
      signed_receipt (codes "k1") refl

abbrev token : Str
token = shift_up (codes "grt_1") ++ (dot ∷ shift_up (1 ∷ codes "grt_1"))

verify_export-sign_export_example :
    verify_export crypto token (codes "open") 54
    ≡ some (export_payload grant (codes "k1") 50 (pos 5))
unfolding sign_export export_payload
verify_export-sign_export_example =
    verify_export-sign_export crypto (codes "secret") (codes "open") crypto-Sound grant (codes "k1")
      token 50 54 (pos 5) (λ b e. refl) refl (omega arith)
