-- ===== src/Policy/Engine.antt =====
-- internal/policy/engine.go: what a grant says of a request.
pub mod Exact
use pins.Prelude.{
  ℕ, Bool, true, false, not, ◌&&◌, ◌||◌, List, [], ◌∷◌, Option, none, some, ltb, any, map,
  if◌then◌else◌,
}
use pins.Prelude.Int.{ℤ, pos, ◌+ℤ◌, leb_ℤ, ltb_ℤ, wrap64}
use pins.Go.Text.{Str, codes, text_eq, is_empty}
use pins.Go.Map.{Map}
use pins.Go.Fold.{trim_space, equal_fold}
use pins.Policy.Types.{
  Time, GrantStatus, active, Grant, SpendPolicyPin, PinStatus, pass, fail, requires_approval,
  Decision, allow, block, require_approval, ActionRequest, EvaluationResult,
}

-- What the engine writes for one pin: its state, and a reason unless it passes.
pub data Verdict : Type 0 where
  passes : Verdict
  fails asks : Str → Verdict

abbrev pub state : Verdict → PinStatus
state passes = pass
state (fails _) = fail
state (asks _) = requires_approval

abbrev reasons_of : List (Str × Verdict) → Map Str
reasons_of [] = []
reasons_of ((name, passes) ∷ rest) = reasons_of rest
reasons_of ((name, fails why) ∷ rest) = (name, why) ∷ reasons_of rest
reasons_of ((name, asks why) ∷ rest) = (name, why) ∷ reasons_of rest

abbrev is_active : GrantStatus → Bool
is_active active = true
is_active _ = false

abbrev pub is_fail : Verdict → Bool
is_fail (fails _) = true
is_fail _ = false

abbrev pub is_ask : Verdict → Bool
is_ask (asks _) = true
is_ask _ = false

-- `if failed { the pin fails }`, and the tests after it.
abbrev pub unless : Bool → Str → Verdict → Verdict
unless failed why rest = if failed then fails why else rest

-- `chain[len(chain)-1]`
pub last : Str → List Str → Str
last s [] = s
last s (t ∷ ts) = last t ts

-- The loops over the pin states that find the decision.
unfoldable pub decide : List Verdict → Decision
decide vs = if any is_fail vs then block else if any is_ask vs then require_approval else allow

module _ (fold : ℕ → ℕ) where
  -- `contains`
  unfoldable pub contains : List Str → Str → Bool
  contains items value = any (λ item. equal_fold fold (trim_space item) (trim_space value)) items

  unfoldable pub identity_pin : Grant → ActionRequest → Verdict
  identity_pin g q = unless (not (is_active g.status)) (codes "grant is not active") (
      unless
        (is_empty q.sub || not (text_eq q.sub g.pins.identity_sub) || not (text_eq q.sub g.sub))
        (codes "subject mismatch") passes)

  -- The tests of a chain with a leaf.
  unfoldable pub leaf_pin : Grant → ActionRequest → Str → Verdict
  leaf_pin g q leaf =
      unless (is_empty leaf || not (equal_fold fold leaf q.sub))
        (codes "authority leaf does not match acting subject")
        (unless (not (is_empty g.delegated_by) && not (contains g.pins.chain g.delegated_by))
          (codes "delegator is not present in authority chain") passes)

  unfoldable pub chain_pin : Grant → ActionRequest → List Str → Verdict
  unfolding last
  chain_pin g q [] = fails (codes "missing authority chain")
  chain_pin g q (s ∷ ss) = leaf_pin g q (trim_space (last s ss))

  unfoldable pub authority_pin : Grant → ActionRequest → Verdict
  authority_pin g q = chain_pin g q g.pins.chain

  unfoldable pub listed_pin : List Str → Str → Str → Verdict
  listed_pin items value why = unless (not (contains items value)) why passes

  unfoldable pub spend_pin : SpendPolicyPin → ℤ → Time → Verdict
  spend_pin sp cost now =
      unless (ltb now sp.window_start || ltb sp.window_end now) (codes "outside spend window") (
        unless (ltb_ℤ sp.limit_cents (wrap64 (sp.spent_cents +ℤ cost))) (codes "budget exceeded")
          passes)

  unfoldable pub approval_pin : ℤ → ActionRequest → Verdict
  approval_pin threshold q =
      if ltb_ℤ (pos 0) threshold && leb_ℤ threshold q.cost_cents && not q.approval_granted
      then asks (codes "cost crosses approval threshold")
      else passes

  -- The seven pins, by the names under which the result shows them.
  unfoldable pub verdicts : Grant → ActionRequest → Time → List (Str × Verdict)
  verdicts g q now =
      (codes "identity", identity_pin g q)
      ∷ (codes "authority_chain", authority_pin g q)
      ∷ (
        codes "capabilities",
        listed_pin g.pins.allowed q.capability (codes "capability not allowed"),
      )
      ∷ (
        codes "data_policy",
        listed_pin g.pins.allowed_classes q.data_class (codes "data class not allowed"),
      )
      ∷ (codes "spend_policy", spend_pin g.pins.spend_policy q.cost_cents now)
      ∷ (
        codes "execution_targets",
        listed_pin g.pins.allowed_targets q.target (codes "target not allowed"),
      )
      ∷ (codes "approval", approval_pin g.pins.threshold_cents q)
      ∷ []

  -- `EvaluateAction`
  unfoldable pub evaluate_action : Grant → ActionRequest → Time → EvaluationResult
  evaluate_action g q now = record {
    decision = decide (map (λ p. p.1) (verdicts g q now));
    pin_states = map (λ p. (p.0, state p.1)) (verdicts g q now);
    reasons = reasons_of (verdicts g q now);
  }
