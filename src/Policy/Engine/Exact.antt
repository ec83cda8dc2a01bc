-- ===== src/Policy/Engine/Exact.antt =====
-- What `EvaluateAction` of internal/policy/engine.go allows.
use mathlib.Core.List.{Memᴰ}
use pins.Prelude.{
  ℕ, ◌≤◌, ◌≡◌, ◌≢◌, ◌↔◌, ◌⊎◌, inl, inr, refl, sym, ◌∙◌, Bool, true, false, not, ◌&&◌, List, [], ◌∷◌,
  ◌++◌, ap, arith, any, any-eq_true, any-eq_false, Bool-cases, map, All,
}
use pins.Prelude.Int.{ℤ, pos, ◌+ℤ◌, ◌≤ℤ◌, wrap64}
use pins.Go.Text.{Str, codes, text_eq_iff, is_empty}
use pins.Go.Fold.{trim_space, equal_fold}
use pins.Policy.Types.{Time, active, Grant, ActionRequest, SpendPolicyPin, allow}
use pins.Policy.Engine.{
  Verdict, passes, fails, asks, decide, unless, last, contains, identity_pin, leaf_pin, chain_pin,
  authority_pin, listed_pin, spend_pin, approval_pin, verdicts, evaluate_action,
}

abbrev Passes : Verdict → Type 0
Passes v = v ≡ passes

-- The decision is `allow` exactly if every pin passes.
decide_iff : (vs : List Verdict) → (decide vs ≡ allow) ↔ All Passes vs
unfolding decide any
decide_iff [] = (λ _. tt, λ _. refl)
decide_iff (passes ∷ vs) =
    let (sound, complete) = decide_iff vs in (λ h. (refl, sound h), λ h. complete h.1)
decide_iff (fails why ∷ vs) = (λ h. cc, λ h. cc (h.0))
decide_iff (asks why ∷ vs) = (λ h. ground arith, λ h. cc (h.0))

unless_iff :
    (failed : Bool) (why : Str) (rest : Verdict)
    → Passes (unless failed why rest) ↔ ((failed ≡ false) × Passes rest)
unless_iff true why rest = (λ h. cc, λ h. cc (h.0))
unless_iff false why rest = (λ h. (refl, h), λ h. h.1)

nonempty : (init : List Str) (leaf : Str) → ¬ ([] ≡ init ++ leaf ∷ [])
nonempty [] leaf e = cc
nonempty (i ∷ init) leaf e = cc

-- `last` is the text that stands after all the others.
last-append :
    (s : Str) (ss init : List Str) (leaf : Str) → s ∷ ss ≡ init ++ leaf ∷ [] → last s ss ≡ leaf
unfolding last
last-append s [] [] leaf e = cc
last-append s [] (i ∷ []) leaf e = cc
last-append s [] (i ∷ j ∷ init) leaf e = cc
last-append s (t ∷ ts) [] leaf e = cc
last-append s (t ∷ ts) (i ∷ init) leaf e = last-append t ts init leaf (cc)

split_last : (s : Str) (ss : List Str) → (init : List Str) × (s ∷ ss ≡ init ++ last s ss ∷ [])
unfolding last
split_last s [] = ([], refl)
split_last s (t ∷ ts) = let (init, e) = split_last t ts in (s ∷ init, ap (λ r. s ∷ r) e)

module _ (fold : ℕ → ℕ) where
  -- Some text of the list is the value, but for spaces around it and for case.
  abbrev pub Contains : List Str → Str → Type 0
  Contains items value =
      (item : Str) × Memᴰ item items × (equal_fold fold (trim_space item) (trim_space value) ≡ true)

  contains_iff :
      (items : List Str) (value : Str) → (contains fold items value ≡ true) ↔ Contains items value
  unfolding contains
  contains_iff items value =
      let test : Str → Bool = λ item. equal_fold fold (trim_space item) (trim_space value) in
      (
        λ h. any-eq_true test items h,
        λ (item, m, t). elim (Bool-cases (any test items)) [
          | inl found ↦ found
          | inr missed ↦ let no = any-eq_false test items missed m in cc
        ],
      )

  is_empty_iff : (s : Str) → (is_empty s ≡ false) ↔ (s ≢ [])
  is_empty_iff [] = (λ h. cc, λ h. elim (h refl) [ ])
  is_empty_iff (c ∷ s) = (λ h e. cc, λ h. refl)

  identity_iff :
      (g : Grant) (q : ActionRequest)
      → Passes (identity_pin fold g q)
        ↔ ((g.status ≡ active) × (q.sub ≢ []) × (q.sub ≡ g.pins.identity_sub) × (q.sub ≡ g.sub))
  unfolding identity_pin
  identity_iff g q =
      let own = text_eq_iff q.sub g.sub in
      let pin = text_eq_iff q.sub g.pins.identity_sub in
      let full = is_empty_iff q.sub in
      (λ h. ground (arith, own.0, pin.0, full), λ h. ground (arith, own.1, pin.1, full))

  listed_iff :
      (items : List Str) (value why : Str)
      → Passes (listed_pin fold items value why) ↔ Contains items value
  unfolding listed_pin
  listed_iff items value why = (
    λ h. (contains_iff items value).0 (ground arith),
    λ c. let found = (contains_iff items value).1 c in rw found refl,
  )

  spend_iff :
      (sp : SpendPolicyPin) (cost : ℤ) (now : Time)
      → Passes (spend_pin fold sp cost now) ↔ (
          (sp.window_start ≤ now)
          × (now ≤ sp.window_end)
          × (wrap64 (sp.spent_cents +ℤ cost) ≤ℤ sp.limit_cents))
  unfolding spend_pin
  spend_iff sp cost now = (λ h. ground arith, λ h. ground arith)

  approval_iff :
      (threshold : ℤ) (q : ActionRequest)
      → Passes (approval_pin fold threshold q)
        ↔ (¬ (threshold ≤ℤ pos 0) → threshold ≤ℤ q.cost_cents → q.approval_granted ≡ true)
  unfolding approval_pin
  approval_iff threshold q = (λ h positive reached. ground arith, λ h. ground arith)

  delegator_iff :
      (chain : List Str) (by : Str)
      → ((not (is_empty by) && not (contains fold chain by)) ≡ false)
        ↔ ((by ≡ []) ⊎ Contains chain by)
  delegator_iff chain [] = (λ h. inl refl, λ h. refl)
  delegator_iff chain (c ∷ s) =
      let named = contains_iff chain (c ∷ s) in
      (
        λ h. inr (named.0 (ground arith)),
        λ h. elim h [ inl e ↦ cc | inr found ↦ rw (named.1 found) refl ],
      )

  leaf_iff :
      (g : Grant) (q : ActionRequest) (leaf : Str)
      → Passes (leaf_pin fold g q leaf) ↔ (
          (leaf ≢ [])
          × (equal_fold fold leaf q.sub ≡ true)
          × ((g.delegated_by ≡ []) ⊎ Contains g.pins.chain g.delegated_by))
  unfolding leaf_pin
  leaf_iff g q leaf =
      let full = is_empty_iff leaf in
      let named = delegator_iff g.pins.chain g.delegated_by in
      (λ h. ground (arith, full, named.0), λ h. ground (arith, full, named.1))

  -- The chain ends with the acting subject, and names the delegator, where there is one.
  pub record Chained (g : Grant) (q : ActionRequest) : Type 0 where
    pub init : List Str
    pub leaf : Str
    pub ends : g.pins.chain ≡ init ++ leaf ∷ []
    pub named : trim_space leaf ≢ []
    pub acting : equal_fold fold (trim_space leaf) q.sub ≡ true
    pub delegated : (g.delegated_by ≡ []) ⊎ Contains g.pins.chain g.delegated_by

  chain_iff :
      (g : Grant) (q : ActionRequest) (chain : List Str)
      → g.pins.chain ≡ chain
      → Passes (chain_pin fold g q chain) ↔ Chained g q
  unfolding chain_pin
  chain_iff g q [] e = (λ h. cc, λ c. elim (nonempty c.init c.leaf (sym e ∙ c.ends)) [ ])
  chain_iff g q (s ∷ ss) e =
      let (init, split) = split_last s ss in
      let known = leaf_iff g q (trim_space (last s ss)) in
      (
        λ h.
            let (named, acting, delegated) = known.0 h in
            record {
              init = init;
              leaf = last s ss;
              ends = e ∙ split;
              named = named;
              acting = acting;
              delegated = delegated;
            },
        λ c.
            let same = last-append s ss c.init c.leaf (sym e ∙ c.ends) in
            known.1 (rw same (c.named, c.acting, c.delegated)),
      )

  authority_iff : (g : Grant) (q : ActionRequest) → Passes (authority_pin fold g q) ↔ Chained g q
  unfolding authority_pin
  authority_iff g q = chain_iff g q g.pins.chain refl

  -- What a grant must hold for a request, each pin on its own.
  pub record Permits (g : Grant) (q : ActionRequest) (now : Time) : Type 0 where
    pub is_active : g.status ≡ active
    pub subject : (q.sub ≢ []) × (q.sub ≡ g.pins.identity_sub) × (q.sub ≡ g.sub)
    pub chained : Chained g q
    pub capable : Contains g.pins.allowed q.capability
    pub classed : Contains g.pins.allowed_classes q.data_class
    pub in_window :
        (g.pins.spend_policy.window_start ≤ now) × (now ≤ g.pins.spend_policy.window_end)
    pub in_budget :
        wrap64 (g.pins.spend_policy.spent_cents +ℤ q.cost_cents) ≤ℤ g.pins.spend_policy.limit_cents
    pub targeted : Contains g.pins.allowed_targets q.target
    pub approved :
        ¬ (g.pins.threshold_cents ≤ℤ pos 0)
        → g.pins.threshold_cents ≤ℤ q.cost_cents
        → q.approval_granted ≡ true

  -- `EvaluateAction` allows a request exactly if the grant is active and for this subject, its chain
  -- ends with the subject and names the delegator, the capability, the data class and the target are
  -- listed, the time is in the window, the sum of what is spent and the cost, as an `int64`, is within
  -- the limit, and a cost that reaches a positive threshold was approved.
  pub evaluate_action_iff :
      (g : Grant) (q : ActionRequest) (now : Time)
      → ((evaluate_action fold g q now).decision ≡ allow) ↔ Permits g q now
  unfolding evaluate_action verdicts
  evaluate_action_iff g q now =
      let (sound, complete) = decide_iff (map (λ p. p.1) (verdicts fold g q now)) in
      let capable = listed_iff g.pins.allowed q.capability (codes "capability not allowed") in
      let classed =
        listed_iff g.pins.allowed_classes q.data_class (codes "data class not allowed") in
      let targeted = listed_iff g.pins.allowed_targets q.target (codes "target not allowed") in
      let identity = identity_iff g q in
      let authority = authority_iff g q in
      let spend = spend_iff g.pins.spend_policy q.cost_cents now in
      let approval = approval_iff g.pins.threshold_cents q in
      (
        λ h.
            let (i, (a, (c, (d, (s, (t, (p, _))))))) = sound h in
            let (active_now, full, pinned, own) = identity.0 i in
            let (from, until, budget) = spend.0 s in
            record {
              is_active = active_now;
              subject = (full, pinned, own);
              chained = authority.0 a;
              capable = capable.0 c;
              classed = classed.0 d;
              in_window = (from, until);
              in_budget = budget;
              targeted = targeted.0 t;
              approved = approval.0 p;
            },
        λ h. complete (
          identity.1 (h.is_active, h.subject.0, h.subject.1, h.subject.2),
          (
            authority.1 h.chained,
            (
              capable.1 h.capable,
              (
                classed.1 h.classed,
                (
                  spend.1 (h.in_window.0, h.in_window.1, h.in_budget),
                  (targeted.1 h.targeted, (approval.1 h.approved, tt)),
                ),
              ),
            ),
          ),
        ),
      )
