-- ===== src/Policy/Budget.antt =====
-- What a request does to the spend of the grants, while no other request changes its grant:
-- `enforcePolicy` of internal/gateway/server.go over the store of internal/store/policy_store.go.
use pins.Prelude.{
  ℕ, suc, ◌≡◌, ◌≢◌, ◌∙◌, refl, sym, subst, ap, Bool, ◌||◌, List, [], ◌∷◌, Option, none, some,
  Bool-cases, inl, inr, find, All,
}
use pins.Prelude.Int.{ℤ, pos, ◌≤ℤ◌, ltb_ℤ}
use pins.Go.Text.{Str, text_eq, is_empty}
use pins.Go.Fold.{trim_space}
use pins.Policy.Types.{
  Time, Grant, Receipt, ActionRequest, EvaluationResult, Decision, allow, block, require_approval,
  undecided,
}
use pins.Policy.Engine.{evaluate_action}
use pins.Policy.Engine.Exact.{evaluate_action_iff}
use pins.Policy.Store.{
  State, Store, Saving, written, restored, kept, save_locked, update_first, get_grant, change_found,
  change_grant, spend, add_grant_spend, add_receipt,
}
use pins.Policy.Enforce.{
  World, Headers, enforce, enforce_cost, enforce_found, decide_request, respond, receipt_of,
  request_of, approval_of, cost_of,
}

-- What is spent is at most the limit.
abbrev InBudget : Grant → Type 0
InBudget g = g.pins.spend_policy.spent_cents ≤ℤ g.pins.spend_policy.limit_cents

-- The file holds what the memory does, and each grant is within its limit.
pub record Budgeted (s : Store) : Type 0 where
  pub synced : s.memory ≡ s.disk
  pub within : All InBudget s.memory.grants

-- After a failed save the file is read back.
abbrev pub Restores : Saving → Type 0
Restores how = how ≢ kept

module _ {ℓ κ} {A : Type ℓ} (P : A → Type κ) (test : A → Bool) (change : A → A) where
  -- Changing the first element that passes a test keeps what holds of all, if it holds of the new one.
  All-update_first :
      (xs : List A) {a : A}
      → All P xs
      → find test xs ≡ some a
      → P (change a)
      → All P (update_first test change xs)
  unfolding find update_first
  All-update_first [] h e p = tt
  All-update_first (x ∷ xs) {a} h e p = elim (Bool-cases (test x)) [
    | inl t ↦
        let same : x ≡ a = cc (rw t at e) in rw t (subst (λ y. P (change y)) (sym same) p, h.1)
    | inr f ↦ let rest = All-update_first xs {a = a} h.1 (rw f at e) p in rw f (h.0, rest)
  ]

save_locked-Budgeted :
    (how : Saving) (s : Store) (st : State)
    → Restores how
    → Budgeted s
    → All InBudget st.grants
    → Budgeted (save_locked how s st).0
unfolding save_locked
save_locked-Budgeted written s st r h new = record { synced = refl; within = new }
save_locked-Budgeted restored s st r h new = record {
  synced = refl;
  within = subst (λ m. All InBudget m.grants) h.synced h.within;
}
save_locked-Budgeted kept s st r h new = elim (r refl) [ ]

add_receipt-Budgeted :
    (how : Saving) (s : Store) (r : Receipt)
    → Restores how
    → Budgeted s
    → Budgeted (add_receipt how s r).0
unfolding add_receipt
add_receipt-Budgeted how s r ok h = save_locked-Budgeted how s _ ok h h.within

-- A receipt leaves the grants as they are, however its saving ends.
grants-add_receipt :
    (how : Saving) (s : Store) (r : Receipt)
    → Budgeted s
    → (add_receipt how s r).0.memory.grants ≡ s.memory.grants
unfolding add_receipt save_locked
grants-add_receipt written s r h = refl
grants-add_receipt restored s r h = ap (λ m. m.grants) (sym h.synced)
grants-add_receipt kept s r h = refl

change_found-Budgeted :
    (how : Saving) (s : Store) (id : Str) (change : Grant → Grant) (o : Option Grant)
    → get_grant s id ≡ o
    → Restores how
    → Budgeted s
    → ((g : Grant) → get_grant s id ≡ some g → InBudget (change g))
    → Budgeted (change_found how s id change o).0
unfolding change_found get_grant
change_found-Budgeted how s id change none e r h fits = h
change_found-Budgeted how s id change (some g) e r h fits =
    save_locked-Budgeted how s _ r h (
      All-update_first InBudget (λ x. text_eq x.id id) change s.memory.grants h.within e (fits g e))

add_grant_spend-Budgeted :
    (how : Saving) (s : Store) (id : Str) (amount : ℤ) (now : Time)
    → Restores how
    → Budgeted s
    → ((g : Grant) → get_grant s id ≡ some g → InBudget (spend amount now g))
    → Budgeted (add_grant_spend how s id amount now).0
unfolding add_grant_spend change_grant
add_grant_spend-Budgeted how s id amount now r h fits =
    change_found-Budgeted how s id (spend amount now) (get_grant s id) refl r h fits

-- What other requests do meanwhile keeps the store within its limits, and once the grant `id` has
-- been read, leaves it as it is.
pub record Apart (w : World) (id : Str) : Type 0 where
  pub budgeted : (n : ℕ) (s : Store) → Budgeted s → Budgeted (w.others n s)
  pub untouched : (n : ℕ) (s : Store) → get_grant (w.others (suc n) s) id ≡ get_grant s id

module _ (w : World) (ok : Restores w.saving_receipt) (ok' : Restores w.saving_spend) where
  respond-Budgeted :
      (s : Store) (q : ActionRequest) (result : EvaluationResult) (r : Receipt) (d : Decision)
      → Apart w q.grant_id
      → Budgeted s
      → (d ≡ allow
          → (g : Grant) → get_grant s q.grant_id ≡ some g
          → InBudget (spend q.cost_cents (w.now 2) g))
      → Budgeted (respond w s q result r d).0
  unfolding respond
  respond-Budgeted s q result r allow apart h fits =
      elim (Bool-cases (ltb_ℤ (pos 0) q.cost_cents)) [
        | inl costs ↦ rw costs (
            add_grant_spend-Budgeted w.saving_spend (w.others 3 s) q.grant_id q.cost_cents (w.now 2)
              ok' (apart.budgeted 3 s h) λ g e. fits refl g (sym (apart.untouched 2 s) ∙ e))
        | inr free ↦ rw free h
      ]
  respond-Budgeted s q result r block apart h fits = h
  respond-Budgeted s q result r require_approval apart h fits = h
  respond-Budgeted s q result r undecided apart h fits = h

  decide_request-Budgeted :
      (s : Store) (g : Grant) (q : ActionRequest)
      → Apart w q.grant_id
      → Budgeted s
      → get_grant s q.grant_id ≡ some g
      → Budgeted (decide_request w s g q).0
  unfolding decide_request get_grant
  decide_request-Budgeted s g q apart h e =
      let result = evaluate_action w.fold g q (w.now 1) in
      let r = receipt_of w g q result in
      let t = w.others 2 s in
      let t_Budgeted = apart.budgeted 2 s h in
      let same = grants-add_receipt w.saving_receipt t r t_Budgeted in
      respond-Budgeted (add_receipt w.saving_receipt t r).0 q result r result.decision apart
        (add_receipt-Budgeted w.saving_receipt t r ok t_Budgeted)
        λ allowed g' e'.
          let found : get_grant t q.grant_id ≡ some g' =
            subst (λ gs. find (λ x. text_eq x.id q.grant_id) gs ≡ some g') same e' in
          let permitted = (evaluate_action_iff w.fold g q (w.now 1)).0 allowed in
          let both : some g ≡ some g' = sym e ∙ sym (apart.untouched 1 s) ∙ found in
          let one : g ≡ g' = cc in
          subst (λ x. InBudget (spend q.cost_cents (w.now 2) x)) one permitted.in_budget

  enforce_found-Budgeted :
      (s : Store) (q : ActionRequest) (o : Option Grant) (a : Option Bool)
      → Apart w q.grant_id
      → Budgeted s
      → get_grant s q.grant_id ≡ o
      → Budgeted (enforce_found w s (w.others 1 s) q o a).0
  unfolding enforce_found
  enforce_found-Budgeted s q none a apart h e = h
  enforce_found-Budgeted s q (some g) none apart h e = apart.budgeted 1 s h
  enforce_found-Budgeted s q (some g) (some given) apart h e =
      decide_request-Budgeted (w.others 1 s) g (record q { approval_granted = given }) apart
        (apart.budgeted 1 s h) (apart.untouched 0 s ∙ e)

  enforce_cost-Budgeted :
      (s : Store) (h : Headers) (target : Str) (cost : Option ℤ)
      → Apart w (trim_space h.grant_id)
      → Budgeted s
      → Budgeted (enforce_cost w s h target cost).0
  unfolding enforce_cost request_of
  enforce_cost-Budgeted s h target none apart b = b
  enforce_cost-Budgeted s h target (some cost) apart b =
      let q = request_of h target cost in
      let s' = w.others 0 s in
      enforce_found-Budgeted s' q (get_grant s' q.grant_id) (approval_of w (w.others 1 s') q) apart
        (apart.budgeted 0 s b) refl

-- If each grant of a store is within its limit and the file holds what the memory does, then so it is
-- after a request of the gateway, whatever its headers and its cost, on two conditions: after a failed
-- save the file can be read back; and what other requests do meanwhile keeps all grants within their
-- limits and leaves the grant that this request names as it is, once this request has read it.
pub enforce-Budgeted :
    (w : World) (s : Store) (h : Headers) (target : Str)
    → Restores w.saving_receipt
    → Restores w.saving_spend
    → Apart w (trim_space h.grant_id)
    → Budgeted s
    → Budgeted (enforce w s h target).0
unfolding enforce
enforce-Budgeted w s h target ok ok' apart b =
    elim (Bool-cases (is_empty (trim_space h.grant_id))) [
      | inl none_named ↦ rw none_named b
      | inr named ↦
          rw named
            (elim (Bool-cases (
              is_empty (trim_space h.sub)
              || is_empty (trim_space h.capability)
              || is_empty (trim_space h.data_class))) [
                | inl short ↦ rw short b
                | inr full ↦
                    rw full
                      (enforce_cost-Budgeted w ok ok' s h target (cost_of w h.cost_cents) apart b)
              ])
    ]
