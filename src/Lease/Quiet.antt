-- ===== src/Lease/Quiet.antt =====
-- The serial counter and the list of issued certificates in the calls other than `Issue`.
use pins.Prelude.{ℕ, ◌≡◌, refl, inl, inr, Option-cases}
use pins.Go.Text.{Str}
use pins.Go.Map.{lookup}
use pins.Lease.Types.{Disk, Actor, Role, Config, OpenRequest, Status, Result, ok, fail, is_pending}
use pins.Lease.Config.{Env, scope_digest}
use pins.Lease.Transaction.{Moment, expire}
use pins.Lease.Service.{
  get, get_body, list, list_body, approve, approve_body, approve_lease, close, close_body,
  may_close, may_approve, may_see,
}
use pins.Lease.Opening.{open_lease, open_body, admit, with_key, same_request}
use pins.Lease.Effect.{Ends, need-Ends, check-Ends, transaction-Ends}
use pins.Lease.Calls.{Call, opens, gets, lists, approves, closes, issues, step}

-- `e` has the counter and the certificates of `d`.
pub record Quiet (d e : Disk) : Type 0 where
  pub serial_eq : e.next_serial ≡ d.next_serial
  pub issuances_eq : e.issuances ≡ d.issuances

abbrev pub IsIssue : Call → Type 0
IsIssue (issues _ _ _ _) = Unit
IsIssue _ = ⊥

module _ (env : Env) (c : Config) (m : Moment) (d : Disk) where
  still : Quiet d d
  still = record { serial_eq = refl; issuances_eq = refl }

  get-Quiet : (a : Actor) (id : Str) → Quiet d (get m d a id).0
  unfolding get get_body
  get-Quiet a id = transaction-Ends (Quiet d) m d (get_body m a id) still (
      need-Ends (Quiet d) (lookup d.leases id) d _ _ still λ l _.
        check-Ends (Quiet d) (may_see a l) d _ _ still
          λ _. (still, record { serial_eq = refl; issuances_eq = refl }))

  list-Quiet : (a : Actor) (objective : Str) → Quiet d (list m d a objective).0
  unfolding list list_body
  list-Quiet a objective =
      transaction-Ends (Quiet d) m d (list_body m a objective) still
        (still, record { serial_eq = refl; issuances_eq = refl })

  approve-Quiet : (a : Actor) (id : Str) → Quiet d (approve env c m d a id).0
  unfolding approve approve_body approve_lease
  approve-Quiet a id = transaction-Ends (Quiet d) m d (approve_body env c m a id) still (
      need-Ends (Quiet d) (lookup d.leases id) d _ _ still λ l _.
        check-Ends (Quiet d) (may_approve m a l) d _ _ still λ _.
          let l' = expire l (m.now 0) in
          check-Ends (Quiet d) (is_pending l'.status) d _ _ still λ _.
            check-Ends (Quiet d) _ d _ _ still
              λ _. (still, record { serial_eq = refl; issuances_eq = refl }))

  close-Quiet :
      (a : Actor) (id : Str) (state : Status) (reason : Str)
      → Quiet d (close m d a id state reason).0
  unfolding close close_body
  close-Quiet a id state reason = elim (Option-cases (may_close a state reason)) [
    | inr (e, refused) ↦ rw (refused, close) still
    | inl allowed ↦
        rw (allowed, close)
          (transaction-Ends (Quiet d) m d (close_body m a id state reason) still (
            need-Ends (Quiet d) (lookup d.leases id) d _ _ still λ l _.
              check-Ends (Quiet d) (may_see a l) d _ _ still
                λ _. (still, record { serial_eq = refl; issuances_eq = refl })))
  ]

  open_body-Quiet :
      (a : Actor) (q : OpenRequest) (fresh fp : Str) (r : Role) (window : ℕ)
      → Ends (Quiet d) (open_body env c m a q fresh (fp, r, window) d)
  unfolding open_body
  open_body-Quiet a q fresh fp r window = elim (Option-cases (with_key d.leases fp)) [
    | inr (l, e) ↦
        rw (e, open_body)
          (check-Ends (Quiet d)
            (same_request a q (scope_digest env c q.host_id q.role_id) (m.now 0) l) d _ _ still
            λ _. (still, still))
    | inl e ↦ rw (e, open_body) (still, record { serial_eq = refl; issuances_eq = refl })
  ]

  admitted-Quiet :
      (a : Actor) (q : OpenRequest) (fresh : Str) (t : Result (Str × Role × ℕ))
      → admit env c a q ≡ t
      → Quiet d (open_lease env c m d a q fresh).0
  unfolding open_lease
  admitted-Quiet a q fresh (fail e) h = rw (h, open_lease) still
  admitted-Quiet a q fresh (ok (fp, r, window)) h =
      rw (h, open_lease)
        (transaction-Ends (Quiet d) m d (open_body env c m a q fresh (fp, r, window)) still
          (open_body-Quiet a q fresh fp r window))

  pub step-Quiet : (k : Call) → ¬ IsIssue k → Quiet d (step env c m k d)
  unfolding step
  step-Quiet (opens a q fresh) _ = admitted-Quiet a q fresh (admit env c a q) refl
  step-Quiet (gets a id) _ = get-Quiet a id
  step-Quiet (lists a objective) _ = list-Quiet a objective
  step-Quiet (approves a id) _ = approve-Quiet a id
  step-Quiet (closes a id state reason) _ = close-Quiet a id state reason
  step-Quiet (issues x a id key) other = absurd (other tt)
