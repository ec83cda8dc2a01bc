-- ===== src/Lease/History.antt =====
-- What every call of the service keeps of the leases, and so every history of calls.
use pins.Prelude.{ℕ, ◌≡◌, refl, ap, ◌∙◌, inl, inr, true, false, none, arith, Option-cases}
use pins.Go.Text.{Str, text_eq}
use pins.Go.Map.{lookup}
use pins.Lease.Types.{
  Disk, Actor, Role, Config, Lease, OpenRequest, Status, Result, ok, fail, is_pending, Time,
}
use pins.Lease.Config.{Env, public_fingerprint, scope_digest}
use pins.Lease.Transaction.{Moment, put, expire}
use pins.Lease.Service.{
  get, list, approve, approve_lease, close, is_closing, may_close, may_approve, get_body, list_body,
  approve_body, close_body, may_see,
}
use pins.Lease.Opening.{open_lease, open_body, admit, with_key, same_request, new_lease}
use pins.Lease.Issue.{
  Signing, issue, issue_body, issue_for, reserve, sign_and_record, issuable, force_of, sign_request,
  still_valid,
}
use pins.Lease.Effect.{Ends, need-Ends, check-Ends, transaction-Ends}
use pins.Lease.Evolution.{Evolves-trans, expire-Evolves, close_lease-Evolves, approve-Evolves}
use pins.Lease.Ledger.{
  Continues, Continues-refl, LeasesEvolve-trans, insert-evolved, insert-fresh, list_loop-evolved,
}
use pins.Lease.Calls.{
  Call, opens, gets, lists, approves, closes, issues, step, Fresh, Run, start, next,
}

module _ (env : Env) (c : Config) (m : Moment) (d : Disk) where
  get-Continues : (a : Actor) (id : Str) → Continues d (get m d a id).0
  unfolding get get_body
  get-Continues a id = transaction-Ends (Continues d) m d (get_body m a id) (Continues-refl d) (
      need-Ends (Continues d) (lookup d.leases id) d _ _ (Continues-refl d) λ l found.
        check-Ends (Continues d) (may_see a l) d _ _ (Continues-refl d) λ _. (
          Continues-refl d,
          record {
            evolve =
                insert-evolved d.leases id l (expire l (m.now 0)) found
                  (expire-Evolves l (m.now 0));
          },
        ))

  list-Continues : (a : Actor) (objective : Str) → Continues d (list m d a objective).0
  unfolding list list_body
  list-Continues a objective =
      transaction-Ends (Continues d) m d (list_body m a objective) (Continues-refl d)
        (Continues-refl d, record { evolve = list_loop-evolved m a objective 0 d.leases })

  may_approve-distinct :
      (a : Actor) (l : Lease) → may_approve m a l ≡ true → text_eq a.id l.requester_id ≡ false
  unfolding may_approve
  may_approve-distinct a l h = ground arith

  expire-requester : (l : Lease) (t : Time) → (expire l t).requester_id ≡ l.requester_id
  unfolding expire
  expire-requester l t = ground arith

  approve-Continues : (a : Actor) (id : Str) → Continues d (approve env c m d a id).0
  unfolding approve approve_body approve_lease
  approve-Continues a id =
      transaction-Ends (Continues d) m d (approve_body env c m a id) (Continues-refl d) (
        need-Ends (Continues d) (lookup d.leases id) d _ _ (Continues-refl d) λ l found.
          check-Ends (Continues d) (may_approve m a l) d _ _ (Continues-refl d) λ may.
            let l' = expire l (m.now 0) in
            check-Ends (Continues d) (is_pending l'.status) d _ _ (Continues-refl d) λ waiting.
              check-Ends (Continues d)
                (text_eq l'.policy_digest (scope_digest env c l'.host_id l'.role_id)) d _ _
                (Continues-refl d)
                λ _. (
                  Continues-refl d,
                  record {
                    evolve = insert-evolved d.leases id l _ found (
                        Evolves-trans l l' _ (expire-Evolves l (m.now 0)) (
                          approve-Evolves l' a.id waiting (
                            ap (text_eq a.id) (expire-requester l (m.now 0))
                            ∙ may_approve-distinct a l may)));
                  },
                ))

  may_close-closing :
      (a : Actor) (state : Status) (reason : Str)
      → may_close a state reason ≡ none
      → is_closing state ≡ true
  unfolding may_close
  may_close-closing a state reason h = ground arith

  close-Continues :
      (a : Actor) (id : Str) (state : Status) (reason : Str)
      → Continues d (close m d a id state reason).0
  close-Continues a id state reason = elim (Option-cases (may_close a state reason)) [
    | inr (e, refused) ↦ unfold close in rw (refused, close) (Continues-refl d)
    | inl allowed ↦
        unfold close close_body in
        rw (allowed, close)
          (transaction-Ends (Continues d) m d (close_body m a id state reason) (Continues-refl d) (
            need-Ends (Continues d) (lookup d.leases id) d _ _ (Continues-refl d) λ l found.
              check-Ends (Continues d) (may_see a l) d _ _ (Continues-refl d) λ _.
                let l' = expire l (m.now 0) in
                (
                  Continues-refl d,
                  record {
                    evolve = insert-evolved d.leases id l _ found (
                        Evolves-trans l l' _ (expire-Evolves l (m.now 0)) (
                          close_lease-Evolves state reason (m.now 1) l'
                            (may_close-closing a state reason allowed)));
                  },
                )))
  ]

  sign_and_record-Continues :
      (e : Disk) (x : Signing) (a : Actor) (id key : Str) (l : Lease) (r : Role) (before : Time)
      → Continues d e
      → Ends (Continues d) (sign_and_record env c x m a id key l r before e)
  unfolding sign_and_record
  sign_and_record-Continues e x a id key l r before h =
      need-Ends (Continues d) x.signer e _ _ h λ sign _.
        need-Ends (Continues d) (force_of env l r) e _ _ h λ force _.
          need-Ends (Continues d)
            (sign (sign_request env c id key l r e.next_serial (m.now 0) before force)) e _ _ h
            λ cert _.
              check-Ends (Continues d) (still_valid env x a l before) e _ _ h
                λ _. (h, record { evolve = h.evolve })

  reserve-Continues :
      (x : Signing) (a : Actor) (id key : Str) (l : Lease) (r : Role)
      → Continues d (put d id l)
      → Ends (Continues d) (reserve env c x m a id key l r d)
  unfolding reserve
  reserve-Continues x a id key l r h = check-Ends (Continues d) _ d _ _ (Continues-refl d) λ _.
      check-Ends (Continues d) _ d _ _ (Continues-refl d) λ _.
        check-Ends (Continues d) _ d _ _ (Continues-refl d)
          λ _. sign_and_record-Continues _ x a id key l r _ (record { evolve = h.evolve })

  issue-Continues :
      (x : Signing) (a : Actor) (id key : Str) → Continues d (issue env c x m d a id key).0
  unfolding issue issue_body
  issue-Continues x a id key = elim (Option-cases (public_fingerprint env key)) [
    | inl e ↦ rw (e, issue_for) (Continues-refl d)
    | inr (fp, e) ↦
        rw (e, issue_for)
          (transaction-Ends (Continues d) m d (issue_body env c x m a id key fp) (Continues-refl d)
            (need-Ends (Continues d) (lookup d.leases id) d _ _ (Continues-refl d) λ l found.
              check-Ends (Continues d) (text_eq l.requester_id a.id) d _ _ (Continues-refl d) λ _.
                let l' = expire l (m.now 0) in
                need-Ends (Continues d) (issuable env x m a fp l') d _ _ (Continues-refl d) λ r _.
                  reserve-Continues x a id key l' r (record {
                    evolve = insert-evolved d.leases id l l' found (expire-Evolves l (m.now 0));
                  })))
  ]

  open_body-Continues :
      (a : Actor) (q : OpenRequest) (fresh fp : Str) (r : Role) (window : ℕ)
      → lookup d.leases fresh ≡ none
      → Ends (Continues d) (open_body env c m a q fresh (fp, r, window) d)
  unfolding open_body
  open_body-Continues a q fresh fp r window unused = elim (Option-cases (with_key d.leases fp)) [
    | inr (l, e) ↦
        rw (e, open_body)
          (check-Ends (Continues d)
            (same_request a q (scope_digest env c q.host_id q.role_id) (m.now 0) l) d _ _
            (Continues-refl d) λ _. (Continues-refl d, Continues-refl d))
    | inl e ↦
        rw (e, open_body)
          (
            Continues-refl d,
            record {
              evolve =
                  insert-fresh d.leases fresh (new_lease env c a q r fp window fresh (m.now 0))
                    unused;
            },
          )
  ]

  admitted-Continues :
      (a : Actor) (q : OpenRequest) (fresh : Str) (t : Result (Str × Role × ℕ))
      → admit env c a q ≡ t
      → lookup d.leases fresh ≡ none
      → Continues d (open_lease env c m d a q fresh).0
  unfolding open_lease
  admitted-Continues a q fresh (fail e) h unused = rw (h, open_lease) (Continues-refl d)
  admitted-Continues a q fresh (ok (fp, r, window)) h unused =
      rw (h, open_lease)
        (transaction-Ends (Continues d) m d (open_body env c m a q fresh (fp, r, window))
          (Continues-refl d) (open_body-Continues a q fresh fp r window unused))

  -- Every call keeps every lease, and lets it evolve.
  pub step-Continues : (k : Call) → Fresh d k → Continues d (step env c m k d)
  unfolding step
  step-Continues (opens a q fresh) unused =
      admitted-Continues a q fresh (admit env c a q) refl unused
  step-Continues (gets a id) _ = get-Continues a id
  step-Continues (lists a objective) _ = list-Continues a objective
  step-Continues (approves a id) _ = approve-Continues a id
  step-Continues (closes a id state reason) _ = close-Continues a id state reason
  step-Continues (issues x a id key) _ = issue-Continues x a id key

-- Over any history of calls, where each new lease gets an identifier that is not in use, each lease
-- that is on disk at the start stays under its identifier, and
-- only evolves: its scope, its key, its principal and its hard expiry never change; where it is not
-- open it stays exactly as it is; and where it was not active and is so at the end, it was pending
-- and its approver is another actor than its requester.
pub Run-Continues : (env : Env) (c : Config) (d e : Disk) → Run env c d e → Continues d e
Run-Continues env c d e start = Continues-refl _
Run-Continues env c d f (next {e} r m k unused same) = record {
  evolve =
      LeasesEvolve-trans d.leases e.leases f.leases (Run-Continues env c d e r).evolve
        (rw same ((step-Continues env c m e k unused).evolve));
}
