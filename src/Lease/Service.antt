-- ===== src/Lease/Service.antt =====
-- `Service` of internal/sshaccess/lease.go: `Get`, `List`, `Approve` and `Close`. `Open` is in
-- Lease/Opening and `Issue` in Lease/Issue.
use pins.Prelude.{
  ℕ, suc, Bool, true, false, not, ◌&&◌, ◌||◌, List, [], ◌∷◌, Option, none, some, if◌then◌else◌,
}
use pins.Go.Text.{Str, codes, text_eq, is_empty, member}
use pins.Go.Map.{Map, lookup}
use pins.Lease.Types.{
  Time, Status, active, completed, cancelled, revoked, Actor, Config, Lease, Disk, Error, denied,
  invalid, Result, fail, is_open, is_pending,
}
use pins.Lease.Config.{Env, scope_digest}
use pins.Lease.Transaction.{Moment, Outcome, commit, transaction, need, check, put, expire}

abbrev pub may_see : Actor → Lease → Bool
may_see a l = text_eq l.requester_id a.id || a.can_approve

-- `Get`, and the function that it runs.
unfoldable pub get_body : Moment → Actor → Str → Disk → Outcome Lease
get_body m a id d =
    need (lookup d.leases id) d denied
      λ l. check (may_see a l) d denied (let l' = expire l (m.now 0) in commit d (put d id l') l')

unfoldable pub get : Moment → Disk → Actor → Str → Disk × Result Lease
get m d a id = transaction m d (get_body m a id)

-- The loop of `List`; `i` counts the readings of the clock.
unfoldable pub list_loop : Moment → Actor → Str → ℕ → Map Lease → Map Lease × List Lease
list_loop m a objective i [] = ([], [])
list_loop m a objective i ((id, l) ∷ rest) =
    let shown = may_see a l && (is_empty objective || text_eq objective l.objective_id) in
    let (ls, out) = list_loop m a objective (if shown then suc i else i) rest in
    let l' = expire l (m.now i) in if shown then ((id, l') ∷ ls, l' ∷ out) else ((id, l) ∷ ls, out)

-- `List`, and the function that it runs.
unfoldable pub list_body : Moment → Actor → Str → Disk → Outcome (List Lease)
unfolding list_loop
list_body m a objective d =
    let (ls, out) = list_loop m a objective 0 d.leases in commit d (record d { leases = ls }) out

unfoldable pub list : Moment → Disk → Actor → Str → Disk × Result (List Lease)
list m d a objective = transaction m d (list_body m a objective)

-- The end of `Approve`, from the lease as it stands after `expire`.
unfoldable pub approve_lease : Env → Config → Actor → Str → Disk → Lease → Outcome Lease
approve_lease env c a id d l = check (is_pending l.status) d denied (
    check (text_eq l.policy_digest (scope_digest env c l.host_id l.role_id)) d denied
      (let l' = record l { status = active; approved_by = a.id } in commit d (put d id l') l'))

-- The requester cannot approve its own lease.
unfoldable pub may_approve : Moment → Actor → Lease → Bool
may_approve m a l = a.can_approve && not (text_eq a.id l.requester_id) && m.authorize a

-- `Approve`, and the function that it runs.
unfoldable pub approve_body : Env → Config → Moment → Actor → Str → Disk → Outcome Lease
approve_body env c m a id d =
    need (lookup d.leases id) d denied
      λ l. check (may_approve m a l) d denied (approve_lease env c a id d (expire l (m.now 0)))

unfoldable pub approve : Env → Config → Moment → Disk → Actor → Str → Disk × Result Lease
approve env c m d a id = transaction m d (approve_body env c m a id)

-- The ways to close a lease; any other status is refused.
abbrev pub is_closing : Status → Bool
is_closing completed = true
is_closing cancelled = true
is_closing revoked = true
is_closing _ = false

abbrev is_revoked : Status → Bool
is_revoked revoked = true
is_revoked _ = false

abbrev reasons : List Str
reasons =
    codes "complete"
    ∷ codes "cancelled"
    ∷ codes "revoked"
    ∷ codes "blocked"
    ∷ codes "shutdown"
    ∷ codes "lost_client"
    ∷ []

abbrev pub close_lease : Status → Str → Time → Lease → Lease
close_lease state reason now l =
    if is_open l.status
    then record l { status = state; closed_at = some now; termination_reason = reason }
    else l

-- The checks of `Close` before its transaction.
unfoldable pub may_close : Actor → Status → Str → Option Error
may_close a state reason =
    if not (is_closing state)
    then some denied
    else if is_revoked state && not a.can_approve
    then some denied
    else if not (member reason reasons)
    then some invalid
    else none

-- `Close`, and the function that it runs; the clock is read once to expire the lease, and again to
-- close it.
unfoldable pub close_body : Moment → Actor → Str → Status → Str → Disk → Outcome Lease
close_body m a id state reason d = need (lookup d.leases id) d denied λ l.
    check (may_see a l) d denied (
      let l' = close_lease state reason (m.now 1) (expire l (m.now 0)) in commit d (put d id l') l')

unfoldable pub close : Moment → Disk → Actor → Str → Status → Str → Disk × Result Lease
close m d a id state reason = elim (may_close a state reason) [
  | some e ↦ (d, fail e)
  | none ↦ transaction m d (close_body m a id state reason)
]
