-- ===== src/Lease/Trials.antt =====
-- Further runs of the lease service: a lease that is approved and closed, and what is left of a serial
-- that was reserved.
use pins.Prelude.{
  suc, ◌⊎◌, ◌||◌, ◌+◌, ◌≡◌, refl, true, false, [], ◌∷◌, Option, none, some, ◌==◌, if◌then◌else◌,
  all,
}
use pins.Go.Text.{Str, codes, text_eq, contains_any, contains_byte, member}
use pins.Go.Utf8.{has_hidden}
use pins.Go.Map.{lookup, insert, text_at}
use pins.Command.Rules.{is_id}
use pins.Lease.Types.{
  Actor, Config, Disk, SignRequest, Status, pending, active, completed, minute, hour,
}
use pins.Lease.Service.{
  approve, approve_body, approve_lease, may_approve, close, close_body, may_close,
}
use pins.Lease.Config.{
  duration, duration_or_zero, public_fingerprint, host_at, scope_digest, role_of,
}
use pins.Lease.Transaction.{empty, settle, transaction, need, check, expire}
use pins.Lease.Opening.{renew_window, new_lease, window_of, admit, open_body, open_lease}
use pins.Lease.Issue.{
  Signing, valid_before, valid_after, sign_request, force_of, issuable, final_valid, still_valid,
  issuance, sign_and_record, reserve, issue_body, issue_for, issue,
}
use pins.Lease.Calls.{opens, approves, closes, step, Run, start, next}
use pins.Lease.Ledger.{Continues}
use pins.Lease.History.{Run-Continues}
use pins.Lease.Signers.{issue-Reserved}
use pins.Lease.Samples.{
  env, config, observe, agent, question, id, at, opened_time, opened, used, key, certificate,
  signing, issued_time,
}

-- The same role, where every lease waits for an approval.
abbrev careful : Config
careful = record config {
  hosts =
      (
        codes "vm220",
        record {
          alias = codes "vm220";
          jump_alias = [];
          roles = (codes "observe", record observe { explicit_approval = true }) ∷ [];
        },
      )
      ∷ [];
}

abbrev approver : Actor
approver = record { id = codes "hash-of-boss"; name = codes "boss"; can_approve = true }

abbrev waiting : Disk
waiting = step env careful (at opened_time) (opens agent question id) empty

abbrev let_in : Disk
let_in = step env careful (at (opened_time + minute)) (approves approver id) waiting

abbrev finished : Disk
finished =
    step env careful (at (opened_time + hour)) (closes agent id completed (codes "complete")) let_in

Run-finished : Run env careful waiting finished
Run-finished =
    next (next start (at (opened_time + minute)) (approves approver id) tt refl)
      (at (opened_time + hour)) (closes agent id completed (codes "complete")) tt refl

Run-Continues_example : Continues waiting finished
Run-Continues_example = Run-Continues env careful waiting finished Run-finished

abbrev status_at : Disk → Option Status
status_at d = elim (lookup d.leases id) [ none ↦ none | some l ↦ some l.status ]

-- The lease waits, is approved, and is closed.
statuses :
    (status_at waiting ≡ some pending)
    × (status_at let_in ≡ some active)
    × (status_at finished ≡ some completed)
unfolding step open_lease admit window_of public_fingerprint contains_any contains_byte text_eq
    is_id all has_hidden role_of lookup text_at duration duration_or_zero transaction settle
    open_body new_lease insert host_at scope_digest renew_window need check expire approve
    approve_body approve_lease may_approve close close_body may_close member
statuses = (refl, refl, refl)

-- Where the save at the end fails, the serial that was reserved before the signing stays on disk.
reserved_stays :
    (issue env config
      (signing issued_time)
      (record (at issued_time) { can_save = λ _. false })
      opened
      agent
      id
      key).0.next_serial
    ≡ 1
unfolding step open_lease admit window_of public_fingerprint contains_any contains_byte text_eq
    is_id all has_hidden role_of lookup text_at duration duration_or_zero transaction settle
    open_body new_lease insert host_at scope_digest renew_window issue issue_body need check expire
    issuable reserve valid_before sign_and_record force_of sign_request valid_after still_valid
    final_valid issue_for issuance
reserved_stays = refl

-- Two signers that differ on the first serial, which is used up.
abbrev second_only : SignRequest → Option Str
second_only q = if q.serial == 2 then some certificate else none

abbrev first_or_second : SignRequest → Option Str
first_or_second q = if q.serial == 1 || q.serial == 2 then some certificate else none

agree_on_second :
    (q : SignRequest) → q.serial ≡ suc used.next_serial → second_only q ≡ first_or_second q
unfolding step open_lease admit window_of public_fingerprint contains_any contains_byte text_eq
    is_id all has_hidden role_of lookup text_at duration duration_or_zero transaction settle
    open_body new_lease insert host_at scope_digest renew_window issue issue_body need check expire
    issuable reserve valid_before sign_and_record force_of sign_request valid_after still_valid
    final_valid issue_for issuance
agree_on_second q e = rw e refl

abbrev with_sign : Option (SignRequest → Option Str) → Signing
with_sign s = record (signing issued_time) { signer = s }

issue-Reserved_example :
    (issue env config (with_sign (some second_only)) (at issued_time) used agent id key
      ≡ issue env config (with_sign (some first_or_second)) (at issued_time) used agent id key)
    × (((issue env config
            (with_sign (some second_only))
            (at issued_time)
            used
            agent
            id
            key).0.next_serial
          ≡ suc used.next_serial)
        ⊎ (issue env config (with_sign (some second_only)) (at issued_time) used agent id key
            ≡ issue env config (with_sign none) (at issued_time) used agent id key))
issue-Reserved_example =
    issue-Reserved env config (signing issued_time) (at issued_time) agent id key used second_only
      first_or_second none agree_on_second
