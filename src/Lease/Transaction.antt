-- ===== src/Lease/Transaction.antt =====
-- `transaction` of internal/sshaccess/lease.go, and `expire`. A call takes the state on disk and what
-- the world answers during the call, and gives the state that is then on disk, with its result.
use pins.Prelude.{ℕ, Bool, true, false, ◌&&◌, [], Option, none, some, leb, if◌then◌else◌}
use pins.Go.Text.{Str, codes}
use pins.Go.Map.{insert}
use pins.Lease.Types.{
  Time, expired, Actor, Lease, Disk, Error, unavailable, Result, ok, fail, is_open,
}

-- What the world answers during one call: the readings of the clock in their order, whether the
-- directory, the lock and the file can be used, whether a state can be written, and `Authorize`
-- (always true where the service has none).
pub record Moment : Type 0 where
  pub now : ℕ → Time
  pub opens : Bool
  pub can_save : Disk → Bool
  pub authorize : Actor → Bool

-- How the function that a transaction runs ends: with what it has itself left on disk, and the state
-- to save or an error.
pub data Outcome {ℓ} (A : Type ℓ) : Type ℓ where
  commit : Disk → Disk → A → Outcome A
  abort : Disk → Error → Outcome A

-- `s.save(d)` at the end; where it fails, the disk keeps what the function has saved itself.
unfoldable pub settle {ℓ} : {A : Type ℓ} → Moment → Outcome A → Disk × Result A
settle m (commit saved d' a) = if m.can_save d' then (d', ok a) else (saved, fail unavailable)
settle m (abort d' e) = (d', fail e)

-- `transaction`
unfoldable pub transaction {ℓ} : {A : Type ℓ} → Moment → Disk → (Disk → Outcome A) → Disk × Result A
transaction m d body = if m.opens then settle m (body d) else (d, fail unavailable)

-- `if !ok { return e }`, where `d` is on disk.
unfoldable pub need {ℓ κ} :
    {A : Type ℓ} {B : Type κ} → Option A → Disk → Error → (A → Outcome B) → Outcome B
need none d e k = abort d e
need (some a) d e k = k a

unfoldable pub check {κ} : {B : Type κ} → Bool → Disk → Error → Outcome B → Outcome B
check true d e k = k
check false d e k = abort d e

-- The state where there is no file yet.
abbrev pub empty : Disk
empty = record { next_serial = 0; leases = []; issuances = [] }

abbrev pub put : Disk → Str → Lease → Disk
put d id l = record d { leases = insert d.leases id l }

-- `expire`
unfoldable pub expire : Lease → Time → Lease
expire l now =
    if is_open l.status && leb l.hard_expires_at now
    then record l {
      status = expired;
      closed_at = some now;
      termination_reason = codes "authorization_window_expired";
    }
    else l
