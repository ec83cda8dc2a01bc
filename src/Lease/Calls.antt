-- ===== src/Lease/Calls.antt =====
-- Histories of calls of the service, whatever the world answers.
use pins.Prelude.{◌≡◌, none}
use pins.Go.Text.{Str}
use pins.Go.Map.{lookup}
use pins.Lease.Types.{Disk, Actor, Config, OpenRequest, Status}
use pins.Lease.Config.{Env}
use pins.Lease.Transaction.{Moment}
use pins.Lease.Service.{get, list, approve, close}
use pins.Lease.Opening.{open_lease}
use pins.Lease.Issue.{Signing, issue}

-- The calls that the gateway makes of the service.
pub data Call : Type 0 where
  opens : Actor → OpenRequest → Str → Call
  gets : Actor → Str → Call
  lists : Actor → Str → Call
  approves : Actor → Str → Call
  closes : Actor → Str → Status → Str → Call
  issues : Signing → Actor → Str → Str → Call

-- What is on disk after a call.
unfoldable pub step : Env → Config → Moment → Call → Disk → Disk
step env c m (opens a q fresh) d = (open_lease env c m d a q fresh).0
step env c m (gets a id) d = (get m d a id).0
step env c m (lists a objective) d = (list m d a objective).0
step env c m (approves a id) d = (approve env c m d a id).0
step env c m (closes a id state reason) d = (close m d a id state reason).0
step env c m (issues x a id key) d = (issue env c x m d a id key).0

-- The random identifier of a new lease is not in use. (It has 128 bits.)
abbrev pub Fresh : Disk → Call → Type 0
Fresh d (opens a q fresh) = lookup d.leases fresh ≡ none
Fresh d _ = Unit

-- Any number of calls, each at a moment of its own; the identifiers of new leases are fresh.
pub data Run (env : Env) (c : Config) (d : Disk) : Disk → Type 0 where
  start : Run env c d d
  next :
      {e f : Disk}
      → Run env c d e
      → (m : Moment) (k : Call) → Fresh e k
      → f ≡ step env c m k e
      → Run env c d f
