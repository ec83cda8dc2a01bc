-- ===== src/Policy/Approvals.antt =====
-- How an approval is resolved: `ResolveApprovalWithAttestation` of internal/store/policy_store.go.
use pins.Prelude.{◌≡◌, false, none, some}
use pins.Go.Text.{Str}
use pins.Policy.History.{Run}
use pins.Policy.Types.{Time, ApprovalStatus, ApprovalRequest, IdentityAttestation}
use pins.Policy.Store.{Store, Saving, get_approval, is_pending, resolve_approval}

-- The approval of a store is resolved. Whatever calls of the store follow, and whatever way their
-- savings end, the store has this very approval, and refuses every call that resolves it.
pub record Settled (s : Store) (id : Str) (a : ApprovalRequest) : Type 0 where
  pub stored : get_approval s id ≡ some a
  pub closed : is_pending a.status ≡ false
  pub final : (t : Store) → Run s t → get_approval t id ≡ some a
  pub refused :
      (t : Store)
      → Run s t
      → (how : Saving) (status : ApprovalStatus) (by reason : Str) (att : IdentityAttestation)
        (now : Time)
      → resolve_approval how t id status by reason att now ≡ (t, none)
