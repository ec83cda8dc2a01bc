-- ===== src/Policy/Store.antt =====
-- internal/store/policy_store.go: the grants, receipts and approvals that the store keeps. `memory` is
-- `s.state`, and `disk` what its file holds; no other process writes the file.
use pins.Prelude.{Bool, true, false, List, [], ◌∷◌, ◌++◌, Option, none, some, if◌then◌else◌, find}
use pins.Prelude.Int.{ℤ, ◌+ℤ◌, wrap64}
use pins.Go.Text.{Str, text_eq, is_empty}
use pins.Go.Fold.{trim_space}
use pins.Policy.Types.{
  Time, active, revoked, Grant, Receipt, ApprovalStatus, pending, ApprovalRequest,
  IdentityAttestation,
}

-- The part of `State` that the policy store keeps, but for its signing keys.
pub record State : Type 0 where
  pub grants : List Grant
  pub receipts : List Receipt
  pub approvals : List ApprovalRequest

pub record Store : Type 0 where
  pub memory : State
  pub disk : State

-- How `saveLocked` ends: the state is written; or it is not, and the memory is restored from the
-- file, or cannot be.
pub data Saving : Type 0 where
  written restored kept : Saving

-- `saveLocked`, with `true` for no error.
unfoldable pub save_locked : Saving → Store → State → Store × Bool
save_locked written s st = (record { memory = st; disk = st }, true)
save_locked restored s st = (record { memory = s.disk; disk = s.disk }, false)
save_locked kept s st = (record { memory = st; disk = s.disk }, false)

-- `for i := range xs { if id matches { change it; break } }`
unfoldable pub update_first {ℓ} : {A : Type ℓ} → (A → Bool) → (A → A) → List A → List A
update_first test change [] = []
update_first test change (a ∷ rest) =
    let later = update_first test change rest in if test a then change a ∷ rest else a ∷ later

-- `CreateGrant`; `id` is what `NewID("grt")` gives.
unfoldable pub new_grant : Grant → Str → Time → Grant
new_grant g id now = record g {
  id = if is_empty g.id then id else g.id;
  status = active;
  created_at = now;
  updated_at = now;
}

unfoldable pub create_grant : Saving → Store → Grant → Str → Time → Store × Option Grant
create_grant how s g id now =
    let m = s.memory in
    let (s', done) =
      save_locked how s (record m { grants = m.grants ++ (new_grant g id now ∷ []) }) in
    (s', if done then some (new_grant g id now) else none)

-- `GetGrant`
unfoldable pub get_grant : Store → Str → Option Grant
get_grant s id = find (λ g. text_eq g.id id) s.memory.grants

-- `RevokeGrant`, with `true` for no error; an unknown grant changes nothing.
abbrev revoke : Time → Grant → Grant
revoke now g = record g { status = revoked; updated_at = now; revoked_at = some now }

unfoldable pub change_found : Saving → Store → Str → (Grant → Grant) → Option Grant → Store × Bool
change_found how s id change none = (s, false)
change_found how s id change (some _) =
    let m = s.memory in
    save_locked how s (record m { grants = update_first (λ g. text_eq g.id id) change m.grants })

unfoldable pub change_grant : Saving → Store → Str → (Grant → Grant) → Store × Bool
change_grant how s id change = change_found how s id change (get_grant s id)

unfoldable pub revoke_grant : Saving → Store → Str → Time → Store × Bool
revoke_grant how s id now = change_grant how s id (revoke now)

-- `AddGrantSpend`
abbrev pub spend : ℤ → Time → Grant → Grant
spend amount now g = record g {
  pins = record (g.pins) {
    spend_policy = record (g.pins.spend_policy) {
      spent_cents = wrap64 (g.pins.spend_policy.spent_cents +ℤ amount);
    };
  };
  updated_at = now;
}

unfoldable pub add_grant_spend : Saving → Store → Str → ℤ → Time → Store × Bool
add_grant_spend how s id amount now = change_grant how s id (spend amount now)

-- `AddReceipt`
unfoldable pub add_receipt : Saving → Store → Receipt → Store × Bool
add_receipt how s r =
    let m = s.memory in save_locked how s (record m { receipts = m.receipts ++ (r ∷ []) })

-- `GetReceipt`
unfoldable pub get_receipt : Store → Str → Option Receipt
get_receipt s id = find (λ r. text_eq r.id id) s.memory.receipts

-- `CreateApproval`; `id` is what `NewID("apr")` gives.
unfoldable pub new_approval : ApprovalRequest → Str → Time → ApprovalRequest
new_approval a id now = record a {
  id = if is_empty a.id then id else a.id;
  status = pending;
  requested_at = now;
}

unfoldable pub create_approval :
    Saving → Store → ApprovalRequest → Str → Time → Store × Option ApprovalRequest
create_approval how s a id now =
    let m = s.memory in
    let (s', done) =
      save_locked how s (record m { approvals = m.approvals ++ (new_approval a id now ∷ []) }) in
    (s', if done then some (new_approval a id now) else none)

-- `GetApproval`
unfoldable pub get_approval : Store → Str → Option ApprovalRequest
get_approval s id = find (λ a. text_eq a.id id) s.memory.approvals

abbrev pub is_pending : ApprovalStatus → Bool
is_pending pending = true
is_pending _ = false

unfoldable pub resolved :
    ApprovalStatus → Str → Str → IdentityAttestation → Time → ApprovalRequest → ApprovalRequest
resolved status by reason att now a = record a {
  status = status;
  approver_sub = by;
  approver_attestation = if is_empty (trim_space att.id) then a.approver_attestation else some att;
  reason = reason;
  resolved_at = some now;
}

unfoldable pub resolve_pending :
    Saving
    → Store
    → Str
    → (ApprovalRequest → ApprovalRequest)
    → ApprovalRequest
    → Store × Option ApprovalRequest
resolve_pending how s id change a =
    let m = s.memory in
    let found : ApprovalRequest → Bool = λ b. text_eq b.id id in
    let (s', done) =
      save_locked how s (record m { approvals = update_first found change m.approvals }) in
    (s', if done then some (change a) else none)

-- `ResolveApprovalWithAttestation`, once the status is one of the two that resolve.
unfoldable pub resolve_found :
    Saving
    → Store
    → Str
    → (ApprovalRequest → ApprovalRequest)
    → Option ApprovalRequest
    → Store × Option ApprovalRequest
resolve_found how s id change none = (s, none)
resolve_found how s id change (some a) =
    if is_pending a.status then resolve_pending how s id change a else (s, none)

unfoldable pub resolve_approval :
    Saving
    → Store
    → Str
    → ApprovalStatus
    → Str
    → Str
    → IdentityAttestation
    → Time
    → Store × Option ApprovalRequest
resolve_approval how s id status by reason att now =
    if is_pending status
    then (s, none)
    else resolve_found how s id (resolved status by reason att now) (get_approval s id)
