-- ===== src/Lease/Evolution.antt =====
-- How one lease may change: what never changes, which states are final, who may activate it.
use pins.Prelude.{◌≡◌, refl, sym, ap, ◌∙◌, ◌⊎◌, inl, inr, true, false, [], none, arith, Bool-cases}
use pins.Go.Text.{Str, text_eq}
use pins.Lease.Types.{Time, Status, pending, active, Lease, is_open, is_active, is_pending}
use pins.Lease.Transaction.{expire}
use pins.Lease.Service.{close_lease, is_closing}

-- A lease with all that may change over its life taken out.
abbrev pub frozen : Lease → Lease
frozen l = record l {
  status = pending;
  closed_at = none;
  termination_reason = [];
  approved_by = [];
}

-- The lease `l` may become `l'`.
pub record Evolves (l l' : Lease) : Type 0 where
  -- identity, scope, key, principal, policy and hard expiry stay
  pub kept : frozen l' ≡ frozen l
  -- a lease that is closed stays exactly as it is
  pub final : is_open l.status ≡ false → l' ≡ l
  -- no lease becomes pending again
  pub unreturned : is_pending l'.status ≡ true → is_pending l.status ≡ true
  -- only a pending lease gets an approver
  pub approver : is_pending l.status ≡ false → l'.approved_by ≡ l.approved_by
  -- a lease becomes active by the approval of somebody else than its requester
  pub activated :
      is_active l'.status ≡ true
      → (is_active l.status ≡ true)
        ⊎ ((is_pending l.status ≡ true) × (text_eq l'.approved_by l.requester_id ≡ false))

pub Evolves-refl : (l : Lease) → Evolves l l
Evolves-refl l = record {
  kept = refl;
  final = λ _. refl;
  unreturned = λ h. h;
  approver = λ _. refl;
  activated = inl;
}

pub expire-Evolves : (l : Lease) (t : Time) → Evolves l (expire l t)
unfolding expire
expire-Evolves l t = ground arith

pub close_lease-Evolves :
    (state : Status) (reason : Str) (t : Time) (l : Lease)
    → is_closing state ≡ true
    → Evolves l (close_lease state reason t l)
close_lease-Evolves state reason t l h = ground arith

pub approve-Evolves :
    (l : Lease) (approver : Str)
    → is_pending l.status ≡ true
    → text_eq approver l.requester_id ≡ false
    → Evolves l (record l { status = active; approved_by = approver })
approve-Evolves l approver h other_actor = ground arith

active_not_pending : (s : Status) → is_active s ≡ true → is_pending s ≡ false
active_not_pending s h = ground arith

still_not_pending :
    (l l' : Lease) → Evolves l l' → is_pending l.status ≡ false → is_pending l'.status ≡ false
still_not_pending l l' e h = elim (Bool-cases (is_pending l'.status)) [
  | inl p ↦ cc (e.unreturned p)
  | inr p ↦ p
]

pub Evolves-trans : (l l' l'' : Lease) → Evolves l l' → Evolves l' l'' → Evolves l l''
Evolves-trans l l' l'' e f = record {
  kept = f.kept ∙ e.kept;
  final = λ h. f.final (ap (λ (x : Lease). is_open x.status) (e.final h) ∙ h) ∙ e.final h;
  unreturned = λ h. e.unreturned (f.unreturned h);
  approver = λ h. f.approver (still_not_pending l l' e h) ∙ e.approver h;
  activated = λ h. elim (f.activated h) [
    | inl before ↦ elim (e.activated before) [
      | inl first ↦ inl first
      | inr (p, distinct) ↦ inr (
        p,
        ap (λ x. text_eq x l.requester_id) (f.approver (active_not_pending l'.status before))
            ∙ distinct,
      )
    ]
    | inr (p, distinct) ↦ inr (
      e.unreturned p,
      ap (λ (x : Lease). text_eq l''.approved_by x.requester_id) (sym e.kept) ∙ distinct,
    )
  ];
}
