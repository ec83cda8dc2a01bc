-- ===== src/Lease/Effect.antt =====
-- Rules for what a call leaves on disk.
use pins.Prelude.{◌≡◌, refl, Bool, true, false, Option, none, some, inl, inr, Bool-cases}
use pins.Lease.Types.{Disk, Error}
use pins.Lease.Transaction.{Moment, Outcome, commit, abort, settle, transaction, need, check}

-- Whatever way the function ends, what it has left on disk and what is to be saved satisfy `P`.
abbrev pub Ends {ℓ κ} : {A : Type ℓ} → (Disk → Type κ) → Outcome A → Type κ
Ends P (commit saved d a) = P saved × P d
Ends P (abort d e) = P d

module _ {ℓ κ} {A : Type ℓ} (P : Disk → Type κ) where
  pub check-Ends :
      (b : Bool) (d : Disk) (e : Error) (o : Outcome A)
      → P d
      → (b ≡ true → Ends P o)
      → Ends P (check b d e o)
  unfolding check
  check-Ends true d e o h k = k refl
  check-Ends false d e o h k = h

  pub need-Ends {τ} :
      {V : Type τ} (v : Option V) (d : Disk) (e : Error) (o : V → Outcome A)
      → P d
      → ((a : V) → v ≡ some a → Ends P (o a))
      → Ends P (need v d e o)
  unfolding need
  need-Ends none d e o h k = h
  need-Ends (some a) d e o h k = k a refl

  pub settle-Ends : (m : Moment) (o : Outcome A) → Ends P o → P (settle m o).0
  unfolding settle
  settle-Ends m (commit saved d' a) k = elim (Bool-cases (m.can_save d')) [
    | inl e ↦ rw e k.1
    | inr e ↦ rw e k.0
  ]
  settle-Ends m (abort d' e) k = k

  -- A transaction leaves the state as it was, or as the function left it.
  pub transaction-Ends :
      (m : Moment) (d : Disk) (body : Disk → Outcome A)
      → P d
      → Ends P (body d)
      → P (transaction m d body).0
  unfolding transaction settle
  transaction-Ends m d body h k = elim (Bool-cases m.opens) [
    | inl e ↦ rw e (settle-Ends m (body d) k)
    | inr e ↦ rw e h
  ]
