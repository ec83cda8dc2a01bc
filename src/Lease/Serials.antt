-- ===== src/Lease/Serials.antt =====
-- Serial numbers of certificates, and how they rise.
use pins.Prelude.{ℕ, suc, ◌≤◌, ◌<◌, ◌≡◌, refl, inl, inr, List, [], ◌∷◌, ◌++◌, arith, Option-cases}
use pins.Go.Text.{Str, text_eq}
use pins.Go.Map.{lookup}
use pins.Lease.Types.{Disk, Actor, Role, Config, Lease, Issuance, Time}
use pins.Lease.Config.{Env, public_fingerprint}
use pins.Lease.Transaction.{Moment, expire}
use pins.Lease.Issue.{
  Signing, sign_request, force_of, issuable, still_valid, issuance, sign_and_record, reserve,
  issue_body, issue, issue_for,
}
use pins.Lease.Effect.{Ends, need-Ends, check-Ends, transaction-Ends}

-- The serials rise strictly along the list, from above `lo` up to `hi`.
abbrev pub Rising : ℕ → List Issuance → ℕ → Type 0
Rising lo [] hi = lo ≤ hi
Rising lo (i ∷ is) hi = (lo < i.serial) × Rising i.serial is hi

pub Rising-append :
    (lo hi hi' : ℕ) (is : List Issuance) (i : Issuance)
    → Rising lo is hi
    → hi < i.serial
    → i.serial ≤ hi'
    → Rising lo (is ++ i ∷ []) hi'
Rising-append lo hi hi' [] i h p q = (omega arith, q)
Rising-append lo hi hi' (j ∷ is) i h p q = (h.0, Rising-append j.serial hi hi' is i h.1 p q)

pub Rising-mono :
    (lo hi hi' : ℕ) (is : List Issuance) → Rising lo is hi → hi ≤ hi' → Rising lo is hi'
Rising-mono lo hi hi' [] h p = omega arith
Rising-mono lo hi hi' (j ∷ is) h p = (h.0, Rising-mono j.serial hi hi' is h.1 p)

-- What is on disk has used each serial once at most, and none above the last one reserved.
abbrev pub SerialsUnique : Disk → Type 0
SerialsUnique d = Rising 0 d.issuances d.next_serial

-- And the last one reserved is no smaller than it was in `d`.
abbrev KeepsSerials : Disk → Disk → Type 0
KeepsSerials d e = SerialsUnique e × (d.next_serial ≤ e.next_serial)

module _ (env : Env) (c : Config) (x : Signing) (m : Moment) (a : Actor) (id key : Str)
    (d : Disk) where
  sign_and_record_unique :
      (l : Lease) (r : Role) (before : Time) (e : Disk)
      → e.next_serial ≡ suc d.next_serial
      → Rising 0 e.issuances d.next_serial
      → Ends (KeepsSerials d) (sign_and_record env c x m a id key l r before e)
  unfolding sign_and_record issuance
  sign_and_record_unique l r before e next h =
      let n = d.next_serial in
      let failed : KeepsSerials d e =
        (Rising-mono 0 n e.next_serial e.issuances h (omega arith), omega arith) in
      need-Ends (KeepsSerials d) x.signer e _ _ failed λ sign _.
        need-Ends (KeepsSerials d) (force_of env l r) e _ _ failed λ force _.
          need-Ends (KeepsSerials d)
            (sign (sign_request env c id key l r e.next_serial (m.now 0) before force)) e _ _ failed
            λ cert _. check-Ends (KeepsSerials d) (still_valid env x a l before) e _ _ failed λ _.
              let i = issuance env c id e.next_serial cert (m.now 0) before in
              (
                failed,
                (
                  Rising-append 0 n e.next_serial e.issuances i h (omega arith) (omega arith),
                  omega arith,
                ),
              )

  reserve_unique :
      (l : Lease) (r : Role)
      → KeepsSerials d d
      → Ends (KeepsSerials d) (reserve env c x m a id key l r d)
  unfolding reserve
  reserve_unique l r h = check-Ends (KeepsSerials d) _ d _ _ h λ _.
      check-Ends (KeepsSerials d) _ d _ _ h
        λ _. check-Ends (KeepsSerials d) _ d _ _ h λ _. sign_and_record_unique l r _ _ refl h.0

  pub issue_unique : SerialsUnique d → KeepsSerials d (issue env c x m d a id key).0
  unfolding issue issue_body
  issue_unique unique =
      let h : KeepsSerials d d = (unique, omega arith) in
      elim (Option-cases (public_fingerprint env key)) [
        | inl e ↦ rw (e, issue_for) h
        | inr (fp, e) ↦
            rw (e, issue_for)
              (transaction-Ends (KeepsSerials d) m d (issue_body env c x m a id key fp) h (
                need-Ends (KeepsSerials d) (lookup d.leases id) d _ _ h λ l _.
                  check-Ends (KeepsSerials d) (text_eq l.requester_id a.id) d _ _ h λ _.
                    need-Ends (KeepsSerials d) (issuable env x m a fp (expire l (m.now 0))) d _ _ h
                      λ r _. reserve_unique (expire l (m.now 0)) r h))
      ]
