-- ===== src/Lease/Signers.antt =====
-- Which serials `Issue` of internal/sshaccess/lease.go hands to the signer.
use pins.Prelude.{
  suc, ◌≡◌, refl, ap, ◌⊎◌, inl, inr, Bool, true, false, Option, none, some, Bool-cases,
}
use pins.Go.Text.{Str, text_eq}
use pins.Go.Map.{lookup}
use pins.Lease.Types.{Disk, Actor, Role, Config, Lease, Time, Error, IssueResult, SignRequest}
use pins.Lease.Config.{Env, public_fingerprint}
use pins.Lease.Transaction.{Moment, Outcome, abort, settle, transaction, need, check, expire}
use pins.Lease.Issue.{
  Signing, sign_request, force_of, issuable, still_valid, final_valid, sign_and_record, reserve,
  issue_body, issue, issue_for,
}
use pins.Lease.Effect.{Ends, need-Ends, check-Ends, settle-Ends}

-- Two runs of a function that pass the same tests.
module _ {ℓ κ} {A : Type ℓ} (R : Outcome A → Outcome A → Type κ)
    (same : (d : Disk) (e : Error) → R (abort d e) (abort d e)) where
  need-alike {τ} :
      {V : Type τ} (v : Option V) (d : Disk) (e : Error) (o o' : V → Outcome A)
      → ((a : V) → R (o a) (o' a))
      → R (need v d e o) (need v d e o')
  unfolding need
  need-alike none d e o o' k = same d e
  need-alike (some a) d e o o' k = k a

  check-alike :
      (b : Bool) (d : Disk) (e : Error) (o o' : Outcome A)
      → R o o'
      → R (check b d e o) (check b d e o')
  unfolding check
  check-alike true d e o o' k = k
  check-alike false d e o o' k = same d e

module _ (env : Env) (c : Config) (x : Signing) (m : Moment) (a : Actor) (id key : Str)
    (d : Disk) where
  abbrev with_signer : Option (SignRequest → Option Str) → Signing
  with_signer s = record x { signer = s }

  -- The runs of `Issue` with two signers are alike as soon as they are so from the signing on.
  body-alike {κ} :
      (R : Outcome IssueResult → Outcome IssueResult → Type κ)
      (s s' : Option (SignRequest → Option Str)) (fp : Str)
      → ((d : Disk) (e : Error) → R (abort d e) (abort d e))
      → ((l : Lease) (r : Role) (before : Time) (e : Disk)
          → e.next_serial ≡ suc d.next_serial
          → R
              (sign_and_record env c (with_signer s) m a id key l r before e)
              (sign_and_record env c (with_signer s') m a id key l r before e))
      → R
          (issue_body env c (with_signer s) m a id key fp d)
          (issue_body env c (with_signer s') m a id key fp d)
  unfolding issue_body issuable reserve
  body-alike R s s' fp same k = need-alike R same (lookup d.leases id) d _ _ _ λ l.
      check-alike R same (text_eq l.requester_id a.id) d _ _ _ (
        need-alike R same (issuable env x m a fp (expire l (m.now 0))) d _ _ _ λ r.
          check-alike R same _ d _ _ _ (
            check-alike R same _ d _ _ _
              (check-alike R same _ d _ _ _ (k (expire l (m.now 0)) r _ _ refl))))

  -- From the signing on, the serial is used up.
  signed-counted :
      (s : Option (SignRequest → Option Str)) (l : Lease) (r : Role) (before : Time) (e : Disk)
      → e.next_serial ≡ suc d.next_serial
      → Ends
          (λ f. f.next_serial ≡ suc d.next_serial)
          (sign_and_record env c (with_signer s) m a id key l r before e)
  unfolding sign_and_record
  signed-counted s l r before e h =
      let P : Disk → Type 0 = λ f. f.next_serial ≡ suc d.next_serial in
      need-Ends P s e _ _ h λ sign _. need-Ends P (force_of env l r) e _ _ h λ force _.
        need-Ends P (sign (sign_request env c id key l r e.next_serial (m.now 0) before force)) e _
          _ h
          λ cert _. check-Ends P (still_valid env (with_signer s) a l before) e _ _ h λ _. (h, h)

  final_valid-signer :
      (s : Option (SignRequest → Option Str)) (l : Lease) (before : Time) (o : Option Config)
      → final_valid env (with_signer s) a l before o ≡ final_valid env x a l before o
  unfolding final_valid
  final_valid-signer s l before none = refl
  final_valid-signer s l before (some final) = refl

  -- The signer is asked for a certificate with the reserved serial, and for nothing else.
  signed-agrees :
      (sign sign' : SignRequest → Option Str)
      → ((q : SignRequest) → q.serial ≡ suc d.next_serial → sign q ≡ sign' q)
      → (l : Lease) (r : Role) (before : Time) (e : Disk) → e.next_serial ≡ suc d.next_serial
      → sign_and_record env c (with_signer (some sign)) m a id key l r before e
        ≡ sign_and_record env c (with_signer (some sign')) m a id key l r before e
  unfolding sign_and_record need sign_request still_valid
  signed-agrees sign sign' agree l r before e h =
      need-alike (λ o o'. o ≡ o') (λ _ _. refl) (force_of env l r) e _ _ _
        λ force.
          let q = sign_request env c id key l r e.next_serial (m.now 0) before force in
          rw (agree q h) (
            need-alike (λ o o'. o ≡ o') (λ _ _. refl) (sign' q) e _ _ _
              λ cert.
                rw
                  (
                    final_valid-signer (some sign) l before x.config_after,
                    final_valid-signer (some sign') l before x.config_after,
                  )
                  refl)

  abbrev Reserved : Disk → Type 0
  Reserved e = e.next_serial ≡ suc d.next_serial

  transaction-counted :
      (body body' : Disk → Outcome IssueResult)
      → Ends Reserved (body d) ⊎ (body d ≡ body' d)
      → Reserved (transaction m d body).0 ⊎ (transaction m d body ≡ transaction m d body')
  unfolding transaction settle
  transaction-counted body body' h = elim (Bool-cases m.opens) [
    | inr shut ↦ rw shut (inr refl)
    | inl opens ↦ rw opens (elim h [
      | inl used ↦ inl (settle-Ends Reserved m (body d) used)
      | inr same ↦ inr (ap (settle m) same)
    ])
  ]

  issue_for-counted :
      (s s' : Option (SignRequest → Option Str)) (fp : Option Str)
      → Reserved (issue_for env c (with_signer s) m d a id key fp).0
        ⊎ (issue_for env c (with_signer s) m d a id key fp
            ≡ issue_for env c (with_signer s') m d a id key fp)
  unfolding issue_for
  issue_for-counted s s' none = inr refl
  issue_for-counted s s' (some fp) =
      transaction-counted (issue_body env c (with_signer s) m a id key fp)
        (issue_body env c (with_signer s') m a id key fp)
        (body-alike (λ o o'. Ends Reserved o ⊎ (o ≡ o')) s s' fp (λ _ _. inr refl)
          λ l r before e h. inl (signed-counted s l r before e h))

  issue_for-agrees :
      (sign sign' : SignRequest → Option Str) (fp : Option Str)
      → ((q : SignRequest) → q.serial ≡ suc d.next_serial → sign q ≡ sign' q)
      → issue_for env c (with_signer (some sign)) m d a id key fp
        ≡ issue_for env c (with_signer (some sign')) m d a id key fp
  unfolding issue_for transaction
  issue_for-agrees sign sign' none agree = refl
  issue_for-agrees sign sign' (some fp) agree =
      rw
        (body-alike (λ o o'. o ≡ o') (some sign) (some sign') fp (λ _ _. refl)
          (signed-agrees sign sign' agree))
        refl

  -- `Issue` hands the signer the next serial only: two signers that agree on the requests with this
  -- serial give the same. And unless `Issue` leaves this serial counted as used on disk, in whatever
  -- way it ends, the signer is not asked at all: any other signer, or none, gives the same.
  pub issue-Reserved :
      (sign sign' : SignRequest → Option Str) (other : Option (SignRequest → Option Str))
      → ((q : SignRequest) → q.serial ≡ suc d.next_serial → sign q ≡ sign' q)
      → (issue env c (with_signer (some sign)) m d a id key
          ≡ issue env c (with_signer (some sign')) m d a id key)
        × (Reserved (issue env c (with_signer (some sign)) m d a id key).0
            ⊎ (issue env c (with_signer (some sign)) m d a id key
                ≡ issue env c (with_signer other) m d a id key))
  unfolding issue
  issue-Reserved sign sign' other agree = (
    issue_for-agrees sign sign' (public_fingerprint env key) agree,
    issue_for-counted (some sign) other (public_fingerprint env key),
  )
