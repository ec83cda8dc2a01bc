-- ===== src/Lease/Audit.antt =====
-- What holds of the recorded certificates after any history of calls.
use pins.Prelude.{
  ◌≤◌, ◌<◌, ◌≡◌, sym, ap, subst, inl, inr, List, [], ◌∷◌, ◌++◌, some, arith, Option-cases, All, ltb,
  ltb→lt,
}
use pins.Go.Text.{Str, text_eq}
use pins.Go.Map.{lookup}
use pins.Lease.Types.{Disk, Actor, Role, Config, Lease, Time, Issuance}
use pins.Lease.Config.{Env, public_fingerprint}
use pins.Lease.Transaction.{Moment, expire, empty}
use pins.Lease.Issue.{
  Signing, valid_before, sign_request, force_of, issuable, still_valid, issuance, sign_and_record,
  reserve, issue_body, issue, issue_for,
}
use pins.Lease.Effect.{Ends, need-Ends, check-Ends, transaction-Ends}
use pins.Lease.Ledger.{Continues}
use pins.Lease.Certificates.{valid_before-le}
use pins.Lease.Serials.{Rising, SerialsUnique, issue_unique}
use pins.Lease.Calls.{Call, issues, step, Fresh, Run, start, next}
use pins.Lease.Quiet.{Quiet, step-Quiet}
use pins.Lease.History.{step-Continues}

-- The certificate was of use when it was issued, and ends no later than its lease.
pub record Within (d : Disk) (i : Issuance) : Type 0 where
  pub lease : Lease
  pub found : lookup d.leases i.lease_id ≡ some lease
  pub bounded : i.valid_before ≤ lease.hard_expires_at
  pub useful : i.issued_at < i.valid_before

abbrev AllWithin : Disk → Disk → Type 0
AllWithin d e = All (Within d) e.issuances

All-append {ℓ κ} :
    {A : Type ℓ} (P : A → Type κ) (xs : List A) (a : A) → All P xs → P a → All P (xs ++ a ∷ [])
All-append P [] a h p = (p, tt)
All-append P (x ∷ xs) a h p = (h.0, All-append P xs a h.1 p)

All-map {ℓ κ τ} :
    {A : Type ℓ} (P : A → Type κ) (Q : A → Type τ) (xs : List A)
    → ((a : A) → P a → Q a)
    → All P xs
    → All Q xs
All-map P Q [] f h = tt
All-map P Q (x ∷ xs) f h = (f x h.0, All-map P Q xs f h.1)

Within-Continues : (d e : Disk) → Continues d e → (i : Issuance) → Within d i → Within e i
Within-Continues d e s i w =
    let (l', found, evolved) = s.evolve i.lease_id w.lease w.found in
    record {
      lease = l';
      found = found;
      bounded =
          subst (λ t. i.valid_before ≤ t) (ap (λ (l : Lease). l.hard_expires_at) (sym evolved.kept))
            w.bounded;
      useful = w.useful;
    }

expire-hard : (l : Lease) (t : Time) → (expire l t).hard_expires_at ≡ l.hard_expires_at
unfolding expire
expire-hard l t = ground arith

module _ (env : Env) (c : Config) (x : Signing) (m : Moment) (a : Actor) (id key : Str) (d : Disk)
    (before_call : AllWithin d d) where
  signed-Within :
      (l₀ : Lease) (r : Role) (e : Disk)
      → lookup d.leases id ≡ some l₀
      → m.now 0 < valid_before env c r (expire l₀ (m.now 0)) (m.now 0)
      → AllWithin d e
      → Ends (AllWithin d) (
          sign_and_record env c x m a id key
            (expire l₀ (m.now 0))
            r
            (valid_before env c r (expire l₀ (m.now 0)) (m.now 0))
            e)
  unfolding sign_and_record issuance
  signed-Within l₀ r e found alive h =
      let l = expire l₀ (m.now 0) in
      let before = valid_before env c r l (m.now 0) in
      need-Ends (AllWithin d) x.signer e _ _ h λ sign _.
        need-Ends (AllWithin d) (force_of env l r) e _ _ h λ force _.
          need-Ends (AllWithin d)
            (sign (sign_request env c id key l r e.next_serial (m.now 0) before force)) e _ _ h
            λ cert _. check-Ends (AllWithin d) (still_valid env x a l before) e _ _ h λ _. (
              h,
              All-append (Within d) e.issuances _ h (record {
                lease = l₀;
                found = found;
                bounded =
                    subst (λ t. before ≤ t) (expire-hard l₀ (m.now 0))
                      (valid_before-le env c r l (m.now 0)).0;
                useful = alive;
              }),
            )

  reserved-Within :
      (l₀ : Lease) (r : Role)
      → lookup d.leases id ≡ some l₀
      → Ends (AllWithin d) (reserve env c x m a id key (expire l₀ (m.now 0)) r d)
  unfolding reserve
  reserved-Within l₀ r found =
      let before = valid_before env c r (expire l₀ (m.now 0)) (m.now 0) in
      check-Ends (AllWithin d) (ltb (m.now 0) before) d _ _ before_call λ alive.
        check-Ends (AllWithin d) _ d _ _ before_call λ _.
          check-Ends (AllWithin d) _ d _ _ before_call
            λ _. signed-Within l₀ r _ found (ltb→lt (m.now 0) before alive) before_call

  issue-Within : AllWithin d (issue env c x m d a id key).0
  unfolding issue issue_body
  issue-Within = elim (Option-cases (public_fingerprint env key)) [
    | inl e ↦ rw (e, issue_for) before_call
    | inr (fp, e) ↦
        rw (e, issue_for)
          (transaction-Ends (AllWithin d) m d (issue_body env c x m a id key fp) before_call (
            need-Ends (AllWithin d) (lookup d.leases id) d _ _ before_call λ l₀ found.
              check-Ends (AllWithin d) (text_eq l₀.requester_id a.id) d _ _ before_call λ _.
                need-Ends (AllWithin d) (issuable env x m a fp (expire l₀ (m.now 0))) d _ _
                  before_call λ r _. reserved-Within l₀ r found))
  ]

-- What the recorded certificates satisfy between two calls.
pub record Audited (d : Disk) : Type 0 where
  pub serials : SerialsUnique d
  pub within : All (Within d) d.issuances

Quiet-Audited : (d e : Disk) → Quiet d e → Continues d e → Audited d → Audited e
Quiet-Audited d e q s h = record {
  serials =
      subst (λ n. Rising 0 e.issuances n) (sym q.serial_eq)
        (subst (λ is. Rising 0 is d.next_serial) (sym q.issuances_eq) h.serials);
  within =
      subst (All (Within e)) (sym q.issuances_eq)
        (All-map (Within d) (Within e) d.issuances (Within-Continues d e s) h.within);
}

issued-Audited :
    (env : Env) (c : Config) (x : Signing) (m : Moment) (a : Actor) (id key : Str) (d : Disk)
    → Continues d (issue env c x m d a id key).0
    → Audited d
    → Audited (issue env c x m d a id key).0
issued-Audited env c x m a id key d s h = record {
  serials = (issue_unique env c x m a id key d h.serials).0;
  within =
      All-map (Within d) (Within _) _ (Within-Continues d _ s)
        (issue-Within env c x m a id key d h.within);
}

step-Audited :
    (env : Env) (c : Config) (m : Moment) (d : Disk) (k : Call)
    → Fresh d k
    → Audited d
    → Audited (step env c m k d)
step-Audited env c m d (issues x a id key) unused h =
    unfold step in
    issued-Audited env c x m a id key d (step-Continues env c m d (issues x a id key) unused) h
step-Audited env c m d k unused h =
    Quiet-Audited d _ (step-Quiet env c m d k (λ i. i)) (step-Continues env c m d k unused) h

-- No call takes the counter back, so no reserved serial is ever given again.
step-counter :
    (env : Env) (c : Config) (m : Moment) (d : Disk) (k : Call)
    → Audited d
    → d.next_serial ≤ (step env c m k d).next_serial
step-counter env c m d (issues x a id key) h =
    unfold step in (issue_unique env c x m a id key d h.serials).1
step-counter env c m d k h =
    let same = (step-Quiet env c m d k (λ i. i)).serial_eq in omega (arith, same)

empty-Audited : Audited empty
empty-Audited = record { serials = omega arith; within = tt }

Run-counter :
    (env : Env) (c : Config) (d e : Disk)
    → Audited d
    → Run env c d e
    → Audited e × (d.next_serial ≤ e.next_serial)
Run-counter env c d e h start = (h, omega arith)
Run-counter env c d f h (next {e} r m k unused same) =
    let (before, risen) = Run-counter env c d e h r in
    let further = step-counter env c m e k before in
    (
      subst Audited (sym same) (step-Audited env c m e k unused before),
      subst (λ x. d.next_serial ≤ x.next_serial) (sym same) (omega (arith, risen, further)),
    )

-- After any history of calls from the empty state, where each new lease gets an identifier that is
-- not in use, the serials of the recorded certificates rise
-- strictly and none is above the counter, so no serial was given twice; each recorded certificate
-- belongs to a lease that is still on disk, ends no later than that lease's hard expiry, and ended
-- after it was issued; and the counter is nowhere below what it was at any earlier point of the
-- history, also where a call failed after it had reserved a serial.
pub Run-Audited :
    (env : Env) (c : Config) (d e : Disk)
    → Run env c empty d
    → Run env c d e
    → Audited e × (d.next_serial ≤ e.next_serial)
Run-Audited env c d e r s = Run-counter env c d e (Run-counter env c empty d empty-Audited r).0 s
