-- ===== src/Policy/History.antt =====
-- Histories of calls of the policy store, internal/store/policy_store.go, whatever way each saving
-- ends, and what they keep of an approval that is no longer pending.
use pins.Prelude.{
  ◌≡◌, refl, sym, ap, ◌∙◌, subst, Bool, true, false, List, [], ◌∷◌, ◌++◌, Option, none, some,
  Bool-cases, inl, inr, find,
}
use pins.Prelude.Int.{ℤ}
use pins.Go.Text.{Str, text_eq, text_eq_sound}
use pins.Policy.Types.{Time, Grant, Receipt, ApprovalStatus, ApprovalRequest, IdentityAttestation}
use pins.Policy.Store.{
  State, Store, Saving, written, restored, kept, save_locked, update_first, create_grant,
  change_grant, change_found, revoke_grant, add_grant_spend, add_receipt, create_approval,
  new_approval, get_approval, get_grant, is_pending, resolved, resolve_pending, resolve_found,
  resolve_approval,
}

-- The calls that change the store. `saves_else` is a call of another part of the store, which leaves
-- the grants, the receipts and the approvals and saves the whole state; `reloads` is one that reads the
-- state back from the file, as the check of a token does.
pub data Call : Type 0 where
  creates_grant : Grant → Str → Time → Call
  revokes : Str → Time → Call
  spends : Str → ℤ → Time → Call
  adds_receipt : Receipt → Call
  creates_approval : ApprovalRequest → Str → Time → Call
  resolves : Str → ApprovalStatus → Str → Str → IdentityAttestation → Time → Call
  saves_else reloads : Call

-- The store after a call.
unfoldable pub step : Saving → Call → Store → Store
step how (creates_grant g id now) s = (create_grant how s g id now).0
step how (revokes id now) s = (revoke_grant how s id now).0
step how (spends id amount now) s = (add_grant_spend how s id amount now).0
step how (adds_receipt r) s = (add_receipt how s r).0
step how (creates_approval a id now) s = (create_approval how s a id now).0
step how (resolves id status by reason att now) s =
    (resolve_approval how s id status by reason att now).0
step how saves_else s = (save_locked how s s.memory).0
step how reloads s = record { memory = s.disk; disk = s.disk }

-- Any number of calls, each with its own way to end the saving.
pub data Run (s : Store) : Store → Type 0 where
  start : Run s s
  next : {t u : Store} → Run s t → (how : Saving) (k : Call) → u ≡ step how k t → Run s u

abbrev found_in : State → Str → Option ApprovalRequest
found_in st id = find (λ x. text_eq x.id id) st.approvals

-- The approval is in the memory and in the file.
pub record Lasting (id : Str) (a : ApprovalRequest) (s : Store) : Type 0 where
  pub in_memory : get_approval s id ≡ some a
  pub in_file : find (λ x. text_eq x.id id) s.disk.approvals ≡ some a

find-append {ℓ} :
    {A : Type ℓ} (test : A → Bool) (xs ys : List A) {a : A}
    → find test xs ≡ some a
    → find test (xs ++ ys) ≡ some a
unfolding find
find-append test [] ys h = cc
find-append test (x ∷ xs) ys {a} h = elim (Bool-cases (test x)) [
  | inl t ↦ rw t (rw t at h)
  | inr f ↦ let rest = find-append test xs ys {a = a} (rw f at h) in rw f rest
]

-- To change the first element that passes one test does not change what another test finds.
find-update_other {ℓ} :
    {A : Type ℓ} (test other : A → Bool) (change : A → A)
    → ((x : A) → other x ≡ true → test x ≡ false)
    → ((x : A) → test (change x) ≡ test x)
    → (xs : List A) → find test (update_first other change xs) ≡ find test xs
unfolding find update_first
find-update_other test other change apart keeps [] = refl
find-update_other test other change apart keeps (x ∷ xs) = elim (Bool-cases (other x)) [
  | inl o ↦ let t = apart x o in rw (o, keeps x, t) refl
  | inr o ↦
      let rest = find-update_other test other change apart keeps xs in
      rw o (elim (Bool-cases (test x)) [ inl t ↦ rw t refl | inr t ↦ rw t rest ])
]

module _ (id : Str) (a : ApprovalRequest) where
  save_locked-Lasting :
      (how : Saving) (s : Store) (st : State)
      → Lasting id a s
      → found_in st id ≡ some a
      → Lasting id a (save_locked how s st).0
  unfolding save_locked get_approval
  save_locked-Lasting written s st h e = record { in_memory = e; in_file = e }
  save_locked-Lasting restored s st h e = record { in_memory = h.in_file; in_file = h.in_file }
  save_locked-Lasting kept s st h e = record { in_memory = e; in_file = h.in_file }

  change_found-Lasting :
      (how : Saving) (s : Store) (gid : Str) (change : Grant → Grant) (o : Option Grant)
      → Lasting id a s
      → Lasting id a (change_found how s gid change o).0
  unfolding change_found get_approval
  change_found-Lasting how s gid change none h = h
  change_found-Lasting how s gid change (some g) h = save_locked-Lasting how s _ h h.in_memory

  change_grant-Lasting :
      (how : Saving) (s : Store) (gid : Str) (change : Grant → Grant)
      → Lasting id a s
      → Lasting id a (change_grant how s gid change).0
  unfolding change_grant
  change_grant-Lasting how s gid change h =
      change_found-Lasting how s gid change (get_grant s gid) h

  -- To resolve another approval.
  resolve_other-Lasting :
      (how : Saving) (s : Store) (other : Str) (status : ApprovalStatus) (by reason : Str)
      (att : IdentityAttestation) (now : Time) (b : ApprovalRequest)
      → text_eq other id ≡ false
      → Lasting id a s
      → Lasting id a (resolve_pending how s other (resolved status by reason att now) b).0
  unfolding resolve_pending resolved get_approval
  resolve_other-Lasting how s other status by reason att now b different h =
      save_locked-Lasting how s _ h (
        find-update_other (λ x. text_eq x.id id) (λ x. text_eq x.id other)
          (resolved status by reason att now)
          (λ x e. ap (λ i. text_eq i id) (text_eq_sound x.id other e) ∙ different) (λ x. refl)
          s.memory.approvals
        ∙ h.in_memory)

  resolve_found-Lasting :
      (how : Saving) (s : Store) (other : Str) (status : ApprovalStatus) (by reason : Str)
      (att : IdentityAttestation) (now : Time) (o : Option ApprovalRequest)
      → get_approval s other ≡ o
      → is_pending a.status ≡ false
      → Lasting id a s
      → Lasting id a (resolve_found how s other (resolved status by reason att now) o).0
  unfolding resolve_found
  resolve_found-Lasting how s other status by reason att now none e closed h = h
  resolve_found-Lasting how s other status by reason att now (some b) e closed h =
      elim (Bool-cases (is_pending b.status)) [
        | inr shut ↦ rw shut h
        | inl open_now ↦ rw open_now (
            resolve_other-Lasting how s other status by reason att now b
              (elim (Bool-cases (text_eq other id)) [
                | inr different ↦ different
                | inl same ↦
                    let one : some b ≡ some a =
                      sym e ∙ ap (get_approval s) (text_eq_sound other id same) ∙ h.in_memory in
                    let equal : b ≡ a = cc in
                    cc (subst (λ x. is_pending x.status ≡ true) equal open_now)
              ])
              h)
      ]

  resolve_approval-Lasting :
      (how : Saving) (s : Store) (other : Str) (status : ApprovalStatus) (by reason : Str)
      (att : IdentityAttestation) (now : Time)
      → is_pending a.status ≡ false
      → Lasting id a s
      → Lasting id a (resolve_approval how s other status by reason att now).0
  unfolding resolve_approval
  resolve_approval-Lasting how s other status by reason att now closed h =
      elim (Bool-cases (is_pending status)) [
        | inl bad ↦ rw bad h
        | inr fine ↦ rw fine (
            resolve_found-Lasting how s other status by reason att now (get_approval s other) refl
              closed h)
      ]

  step-Lasting :
      (how : Saving) (k : Call) (s : Store)
      → is_pending a.status ≡ false
      → Lasting id a s
      → Lasting id a (step how k s)
  unfolding step
  step-Lasting how (creates_grant g gid now) s closed h =
      unfold create_grant get_approval in save_locked-Lasting how s _ h h.in_memory
  step-Lasting how (revokes gid now) s closed h =
      unfold revoke_grant in change_grant-Lasting how s gid _ h
  step-Lasting how (spends gid amount now) s closed h =
      unfold add_grant_spend in change_grant-Lasting how s gid _ h
  step-Lasting how (adds_receipt r) s closed h =
      unfold add_receipt get_approval in save_locked-Lasting how s _ h h.in_memory
  step-Lasting how (creates_approval b new now) s closed h =
      unfold create_approval get_approval in
      save_locked-Lasting how s _ h (
        find-append (λ x. text_eq x.id id) s.memory.approvals (new_approval b new now ∷ [])
          h.in_memory)
  step-Lasting how (resolves other status by reason att now) s closed h =
      resolve_approval-Lasting how s other status by reason att now closed h
  step-Lasting how saves_else s closed h =
      unfold get_approval in save_locked-Lasting how s s.memory h h.in_memory
  step-Lasting how reloads s closed h =
      unfold get_approval in record { in_memory = h.in_file; in_file = h.in_file }

  -- No history of calls changes an approval that is no longer pending.
  pub Run-Lasting :
      (s t : Store) → is_pending a.status ≡ false → Lasting id a s → Run s t → Lasting id a t
  Run-Lasting s t closed h start = h
  Run-Lasting s u closed h (next {t} r how k same) =
      subst (Lasting id a) (sym same) (step-Lasting how k t closed (Run-Lasting s t closed h r))
