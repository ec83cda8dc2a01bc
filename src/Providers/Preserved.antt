-- ===== src/Providers/Preserved.antt =====
-- The calls on the keys of a provider of internal/store/store.go keep them consistent.
use pins.Prelude.{
  ℕ, zero, suc, ◌≡◌, refl, ap, subst, ◌∙◌, Bool, true, false, not, ◌&&◌, List, [], some, arith,
  is_some, if◌then◌else◌, Bool-cases, inl, inr, bind_cases, guard_cases,
}
use pins.Go.Text.{Str, text_eq, text_eq_iff, is_empty, empty-nil}
use pins.Go.Fold.{trim_space}
use pins.Providers.{
  KeyRecord, KeySet, find_key, verify_key, verify_keys, Clock, step_down, step_up, kept_id,
  demote_active, promote_pending, commit_keys, back_down, back_up, rollback_keys, revoke_key,
  revoke_previous_keys, clear_id, revoke_keys,
}
use pins.Providers.Consistent.{
  fits, known, Consistent, renamed, renamed-Consistent, known_nil, known_changed, no_id,
  found_known, previous_apart, pending_apart,
}

module _ (now : Str) where
  pub verify_keys-Consistent :
      (ks : KeySet) {after : KeySet}
      → Consistent ks
      → verify_keys now ks ≡ some after
      → Consistent after
  unfolding verify_keys fits
  verify_keys-Consistent ks {after} c e = guard_cases (not (is_empty ks.pending_id)) _ e λ there e1.
      guard_cases (is_some (find_key ks.pending_id ks.keys)) _ e1 λ found e2.
        let same : renamed ks.active_id ks.pending_id ks.previous_id ks.pending_id (verify_key now)
              ks.keys
            ≡ after =
          cc in
        subst Consistent same (
          renamed-Consistent ks ks.active_id ks.pending_id ks.previous_id ks.pending_id
            (verify_key now) c (λ k. refl) (λ k h t. h) (λ k h t. h) c.active_known c.pending_known
            c.previous_known)

  pub revoke_previous_keys-Consistent :
      (ks : KeySet) {after : KeySet}
      → Consistent ks
      → revoke_previous_keys now ks ≡ some after
      → Consistent after
  unfolding revoke_previous_keys fits
  revoke_previous_keys-Consistent ks {after} c e =
      guard_cases (not (is_empty ks.previous_id)) _ e λ there e1.
        guard_cases (is_some (find_key ks.previous_id ks.keys)) _ e1 λ found e2.
          let same : renamed ks.active_id ks.pending_id [] ks.previous_id (revoke_key now) ks.keys
              ≡ after =
            cc in
          subst Consistent same (
            renamed-Consistent ks ks.active_id ks.pending_id [] ks.previous_id (revoke_key now) c
              (λ k. refl) (λ k h t. let none_left = no_id ks k h in ground arith)
              (λ k h t. let none_left = no_id ks k h in ground arith) c.active_known c.pending_known
              (known_nil ks.keys))

  clear_known :
      (id key_id : Str) (keys : List KeyRecord)
      → known id keys ≡ true
      → known (clear_id id key_id) keys ≡ true
  unfolding clear_id
  clear_known id key_id keys h = elim (Bool-cases (text_eq id key_id)) [
    | inl e ↦ rw e (known_nil keys)
    | inr e ↦ rw e h
  ]

  pub revoke_keys-Consistent :
      (key_id : Str) (ks : KeySet) {after : KeySet}
      → Consistent ks
      → revoke_keys now key_id ks ≡ some after
      → Consistent after
  unfolding revoke_keys fits clear_id
  revoke_keys-Consistent key_id ks {after} c e =
      guard_cases (not (text_eq ks.active_id key_id)) _ e λ other e1.
        guard_cases (is_some (find_key key_id ks.keys)) _ e1 λ found e2.
          let p = clear_id ks.pending_id key_id in
          let v = clear_id ks.previous_id key_id in
          let same : renamed ks.active_id p v key_id (revoke_key now) ks.keys ≡ after = cc in
          subst Consistent same (
            renamed-Consistent ks ks.active_id p v key_id (revoke_key now) c (λ k. refl)
              (λ k h t.
                let none_left = no_id ks k h in
                ground (
                  arith,
                  text_eq_iff k.id key_id,
                  text_eq_iff k.id ks.active_id,
                  text_eq_iff ks.active_id key_id,
                  text_eq_iff k.id ks.pending_id,
                  text_eq_iff ks.pending_id key_id,
                  text_eq_iff k.id ks.previous_id,
                  text_eq_iff ks.previous_id key_id,
                ))
              (λ k h t.
                let none_left = no_id ks k h in
                ground (
                  arith,
                  text_eq_iff k.id key_id,
                  text_eq_iff k.id ks.pending_id,
                  text_eq_iff ks.pending_id key_id,
                  text_eq_iff k.id ks.previous_id,
                  text_eq_iff ks.previous_id key_id,
                ))
              c.active_known (clear_known ks.pending_id key_id ks.keys c.pending_known)
              (clear_known ks.previous_id key_id ks.keys c.previous_known))

  pub rollback_keys-Consistent :
      (ks : KeySet) {after : KeySet}
      → Consistent ks
      → rollback_keys now ks ≡ some after
      → Consistent after
  unfolding rollback_keys fits
  rollback_keys-Consistent ks {after} c e =
      guard_cases (not (is_empty ks.previous_id)) _ e λ there e1.
        guard_cases
          (is_some (find_key ks.previous_id ks.keys) && is_some (find_key ks.active_id ks.keys)) _
          e1
          λ found e2.
            let down = renamed [] ks.pending_id ks.active_id ks.active_id (back_down now) ks.keys in
            let c' : Consistent down =
              renamed-Consistent ks [] ks.pending_id ks.active_id ks.active_id (back_down now) c
                (λ k. refl) (λ k h t. let none_left = no_id ks k h in ground arith)
                (λ k h t. let none_left = no_id ks k h in ground arith) (known_nil ks.keys)
                c.pending_known c.active_known in
            let same : renamed ks.previous_id ks.pending_id ks.active_id ks.previous_id back_up
                  down.keys
                ≡ after =
              cc in
            subst Consistent same (
              renamed-Consistent down ks.previous_id ks.pending_id ks.active_id ks.previous_id
                back_up c' (λ k. refl)
                (λ k h t.
                  let none_left = no_id down k h in
                  let (not_active, not_pending) = previous_apart ks c there in
                  let same_text = (text_eq_iff k.id ks.previous_id).0 t in
                  let one : text_eq k.id ks.active_id ≡ false =
                    ap (λ i. text_eq i ks.active_id) same_text ∙ not_active in
                  let two : text_eq k.id ks.pending_id ≡ false =
                    ap (λ i. text_eq i ks.pending_id) same_text ∙ not_pending in
                  ground arith)
                (λ k h t. let none_left = no_id down k h in ground arith)
                (known_changed ks.previous_id ks.active_id (back_down now) ks.keys (λ k. refl)
                  c.previous_known)
                c'.pending_known c'.previous_known)

  abbrev dropped : KeySet → KeySet
  dropped ks = record ks { active_id = [] }

  step_down-Consistent :
      (clock : Clock) (hours : ℕ) (ks : KeySet)
      → Consistent ks
      → Consistent (
          renamed [] ks.pending_id
            (kept_id hours ks.active_id)
            ks.active_id
            (step_down clock hours)
            ks.keys)
  unfolding fits
  step_down-Consistent clock zero ks c =
      renamed-Consistent ks [] ks.pending_id [] ks.active_id (step_down clock zero) c (λ k. refl)
        (λ k h t. let none_left = no_id ks k h in ground arith)
        (λ k h t. let none_left = no_id ks k h in ground arith) (known_nil ks.keys) c.pending_known
        (known_nil ks.keys)
  step_down-Consistent clock (suc n) ks c =
      renamed-Consistent ks [] ks.pending_id ks.active_id ks.active_id (step_down clock (suc n)) c
        (λ k. refl) (λ k h t. let none_left = no_id ks k h in ground arith)
        (λ k h t. let none_left = no_id ks k h in ground arith) (known_nil ks.keys) c.pending_known
        c.active_known

  either :
      (b : Bool) (one two : KeySet)
      → (b ≡ true → Consistent (dropped one))
      → (b ≡ false → Consistent (dropped two))
      → Consistent (dropped (if b then one else two))
  either true one two f g = f refl
  either false one two f g = g refl

  -- After the active key steps down, the set as if it named none.
  demote_active-Consistent :
      (clock : Clock) (hours : ℕ) (ks : KeySet)
      → Consistent ks
      → Consistent (dropped (demote_active clock hours ks))
  unfolding demote_active
  demote_active-Consistent clock hours ks c =
      let down =
        renamed ks.active_id ks.pending_id (kept_id hours ks.active_id) ks.active_id
          (step_down clock hours) ks.keys in
      either (not (is_empty ks.active_id) && is_some (find_key ks.active_id ks.keys)) down ks
        (λ _. step_down-Consistent clock hours ks c) (λ e. subst Consistent (nothing_named e) c)
    where
      nothing_named :
          (not (is_empty ks.active_id) && is_some (find_key ks.active_id ks.keys)) ≡ false
          → ks ≡ dropped ks
      nothing_named e =
          let nothing : is_empty ks.active_id ≡ true = elim (Bool-cases (is_empty ks.active_id)) [
            | inl t ↦ t
            | inr f ↦
                let found = found_known ks.active_id ks.keys c.active_known (ground arith) in
                ground arith
          ] in
          ap (λ a. record ks { active_id = a }) (empty-nil ks.active_id nothing)

  demote_active-pending :
      (clock : Clock) (hours : ℕ) (ks : KeySet)
      → (demote_active clock hours ks).pending_id ≡ ks.pending_id
  unfolding demote_active
  demote_active-pending clock hours ks =
      elim (Bool-cases (not (is_empty ks.active_id) && is_some (find_key ks.active_id ks.keys))) [
        | inl e ↦ rw e refl
        | inr e ↦ rw e refl
      ]

  pub commit_keys-Consistent :
      (clock : Clock) (hours : ℕ) (ks : KeySet) {after : KeySet}
      → Consistent ks
      → commit_keys clock hours ks ≡ some after
      → Consistent after
  unfolding commit_keys promote_pending fits
  commit_keys-Consistent clock hours ks {after} c e =
      guard_cases (not (is_empty ks.pending_id)) _ e λ there e1.
        bind_cases (find_key ks.pending_id ks.keys) _ e1 λ k e2 e3.
          guard_cases (not (is_empty (trim_space k.verified_at))) _ e3 λ checked e4.
            let down = dropped (demote_active clock hours ks) in
            let c' = demote_active-Consistent clock hours ks c in
            let same_id = demote_active-pending clock hours ks in
            let there' : not (is_empty down.pending_id) ≡ true =
              ap (λ i. not (is_empty i)) same_id ∙ there in
            let same : renamed down.pending_id [] down.previous_id down.pending_id step_up down.keys
                ≡ after =
              cc in
            subst Consistent same (
              renamed-Consistent down down.pending_id [] down.previous_id down.pending_id step_up c'
                (λ k. refl)
                (λ k h t.
                  let none_left = no_id down k h in
                  let differ : text_eq k.id down.previous_id ≡ false =
                    ap (λ i. text_eq i down.previous_id) ((text_eq_iff k.id down.pending_id).0 t)
                    ∙ (pending_apart down c' there').1 in
                  ground arith)
                (λ k h t. let none_left = no_id down k h in ground arith) c'.pending_known
                (known_nil down.keys) c'.previous_known)
