-- ===== src/Providers/History.antt =====
-- Any history of calls of internal/store/store.go on the keys of the providers.
use mathlib.Core.Option.{Option, none, some}
use pins.Prelude.{
  ◌≡◌, refl, sym, ap, subst, ◌∙◌, Bool, true, false, ◌||◌, all, if◌then◌else◌, Option-cases, inl,
  inr,
}
use pins.Prelude.Int.{pos, negsuc}
use pins.Go.Text.{Str, is_empty}
use pins.Go.Fold.{trim_space}
use pins.Go.Map.{lookup}
use pins.Policy.Store.{Saving}
use pins.Providers.{
  KeySet, no_keys, Clock, set_keys, start_keys, verify_keys, commit_keys, rollback_keys,
  revoke_previous_keys, revoke_keys,
}
use pins.Providers.Consistent.{Consistent, known}
use pins.Providers.Preserved.{
  verify_keys-Consistent, revoke_previous_keys-Consistent, revoke_keys-Consistent,
  rollback_keys-Consistent, commit_keys-Consistent,
}
use pins.Providers.Added.{is_new, new_other, set_keys-Consistent, start_keys-Consistent}
use pins.Providers.Store.{
  KeyState, KeyStore, ensure_key_set, active_secret, secret_of, secret_at, finish, finish_sync,
  on_set, normalize_provider, set_provider_key, rotate_start, rotate_verify, rotate_commit,
  rotate_rollback, revoke_previous, revoke_provider_key, Call, sets, starts, verifies, rolls_back,
  revokes_previous, commits, revokes, apply,
}
use pins.Providers.Sound.{SoundStore, finish-SoundStore, finish_sync-SoundStore}
use pins.Providers.Secrets.{
  verify_keys-secret, revoke_previous_keys-secret, revoke_keys-secret, start_keys-secret,
}

-- The identifier that a call makes is new among the keys of its provider.
unfoldable pub Fresh : (Str → Str) → KeyStore → Call → Type 0
Fresh lower s (sets provider key id) =
    is_new id (ensure_key_set s.memory (normalize_provider lower provider)).keys ≡ true
Fresh lower s (starts provider key id) =
    is_new id (ensure_key_set s.memory (normalize_provider lower provider)).keys ≡ true
Fresh lower s _ = Unit

-- The stores that calls make of a sound one, however their saving ends.
pub data Run (lower : Str → Str) (s : KeyStore) : KeyStore → Type 0 where
  stays : Run lower s s
  goes_on :
      {t : KeyStore} (how : Saving) (c : Clock) (call : Call)
      → Run lower s t
      → Fresh lower t call
      → Run lower s (apply lower how c t call).0

pub on_set-some :
    (s : KeyStore) (p : Str) (change : KeySet → Option KeySet) {after : KeySet}
    → on_set s p change ≡ some after
    → (ks : KeySet) × (lookup s.memory.key_sets p ≡ some ks) × (change ks ≡ some after)
on_set-some s p change e = elim (Option-cases (lookup s.memory.key_sets p)) [
  | inl missing ↦ absurd (cc (rw (missing, on_set) at e))
  | inr (ks, found) ↦ (ks, found, rw (found, on_set) at e)
]

no_keys-Consistent : Consistent no_keys
unfolding known all
no_keys-Consistent = record {
  distinct = tt;
  statuses = refl;
  active_known = refl;
  pending_known = refl;
  previous_known = refl;
}

no_keys-secret : active_secret no_keys ≡ secret_of none
unfolding active_secret secret_of
no_keys-secret = refl

secret_of-some : (ks : KeySet) → active_secret ks ≡ secret_of (some ks)
unfolding secret_of
secret_of-some ks = refl

ensure_missing :
    (st : KeyState) (p : Str) → lookup st.key_sets p ≡ none → ensure_key_set st p ≡ no_keys
unfolding ensure_key_set
ensure_missing st p e = rw (e, ensure_key_set) refl

ensure_found :
    (st : KeyState) (p : Str) {ks : KeySet}
    → lookup st.key_sets p ≡ some ks
    → ensure_key_set st p ≡ ks
unfolding ensure_key_set
ensure_found st p e = rw (e, ensure_key_set) refl

module _ (s : KeyStore) (h : SoundStore s) where
  ensure-Consistent : (p : Str) → Consistent (ensure_key_set s.memory p)
  ensure-Consistent p = elim (Option-cases (lookup s.memory.key_sets p)) [
    | inl missing ↦ subst Consistent (sym (ensure_missing s.memory p missing)) no_keys-Consistent
    | inr (ks, found) ↦
        subst Consistent (sym (ensure_found s.memory p found)) (h.memory.sets p ks found)
  ]

  ensure-secret : (p : Str) → active_secret (ensure_key_set s.memory p) ≡ secret_at s.memory p
  unfolding secret_at
  ensure-secret p = elim (Option-cases (lookup s.memory.key_sets p)) [
    | inl missing ↦
        ap active_secret (ensure_missing s.memory p missing)
        ∙ (no_keys-secret ∙ ap secret_of (sym missing))
    | inr (ks, found) ↦
        ap active_secret (ensure_found s.memory p found)
        ∙ (secret_of-some ks ∙ ap secret_of (sym found))
  ]

  changed-Consistent :
      (p : Str) (change : KeySet → Option KeySet)
      → ((ks : KeySet) (after : KeySet) → Consistent ks → change ks ≡ some after → Consistent after)
      → (after : KeySet) → on_set s p change ≡ some after
      → Consistent after
  changed-Consistent p change keeps after e =
      let (ks, found, changed) = on_set-some s p change e in
      keeps ks after (h.memory.sets p ks found) changed

  changed-secret :
      (p : Str) (change : KeySet → Option KeySet)
      → ((ks : KeySet) (after : KeySet)
          → Consistent ks
          → change ks ≡ some after
          → Consistent after × (active_secret after ≡ active_secret ks))
      → (after : KeySet) → on_set s p change ≡ some after
      → Consistent after × (active_secret after ≡ secret_at s.memory p)
  unfolding secret_at secret_of
  changed-secret p change keeps after e =
      let (ks, found, changed) = on_set-some s p change e in
      let (consistent, same) = keeps ks after (h.memory.sets p ks found) changed in
      (consistent, same ∙ (secret_of-some ks ∙ ap secret_of (sym found)))

  either-Sound :
      (b : Bool) (t : KeyStore × Bool)
      → SoundStore t.0
      → SoundStore (if◌then◌else◌ {A = KeyStore × Bool} b (s, false) t).0
  either-Sound true t g = h
  either-Sound false t g = g

  apply-SoundStore :
      (lower : Str → Str) (how : Saving) (c : Clock) (call : Call)
      → Fresh lower s call
      → SoundStore (apply lower how c s call).0
  unfolding apply Fresh set_provider_key rotate_start rotate_verify rotate_commit rotate_rollback
      revoke_previous revoke_provider_key
  apply-SoundStore lower how c (sets provider key id) fresh =
      let p = normalize_provider lower provider in
      let ks = set_keys c.now id (trim_space key) (ensure_key_set s.memory p) in
      either-Sound (is_empty p || is_empty (trim_space key)) (finish_sync how s p (some ks)) (
        finish_sync-SoundStore how s p (some ks) h (λ after e. subst Consistent (cc e) (
          set_keys-Consistent c.now id (trim_space key) (ensure_key_set s.memory p)
            (ensure-Consistent p) fresh)))
  apply-SoundStore lower how c (starts provider key id) fresh =
      let p = normalize_provider lower provider in
      let ks = ensure_key_set s.memory p in
      let consistent = ensure-Consistent p in
      let differ = new_other id ks.active_id ks.keys fresh consistent.active_known in
      either-Sound (is_empty p || is_empty (trim_space key))
        (finish how s p (start_keys c.now id (trim_space key) ks))
        (finish-SoundStore how s p (start_keys c.now id (trim_space key) ks) h (λ after e. (
          start_keys-Consistent c.now id (trim_space key) ks consistent fresh e,
          start_keys-secret c.now id (trim_space key) ks differ e ∙ ensure-secret p,
        )))
  apply-SoundStore lower how c (verifies provider) fresh =
      let p = normalize_provider lower provider in
      either-Sound (is_empty p) (finish how s p (on_set s p (verify_keys c.now))) (
        finish-SoundStore how s p (on_set s p (verify_keys c.now)) h (
          changed-secret p (verify_keys c.now)
            (λ ks after k e. (verify_keys-Consistent c.now ks k e, verify_keys-secret c.now ks e))))
  apply-SoundStore lower how c (rolls_back provider) fresh =
      let p = normalize_provider lower provider in
      either-Sound (is_empty p) (finish_sync how s p (on_set s p (rollback_keys c.now))) (
        finish_sync-SoundStore how s p (on_set s p (rollback_keys c.now)) h (
          changed-Consistent p (rollback_keys c.now)
            (λ ks after k e. rollback_keys-Consistent c.now ks k e)))
  apply-SoundStore lower how c (revokes_previous provider) fresh =
      let p = normalize_provider lower provider in
      either-Sound (is_empty p) (finish how s p (on_set s p (revoke_previous_keys c.now))) (
        finish-SoundStore how s p (on_set s p (revoke_previous_keys c.now)) h (
          changed-secret p (revoke_previous_keys c.now) (λ ks after k e. (
            revoke_previous_keys-Consistent c.now ks k e,
            revoke_previous_keys-secret c.now ks e,
          ))))
  apply-SoundStore lower how c (commits provider (pos hours)) fresh =
      let p = normalize_provider lower provider in
      either-Sound (is_empty p) (finish_sync how s p (on_set s p (commit_keys c hours))) (
        finish_sync-SoundStore how s p (on_set s p (commit_keys c hours)) h (
          changed-Consistent p (commit_keys c hours)
            (λ ks after k e. commit_keys-Consistent c.now c hours ks k e)))
  apply-SoundStore lower how c (commits provider (negsuc n)) fresh =
      either-Sound (is_empty (normalize_provider lower provider)) (s, false) h
  apply-SoundStore lower how c (revokes provider key_id) fresh =
      let p = normalize_provider lower provider in
      let id = trim_space key_id in
      either-Sound (is_empty p || is_empty id) (finish how s p (on_set s p (revoke_keys c.now id)))
        (finish-SoundStore how s p (on_set s p (revoke_keys c.now id)) h (
          changed-secret p (revoke_keys c.now id) (λ ks after k e.
            (revoke_keys-Consistent c.now id ks k e, revoke_keys-secret c.now id ks e))))

-- Any history of calls, however their saving ends, keeps a store sound: for each provider no two keys
-- have one identifier, exactly the keys with the status active or pending are those that the set
-- names so, what it names exists, and the plain map has the secret of the active key.
pub Run-SoundStore :
    (lower : Str → Str) (s t : KeyStore) → SoundStore s → Run lower s t → SoundStore t
Run-SoundStore lower s t h stays = h
Run-SoundStore lower s after h (goes_on {t} how c call run fresh) =
    apply-SoundStore t (Run-SoundStore lower s t h run) lower how c call fresh
