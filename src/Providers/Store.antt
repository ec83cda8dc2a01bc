-- ===== src/Providers/Store.antt =====
-- The calls of internal/store/store.go on the keys of the providers: the two maps of the state, in
-- memory and in the file.
use pins.Prelude.{ℕ, Bool, true, false, ◌||◌, [], ◌∷◌, Option, none, some, if◌then◌else◌}
use mathlib.Core.Option
use pins.Prelude.Int.{ℤ, pos, negsuc}
use pins.Go.Text.{Str, codes, is_empty}
use pins.Go.Fold.{trim_space}
use pins.Go.Map.{Map, lookup, insert, remove}
use pins.Policy.Store.{Saving, written, restored, kept}
use pins.Providers.{
  KeySet, no_keys, find_key, Clock, set_keys, start_keys, verify_keys, commit_keys, rollback_keys,
  revoke_previous_keys, revoke_keys,
}

-- The part of `State` that is about the keys.
pub record KeyState : Type 0 where
  pub provider_keys : Map Str
  pub key_sets : Map KeySet

pub record KeyStore : Type 0 where
  pub memory : KeyState
  pub disk : KeyState

-- `saveLocked`, for this part
unfoldable pub save_keys : Saving → KeyStore → KeyState → KeyStore × Bool
save_keys written s st = (record { memory = st; disk = st }, true)
save_keys restored s st = (record { memory = s.disk; disk = s.disk }, false)
save_keys kept s st = (record { memory = st; disk = s.disk }, false)

abbrev pub provider_aliases : Map Str
provider_aliases =
    (codes "claude", codes "anthropic")
    ∷ (codes "codex", codes "openai")
    ∷ (codes "deepseek.com", codes "deepseek")
    ∷ (codes "deepseek-ai", codes "deepseek")
    ∷ (codes "experiments.hetzner.com", codes "hetzner")
    ∷ (codes "hetzner.com", codes "hetzner")
    ∷ (codes "inference.hetzner.com", codes "hetzner")
    ∷ (codes "maple", codes "trymaple")
    ∷ (codes "openrouter.ai", codes "openrouter")
    ∷ (codes "trymaple.ai", codes "trymaple")
    ∷ (codes "api.venice.ai", codes "venice")
    ∷ (codes "venice.ai", codes "venice")
    ∷ (codes "google", codes "gemini")
    ∷ (codes "google-ai-studio", codes "gemini")
    ∷ (codes "googleaistudio", codes "gemini")
    ∷ (codes "generativelanguage", codes "gemini")
    ∷ []

-- `ensureProviderKeySetLocked`
unfoldable pub ensure_key_set : KeyState → Str → KeySet
ensure_key_set st p = elim (lookup st.key_sets p) [ none ↦ no_keys | some ks ↦ ks ]

-- `syncActiveProviderKeyLocked`
unfoldable pub active_secret : KeySet → Option Str
active_secret ks =
    if is_empty ks.active_id
    then none
    else Option.map (λ k. k.secret) (find_key ks.active_id ks.keys)

unfoldable pub mirror : Map Str → Str → Option Str → Map Str
mirror m p none = remove m p
mirror m p (some secret) = insert m p secret

unfoldable pub secret_of : Option KeySet → Option Str
secret_of none = none
secret_of (some ks) = active_secret ks

unfoldable pub secret_at : KeyState → Str → Option Str
secret_at st p = secret_of (lookup st.key_sets p)

unfoldable pub sync_active : Str → KeyState → KeyState
sync_active p st = record st { provider_keys = mirror st.provider_keys p (secret_at st p) }

unfoldable pub put_set : Str → KeySet → KeyState → KeyState
put_set p ks st = record st { key_sets = insert st.key_sets p ks }

-- The end of a call, with and without `syncActiveProviderKeyLocked`; `none` is an error before it.
unfoldable pub finish : Saving → KeyStore → Str → Option KeySet → KeyStore × Bool
finish how s p none = (s, false)
finish how s p (some ks) = save_keys how s (put_set p ks s.memory)

unfoldable pub finish_sync : Saving → KeyStore → Str → Option KeySet → KeyStore × Bool
finish_sync how s p none = (s, false)
finish_sync how s p (some ks) = save_keys how s (sync_active p (put_set p ks s.memory))

abbrev pub on_set : KeyStore → Str → (KeySet → Option KeySet) → Option KeySet
on_set s p change = elim (lookup s.memory.key_sets p) [ none ↦ none | some ks ↦ change ks ]

module _ (to_lower : Str → Str) where
  -- `CanonicalProvider`
  unfoldable pub canonical_provider : Str → Str × Bool
  canonical_provider provider =
      let normalized = to_lower (trim_space provider) in
      if is_empty normalized then ([], false) else elim (lookup provider_aliases normalized) [
        | none ↦ (normalized, false)
        | some c ↦ (c, true)
      ]

  -- `normalizeProvider`
  unfoldable pub normalize_provider : Str → Str
  normalize_provider provider = (canonical_provider provider).0

  -- The calls; the identifier is what `generateKeyID` gives.
  unfoldable pub set_provider_key : Saving → Clock → KeyStore → Str → Str → Str → KeyStore × Bool
  set_provider_key how c s provider key id =
      let p = normalize_provider provider in
      let secret = trim_space key in
      if is_empty p || is_empty secret
      then (s, false)
      else finish_sync how s p (some (set_keys c.now id secret (ensure_key_set s.memory p)))

  unfoldable pub rotate_start : Saving → Clock → KeyStore → Str → Str → Str → KeyStore × Bool
  rotate_start how c s provider key id =
      let p = normalize_provider provider in
      let secret = trim_space key in
      if is_empty p || is_empty secret
      then (s, false)
      else finish how s p (start_keys c.now id secret (ensure_key_set s.memory p))

  unfoldable pub rotate_verify : Saving → Clock → KeyStore → Str → KeyStore × Bool
  rotate_verify how c s provider =
      let p = normalize_provider provider in
      if is_empty p then (s, false) else finish how s p (on_set s p (verify_keys c.now))

  abbrev pub hours_of : ℤ → Option ℕ
  hours_of (pos hours) = some hours
  hours_of (negsuc n) = none

  unfoldable pub rotate_commit : Saving → Clock → KeyStore → Str → ℤ → KeyStore × Bool
  rotate_commit how c s provider keep_hours =
      let p = normalize_provider provider in
      if is_empty p then (s, false) else elim (hours_of keep_hours) [
        | none ↦ (s, false)
        | some hours ↦ finish_sync how s p (on_set s p (commit_keys c hours))
      ]

  unfoldable pub rotate_rollback : Saving → Clock → KeyStore → Str → KeyStore × Bool
  rotate_rollback how c s provider =
      let p = normalize_provider provider in
      if is_empty p then (s, false) else finish_sync how s p (on_set s p (rollback_keys c.now))

  unfoldable pub revoke_previous : Saving → Clock → KeyStore → Str → KeyStore × Bool
  revoke_previous how c s provider =
      let p = normalize_provider provider in
      if is_empty p then (s, false) else finish how s p (on_set s p (revoke_previous_keys c.now))

  unfoldable pub revoke_provider_key : Saving → Clock → KeyStore → Str → Str → KeyStore × Bool
  revoke_provider_key how c s provider key_id =
      let p = normalize_provider provider in
      let id = trim_space key_id in
      if is_empty p || is_empty id
      then (s, false)
      else finish how s p (on_set s p (revoke_keys c.now id))

  -- `GetProviderKey`
  unfoldable pub get_provider_key : KeyStore → Str → Str
  get_provider_key s provider =
      let p = normalize_provider provider in
      let plain : Str = elim (lookup s.memory.provider_keys p) [
        | none ↦ []
        | some secret ↦ secret
      ] in
      elim (lookup s.memory.key_sets p) [
        | none ↦ plain
        | some ks ↦
            if is_empty ks.active_id
            then plain
            else elim (find_key ks.active_id ks.keys) [ none ↦ plain | some k ↦ k.secret ]
      ]

-- The calls that change the keys.
pub data Call : Type 0 where
  sets starts : Str → Str → Str → Call
  verifies rolls_back revokes_previous : Str → Call
  commits : Str → ℤ → Call
  revokes : Str → Str → Call

unfoldable pub apply : (Str → Str) → Saving → Clock → KeyStore → Call → KeyStore × Bool
apply lower how c s (sets provider key id) = set_provider_key lower how c s provider key id
apply lower how c s (starts provider key id) = rotate_start lower how c s provider key id
apply lower how c s (verifies provider) = rotate_verify lower how c s provider
apply lower how c s (rolls_back provider) = rotate_rollback lower how c s provider
apply lower how c s (revokes_previous provider) = revoke_previous lower how c s provider
apply lower how c s (commits provider hours) = rotate_commit lower how c s provider hours
apply lower how c s (revokes provider key_id) = revoke_provider_key lower how c s provider key_id
