-- ===== src/Providers/Samples.antt =====
-- A rotation of a key.
use mathlib.Core.Option.{some}
use pins.Prelude.{◌≡◌, refl, true, false, [], ◌∷◌, any, find}
use pins.Prelude.Int.{pos, negsuc, wrap64}
use pins.Go.Text.{Str, codes, text_eq}
use pins.Go.Fold.{trim_space}
use pins.Go.Map.{lookup, insert, remove}
use pins.Policy.Store.{written, update_first}
use pins.Providers.{
  active, pending, new_key, KeySet, Clock, find_key, change_key, retire, retire_all, set_keys,
  start_keys, verify_keys, hours_long, demote_active, promote_pending, commit_keys, rollback_keys,
}
use pins.Providers.Store.{
  KeyState, KeyStore, save_keys, ensure_key_set, active_secret, mirror, secret_of, secret_at,
  sync_active, put_set, finish, finish_sync, canonical_provider, normalize_provider,
  set_provider_key, rotate_start, rotate_verify, rotate_commit, rotate_rollback, get_provider_key,
  sets, starts, verifies, apply,
}
use pins.Providers.Sound.{Sound, SoundStore}
use pins.Providers.History.{stays, goes_on, Fresh, Run-SoundStore}
use pins.Providers.Rotation.{Promoted, rotate_commit-Promoted, rotate_rollback-rotate_commit}

abbrev same : Str → Str
same s = s

abbrev clock : Clock
clock = record { now = codes "2026-01-01"; later = λ _. codes "2026-01-02" }

abbrev name : Str
name = codes "codex"

abbrev nothing : KeyState
nothing = record { provider_keys = []; key_sets = [] }

abbrev empty : KeyStore
empty = record { memory = nothing; disk = nothing }

abbrev after_set : KeyStore
after_set = (apply same written clock empty (sets name (codes "old") (codes "key_1"))).0

abbrev after_start : KeyStore
after_start = (apply same written clock after_set (starts name (codes "new") (codes "key_2"))).0

abbrev after_verify : KeyStore
after_verify = (apply same written clock after_start (verifies name)).0

abbrev after_commit : KeyStore
after_commit = (rotate_commit same written clock after_verify name (pos 24)).0

abbrev verified_set : KeySet
verified_set = record {
  active_id = codes "key_1";
  pending_id = codes "key_2";
  previous_id = [];
  keys =
      new_key (codes "key_1") active (codes "old") (codes "2026-01-01") (codes "2026-01-01")
      ∷ new_key (codes "key_2") pending (codes "new") (codes "2026-01-01") (codes "2026-01-01")
      ∷ [];
}

-- The commit goes through, not before the verification; the set before it; and the fresh identifiers.
runs :
    (rotate_commit same written clock after_verify name (pos 24) ≡ (after_commit, true))
    × ((rotate_commit same written clock after_start name (pos 24)).1 ≡ false)
    × ((rotate_commit same written clock after_verify name (negsuc 0)).1 ≡ false)
    × (lookup after_verify.memory.key_sets (normalize_provider same name) ≡ some verified_set)
    × (active_secret verified_set ≡ some (codes "old"))
unfolding find_key change_key retire retire_all set_keys start_keys verify_keys hours_long
    demote_active promote_pending commit_keys rollback_keys save_keys ensure_key_set active_secret
    mirror secret_of secret_at sync_active put_set finish finish_sync canonical_provider
    normalize_provider set_provider_key rotate_start rotate_verify rotate_commit rotate_rollback
    apply text_eq trim_space lookup insert remove update_first wrap64 any find
runs = (refl, refl, refl, refl, refl)

first-Fresh : Fresh same empty (sets name (codes "old") (codes "key_1"))
unfolding Fresh ensure_key_set normalize_provider canonical_provider lookup text_eq trim_space any
first-Fresh = refl

empty-SoundStore : SoundStore empty
unfolding lookup secret_at secret_of
empty-SoundStore = record { memory = sound; disk = sound }
  where
    sound : Sound nothing
    sound = record { sets = λ p ks e. absurd (cc e); mirrored = λ p. refl }

Run-SoundStore_example : SoundStore after_set
Run-SoundStore_example =
    Run-SoundStore same empty after_set empty-SoundStore
      (goes_on written clock (sets name (codes "old") (codes "key_1")) stays first-Fresh)

rotate_commit-Promoted_example : Promoted same after_verify after_commit name
rotate_commit-Promoted_example =
    rotate_commit-Promoted same written clock after_verify name 24 after_commit runs.0

rotate_rollback-rotate_commit_example :
    ((rotate_rollback same written clock after_commit name).1 ≡ true)
    × (get_provider_key same (rotate_rollback same written clock after_commit name).0 name
        ≡ codes "old")
    × (get_provider_key same after_verify name ≡ codes "old")
rotate_rollback-rotate_commit_example =
    rotate_rollback-rotate_commit same written clock clock after_verify after_commit name 23
      verified_set (codes "old") runs.3 refl runs.4 runs.0
