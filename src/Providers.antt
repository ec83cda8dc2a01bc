-- ===== src/Providers.antt =====
-- internal/store/store.go: the keys of the model providers and their rotation. A time is the text that
-- the store keeps of it.
pub mod Updates
pub mod Consistent
pub mod Preserved
pub mod Added
pub mod Store
pub mod Sound
pub mod Secrets
pub mod History
pub mod Rotation
pub mod Samples
use pins.Prelude.{
  ℕ, zero, suc, ◌*◌, Bool, true, false, not, ◌&&◌, ◌||◌, List, [], ◌∷◌, ◌++◌, Option, none, some,
  find, any, is_some, if◌then◌else◌, ◌>>=◌, ◌>>◌, guard,
}
use pins.Prelude.Int.{ℤ, pos, negsuc, wrap64}
use pins.Go.Text.{Str, codes, text_eq, is_empty}
use pins.Go.Fold.{trim_space}
use pins.Go.Map.{Map, lookup, insert, remove}
use pins.Policy.Store.{Saving, written, restored, kept, update_first}

pub data KeyStatus : Type 0 where
  active pending previous revoked : KeyStatus

pub record KeyRecord : Type 0 where
  pub id : Str
  pub status : KeyStatus
  pub secret : Str
  pub created_at : Str
  pub verified_at : Str
  pub revoked_at : Str
  pub expires_at : Str

pub record KeySet : Type 0 where
  pub active_id : Str
  pub pending_id : Str
  pub previous_id : Str
  pub keys : List KeyRecord

abbrev pub no_keys : KeySet
no_keys = record { active_id = []; pending_id = []; previous_id = []; keys = [] }

abbrev pub has_id : Str → KeyRecord → Bool
has_id id k = text_eq k.id id

-- `findProviderKeyIndex`, with the key that stands there
unfoldable pub find_key : Str → List KeyRecord → Option KeyRecord
find_key id keys = find (has_id id) keys

-- `ks.Keys[idx]` is changed, where `idx` is that of this identifier.
unfoldable pub change_key : Str → (KeyRecord → KeyRecord) → List KeyRecord → List KeyRecord
change_key id change keys = update_first (has_id id) change keys

-- The loop of `SetProviderKey`.
unfoldable pub retire : Str → KeyRecord → KeyRecord
retire now k = elim (k.status) [
  | revoked ↦ k
  | active ↦ record k {
    status = revoked;
    revoked_at = if is_empty k.revoked_at then now else k.revoked_at;
  }
  | pending ↦ record k {
    status = revoked;
    revoked_at = if is_empty k.revoked_at then now else k.revoked_at;
  }
  | previous ↦ record k {
    status = revoked;
    revoked_at = if is_empty k.revoked_at then now else k.revoked_at;
  }
]

unfoldable pub retire_all : Str → List KeyRecord → List KeyRecord
retire_all now [] = []
retire_all now (k ∷ keys) = retire now k ∷ retire_all now keys

abbrev pub new_key : Str → KeyStatus → Str → Str → Str → KeyRecord
new_key id status secret now verified = record {
  id = id;
  status = status;
  secret = secret;
  created_at = now;
  verified_at = verified;
  revoked_at = [];
  expires_at = [];
}

-- `SetProviderKey`
unfoldable pub set_keys : Str → Str → Str → KeySet → KeySet
set_keys now id secret ks = record {
  active_id = id;
  pending_id = [];
  previous_id = [];
  keys = retire_all now ks.keys ++ (new_key id active secret now now ∷ []);
}

-- `RotateProviderKeyStart`
unfoldable pub start_keys : Str → Str → Str → KeySet → Option KeySet
start_keys now id secret ks = do
  guard (is_empty ks.pending_id)
  some (record ks { pending_id = id; keys = ks.keys ++ (new_key id pending secret now [] ∷ []) })

-- `RotateProviderKeyVerify`
abbrev pub verify_key : Str → KeyRecord → KeyRecord
verify_key now k = record k { verified_at = now }

unfoldable pub verify_keys : Str → KeySet → Option KeySet
verify_keys now ks = do
  guard (not (is_empty ks.pending_id))
  guard (is_some (find_key ks.pending_id ks.keys))
  some (record ks { keys = change_key ks.pending_id (verify_key now) ks.keys })

-- The moment of a commit: the text of the time, and of a time that is later by a `time.Duration`.
pub record Clock : Type 0 where
  pub now : Str
  pub later : ℤ → Str

-- `time.Duration(keepPreviousHours) * time.Hour`, of hours that are not negative.
unfoldable pub hours_long : ℕ → ℤ
hours_long hours = wrap64 (pos (hours * 3600000000000))

abbrev pub step_down : Clock → ℕ → KeyRecord → KeyRecord
step_down c zero k = record k { status = revoked; revoked_at = c.now; expires_at = [] }
step_down c (suc h) k = record k { status = previous; expires_at = c.later (hours_long (suc h)) }

abbrev pub step_up : KeyRecord → KeyRecord
step_up k = record k { status = active; expires_at = []; revoked_at = [] }

abbrev pub kept_id : ℕ → Str → Str
kept_id zero id = []
kept_id (suc h) id = id

-- The part of `RotateProviderKeyCommit` for the active key, if there is one.
unfoldable pub demote_active : Clock → ℕ → KeySet → KeySet
demote_active c hours ks =
    if not (is_empty ks.active_id) && is_some (find_key ks.active_id ks.keys)
    then record ks {
      previous_id = kept_id hours ks.active_id;
      keys = change_key ks.active_id (step_down c hours) ks.keys;
    }
    else ks

unfoldable pub promote_pending : KeySet → KeySet
promote_pending ks = record ks {
  active_id = ks.pending_id;
  pending_id = [];
  keys = change_key ks.pending_id step_up ks.keys;
}

unfoldable pub commit_keys : Clock → ℕ → KeySet → Option KeySet
commit_keys c hours ks = do
  guard (not (is_empty ks.pending_id))
  k ← find_key ks.pending_id ks.keys
  guard (not (is_empty (trim_space k.verified_at)))
  some (promote_pending (demote_active c hours ks))

-- `RotateProviderKeyRollback`
abbrev pub back_down : Str → KeyRecord → KeyRecord
back_down now k = record k { status = previous; expires_at = now }

abbrev pub back_up : KeyRecord → KeyRecord
back_up k = record k { status = active; expires_at = [] }

unfoldable pub rollback_keys : Str → KeySet → Option KeySet
rollback_keys now ks = do
  guard (not (is_empty ks.previous_id))
  guard (is_some (find_key ks.previous_id ks.keys) && is_some (find_key ks.active_id ks.keys))
  some (record ks {
    active_id = ks.previous_id;
    previous_id = ks.active_id;
    keys = change_key ks.previous_id back_up (change_key ks.active_id (back_down now) ks.keys);
  })

abbrev pub revoke_key : Str → KeyRecord → KeyRecord
revoke_key now k = record k { status = revoked; revoked_at = now; expires_at = [] }

-- `RevokePreviousProviderKey`
unfoldable pub revoke_previous_keys : Str → KeySet → Option KeySet
revoke_previous_keys now ks = do
  guard (not (is_empty ks.previous_id))
  guard (is_some (find_key ks.previous_id ks.keys))
  some (record ks { previous_id = []; keys = change_key ks.previous_id (revoke_key now) ks.keys })

-- `if id == keyID { id = "" }`
unfoldable pub clear_id : Str → Str → Str
clear_id id key_id = if text_eq id key_id then [] else id

-- `RevokeProviderKey`
unfoldable pub revoke_keys : Str → Str → KeySet → Option KeySet
revoke_keys now key_id ks = do
  guard (not (text_eq ks.active_id key_id))
  guard (is_some (find_key key_id ks.keys))
  some (record ks {
    pending_id = clear_id ks.pending_id key_id;
    previous_id = clear_id ks.previous_id key_id;
    keys = change_key key_id (revoke_key now) ks.keys;
  })
