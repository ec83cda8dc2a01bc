-- ===== src/Tokens.antt =====
-- Tokens for SSH: `ValidateSSHToken` of internal/store/ssh_auth.go, with `tokenHash` of store.go. The
-- call reloads the state, and so works on the tokens of the file.
pub mod Ssh
pub mod Samples
use pins.Prelude.{
  ℕ, Bool, true, false, not, ◌&&◌, ◌||◌, List, [], ◌∷◌, ◌++◌, Option, none, some, ◌==◌,
  if◌then◌else◌, find, count, any, ◌>>=◌, ◌>>◌, guard,
}
use pins.Go.Text.{Str, codes, text_eq, is_empty, member}
use pins.Go.Fold.{trim_space}

pub record TokenRecord : Type 0 where
  pub name : Str
  pub token_hash : Str
  pub scopes : List Str
  pub created_at : Str
  pub revoked_at : Str
  pub last_used_at : Str

-- `tokenHash`; `digest` is SHA-256 in hexadecimal.
unfoldable pub hash_of : (Str → Str) → Str → Str
hash_of digest raw = if is_empty (trim_space raw) then [] else digest (trim_space raw)

-- The token has this hash and is not revoked.
unfoldable pub is_live : Str → TokenRecord → Bool
is_live h t = text_eq t.token_hash h && is_empty t.revoked_at

-- Another token that is not revoked, or the same, has this name.
unfoldable pub is_named : Str → TokenRecord → Bool
is_named name t = text_eq t.name name && is_empty t.revoked_at

unfoldable pub is_ssh_scope : Str → Bool
is_ssh_scope scope = text_eq scope (codes "ssh:use") || text_eq scope (codes "ssh:approve")

-- `ValidateSSHToken`; `file` is what `validateStatePath` and `reloadLocked` give, `none` for an error.
unfoldable pub validate_ssh_token :
    (Str → Str) → Option (List TokenRecord) → Str → Str → Option TokenRecord
validate_ssh_token digest file raw scope = do
  guard (not (is_empty (hash_of digest raw)) && is_ssh_scope scope)
  tokens ← file
  t ← find (is_live (hash_of digest raw)) tokens
  guard (member scope t.scopes && count (is_named t.name) tokens == 1)
  some t
