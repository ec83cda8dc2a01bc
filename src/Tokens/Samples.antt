-- ===== src/Tokens/Samples.antt =====
-- Small runs of the validation of a token.
use pins.Prelude.{◌≡◌, refl, List, [], ◌∷◌, ◌++◌, Option, none, some, find, count}
use pins.Go.Text.{Str, codes, text_eq, member}
use pins.Go.Fold.{trim_space}
use pins.Tokens.{TokenRecord, hash_of, is_live, is_named, is_ssh_scope, validate_ssh_token}
use pins.Tokens.Ssh.{Authorized, validate_ssh_token-Authorized}

abbrev digest : Str → Str
digest s = codes "h:" ++ s

abbrev agent : TokenRecord
agent = record {
  name = codes "agent";
  token_hash = codes "h:p21_1";
  scopes = codes "proxy:*" ∷ codes "ssh:use" ∷ [];
  created_at = codes "2026-01-01";
  revoked_at = [];
  last_used_at = [];
}

abbrev proxy : TokenRecord
proxy = record agent {
  name = codes "proxy";
  token_hash = codes "h:p21_2";
  scopes = codes "proxy:*" ∷ [];
}

abbrev file : Option (List TokenRecord)
file = some (proxy ∷ agent ∷ [])

wildcard_denied : validate_ssh_token digest file (codes "p21_2") (codes "ssh:use") ≡ none
unfolding validate_ssh_token hash_of is_live is_named is_ssh_scope text_eq member find count
    trim_space
wildcard_denied = refl

validate_ssh_token-Authorized_example :
    Authorized digest file (codes "p21_1 ") (codes "ssh:use") agent
unfolding validate_ssh_token hash_of is_live is_named is_ssh_scope text_eq member find count
    trim_space
validate_ssh_token-Authorized_example =
    validate_ssh_token-Authorized digest file (codes "p21_1 ") (codes "ssh:use") agent refl
