-- ===== src/Command/Roles.antt =====
-- `RolePolicy`, `Policy`, `Policy.Validate`, `Policy.Role` and `Authority.ForcedCommand` of
-- internal/sshcommand/gate.go. A map is the list of its entries, in the order that a loop over it
-- takes.
use pins.Prelude.{
  Bool, true, not, ◌&&◌, List, [], ◌∷◌, ◌++◌, Option, none, some, leb, if◌then◌else◌, length, ◌>>=◌,
  guard, ◌>>◌,
}
use pins.Go.Text.{Str, codes, text_eq, member, is_empty}
use pins.Go.Map.{Map, lookup}
use pins.Command.Rules.{Rule, Authority, is_id, validate_rules, validate_authority}

pub record RolePolicy : Type 0 where
  pub user : Str
  pub rules : List Rule

pub record Policy : Type 0 where
  pub workspace : Str
  pub host : Str
  pub roles : Map RolePolicy

abbrev pub root : Str
root = codes "root"

-- The body of the loop of `Policy.Validate`, but for `users`.
unfoldable pub entry_ok : Str → RolePolicy → Bool
entry_ok name r = is_id name && is_id r.user && not (text_eq r.user root) && validate_rules r.rules

pub entries_loop : List Str → Map RolePolicy → Bool
entries_loop users [] = true
entries_loop users ((name, r) ∷ rest) =
    entry_ok name r && not (member r.user users) && entries_loop (r.user ∷ users) rest

-- `Policy.Validate`
unfoldable pub validate_policy : Policy → Bool
unfolding entries_loop
validate_policy p =
    is_id p.workspace
    && is_id p.host
    && not (is_empty p.roles)
    && leb (length p.roles) 32
    && entries_loop [] p.roles

-- `Policy.Role`
unfoldable pub policy_role : Policy → Str → Str → Str → Str → Option RolePolicy
policy_role p workspace host role username = do
  guard (validate_policy p && text_eq p.workspace workspace && text_eq p.host host)
  r ← lookup p.roles role
  if text_eq r.user username then some r else none

-- `Authority.ForcedCommand`, over the digest of the rules.
module _ (rules_digest : List Rule → Str) where
  unfoldable pub forced_command : Authority → Str → Str → Str → Str → Option Str
  forced_command a workspace host role username =
      if validate_authority a
        && is_id workspace
        && is_id host
        && is_id role
        && is_id username
        && not (text_eq username root)
      then some (
          a.binary
          ++ (codes " ssh gate --policy "
              ++ (a.policy_file
                  ++ (codes " --workspace "
                      ++ (workspace
                          ++ (codes " --host "
                              ++ (host
                                  ++ (codes " --role "
                                      ++ (role
                                          ++ (codes " --user "
                                              ++ (username
                                                  ++ (codes " --rules-digest "
                                                      ++ (rules_digest a.rules
                                                          ++ (if a.fixture
                                                            then codes " --dev-fixture"
                                                            else []))))))))))))))
      else none
