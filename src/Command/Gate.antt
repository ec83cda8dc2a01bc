-- ===== src/Command/Gate.antt =====
-- `trustedOpen`, `Load` and `Run` of internal/sshcommand/gate.go. What the operating system answers,
-- the JSON decoder and the digest of a list of rules are fields of `World`; `none` is `Denied`.
pub mod Closed
use Prim.Native.Nat.{bit_and}
use pins.Prelude.{
  ℕ, zero, suc, ◌+◌, ◌/◌, ◌%◌, Bool, true, false, not, ◌&&◌, ◌||◌, List, [], ◌∷◌, Option, none,
  some, leb, ltb, ◌==◌, if◌then◌else◌, length, all, ◌>>=◌, ◌>>◌, guard,
}
use pins.Go.Text.{Str, codes, text_eq}
use pins.Go.Path.{parents}
use pins.Command.Words.{parse}
use pins.Command.Rules.{Rule, clean_path, authorize}
use pins.Command.Roles.{RolePolicy, Policy, validate_policy, policy_role}

-- `os.FileInfo`: `owner` is `none` where `Sys()` is no `*syscall.Stat_t`.
pub record Stat : Type 0 where
  pub is_dir : Bool
  pub is_symlink : Bool
  pub is_regular : Bool
  pub perm : ℕ
  pub owner : Option ℕ

pub record World : Type 0 where
  pub euid : ℕ
  pub uid : ℕ
  -- `os.Executable`
  pub executable : Option Str
  -- `os.Lstat`
  pub lstat : Str → Option Stat
  -- `syscall.Open` that follows no symbolic link at the end of the path, then `f.Stat`
  pub open_stat : Str → Option Stat
  -- the first 65537 bytes of an open file
  pub read : Str → Option Str
  -- the name and the user number of `user.Current`
  pub current : Option (Str × Str)
  -- the decoder with unknown fields refused, and whether the text ended there
  pub decode : Str → Option (Policy × Bool)
  pub rules_digest : List Rule → Str
  pub chdir_root : Bool

-- `strconv.Itoa` of a number that is not negative; one round for each digit, so `n + 1` rounds do.
itoa_from : ℕ → ℕ → Str → Str
itoa_from zero n digits = digits
itoa_from (suc f) n digits =
    let digit = b'0' + n % 10 in
    let rest = itoa_from f (n / 10) (digit ∷ digits) in if ltb n 10 then digit ∷ digits else rest

unfoldable pub itoa : ℕ → Str
unfolding itoa_from
itoa n = itoa_from (n + 1) n []

abbrev no_others_write : ℕ → Bool
no_others_write perm = bit_and perm 0o22 == 0

abbrev pub owned_by : ℕ → Option ℕ → Bool
owned_by u none = false
owned_by u (some v) = v == u

abbrev is_trusted_dir : Option Stat → Bool
is_trusted_dir none = false
is_trusted_dir (some s) =
    s.is_dir && not s.is_symlink && no_others_write s.perm && owned_by 0 s.owner

-- A folder that only root can write to.
unfoldable pub trusted_dir : World → Str → Bool
trusted_dir w dir = is_trusted_dir (w.lstat dir)

unfoldable pub trusted_file : World → Bool → Stat → Bool
trusted_file w fixture s =
    s.is_regular
    && no_others_write s.perm
    && (owned_by (if fixture then w.uid else 0) s.owner || fixture && owned_by 0 s.owner)

-- `trustedOpen`
unfoldable pub trusted_open : World → Str → Bool → Option Stat
trusted_open w path fixture = do
  guard (clean_path path)
  guard (fixture || all (trusted_dir w) (parents path))
  s ← w.open_stat path
  guard (trusted_file w fixture s)
  some s

-- `Load`
unfoldable pub load : World → Str → Bool → Option Policy
load w path fixture = do
  opened ← trusted_open w path fixture
  b ← w.read path
  guard (leb (length b) 65536)
  (p, at_end) ← w.decode b
  guard (at_end && validate_policy p)
  some p

-- What `syscall.Exec` is called with.
pub record Launch : Type 0 where
  pub program : Str
  pub argv : List Str
  pub env : List Str

abbrev pub clean_env : List Str
clean_env = codes "PATH=/usr/bin:/bin" ∷ codes "LANG=C" ∷ codes "LC_ALL=C" ∷ codes "HOME=/" ∷ []

pub record Request : Type 0 where
  pub policy_path : Str
  pub workspace : Str
  pub host : Str
  pub role : Str
  pub username : Str
  pub digest : Str
  pub original : Str
  pub fixture : Bool

-- `user.Current` names the user that is asked for, and the process runs under its number.
unfoldable pub is_caller : World → Str → Str × Str → Bool
is_caller w username (name, number) = text_eq name username && text_eq number (itoa w.uid)

-- `append([]string{}, rule.Exec...)`, opened, checked and handed over.
unfoldable pub launch : World → Bool → List Str → Option Launch
launch w fixture [] = none
launch w fixture (program ∷ args) = do
  s ← trusted_open w program fixture
  guard (not (bit_and s.perm 0o111 == 0))
  guard w.chdir_root
  some (record { program = program; argv = program ∷ args; env = clean_env })

-- The end of `Run`, from the role on.
unfoldable pub answer : World → Request → RolePolicy → Option Launch
answer w q r = do
  guard (length q.digest == 64 && text_eq q.digest (w.rules_digest r.rules))
  argv ← parse q.original
  exec ← authorize r.rules argv
  launch w q.fixture exec

-- `Run`, up to the call of `syscall.Exec`
unfoldable pub run : World → Request → Option Launch
run w q = do
  guard (not (w.euid == 0) || q.fixture)
  self ← w.executable
  opened ← trusted_open w self q.fixture
  who ← w.current
  guard (is_caller w q.username who)
  p ← load w q.policy_path q.fixture
  r ← policy_role p q.workspace q.host q.role who.0
  answer w q r
