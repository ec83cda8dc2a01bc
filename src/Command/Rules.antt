-- ===== src/Command/Rules.antt =====
-- `Rule`, `Authority`, `cleanPath`, `validateRules` and `Authorize` of internal/sshcommand/gate.go.
-- A test is true where the source's error is nil; `none` is the error `Denied`.
pub mod Exact
use pins.Prelude.{
  ℕ, zero, suc, ◌≡◌, Bool, true, false, not, ◌&&◌, ◌||◌, List, [], ◌∷◌, ◌++◌, Option, none, some,
  leb, ltb, ◌==◌, if◌then◌else◌, length, any, all,
}
use pins.Go.Text.{
  Str, codes, text_eq, texts_eq, member, contains_byte, contains_any, is_empty, join,
}
use pins.Go.Path.{clean, base}
use pins.Command.Words.{unsafe_text}

pub record Rule : Type 0 where
  pub command : List Str
  pub exec : List Str

pub record Authority : Type 0 where
  pub binary : Str
  pub policy_file : Str
  pub rules : List Rule
  pub fixture : Bool

abbrev pub is_alnum : ℕ → Bool
is_alnum c = leb b'a' c && leb c b'z' || leb b'A' c && leb c b'Z' || leb b'0' c && leb c b'9'

abbrev is_id_byte : ℕ → Bool
is_id_byte c = is_alnum c || c == b'_' || c == b'-'

-- `^[a-zA-Z0-9][a-zA-Z0-9_-]{0,63}$`
unfoldable pub is_id : Str → Bool
unfolding all
is_id [] = false
is_id (c ∷ s) = is_alnum c && all is_id_byte s && leb (length s) 63

abbrev is_path_byte : ℕ → Bool
is_path_byte c = is_alnum c || contains_byte (codes "_./-") c

-- `^/[a-zA-Z0-9_./-]+$`
is_path_word : Str → Bool
unfolding all contains_byte
is_path_word [] = false
is_path_word (c ∷ s) = c == b'/' && not (is_empty s) && all is_path_byte s

-- `strings.Contains(s, "//")`
has_double_slash : Str → Bool
has_double_slash [] = false
has_double_slash (c ∷ s) = c == b'/' && begins s || has_double_slash s
  where
    begins : Str → Bool
    begins [] = false
    begins (d ∷ _) = d == b'/'

-- `cleanPath`
unfoldable pub clean_path : Str → Bool
unfolding is_path_word has_double_slash
clean_path s = is_path_word s && text_eq (clean s) s && not (has_double_slash s)

-- The names of interpreters that no rule may run.
abbrev pub interpreters : List Str
interpreters =
    codes "sh"
    ∷ codes "bash"
    ∷ codes "dash"
    ∷ codes "zsh"
    ∷ codes "ksh"
    ∷ codes "csh"
    ∷ codes "fish"
    ∷ codes "env"
    ∷ codes "python"
    ∷ codes "python3"
    ∷ codes "node"
    ∷ codes "perl"
    ∷ codes "ruby"
    ∷ []

abbrev pub shell_bytes : Str
shell_bytes = codes ";$`|&<>\\(){}"

-- A word that may stand in a command or in what it runs.
unfoldable pub word_ok : Str → Bool
word_ok v = not (is_empty v) && leb (length v) 256 && not (unsafe_text v)

-- `r.Exec[0]` is asked for its path and its base name.
unfoldable pub program_ok : List Str → Bool
program_ok [] = false
program_ok (program ∷ _) = clean_path program && not (member (base program) interpreters)

-- The body of the loop of `validateRules`, but for `seen`.
unfoldable pub rule_ok : Rule → Bool
unfolding program_ok word_ok
rule_ok r =
    not (is_empty r.command)
    && leb (length r.command) 8
    && leb (length r.exec) 16
    && program_ok r.exec
    && all word_ok (r.command ++ r.exec)
    && all (λ v. not (contains_any v shell_bytes)) r.command

-- `strings.Join(r.Command, "\x00")`
unfoldable pub key : Rule → Str
unfolding join
key r = join (0 ∷ []) r.command

pub rules_loop : List Str → List Rule → Bool
rules_loop seen [] = true
rules_loop seen (r ∷ rs) = rule_ok r && not (member (key r) seen) && rules_loop (key r ∷ seen) rs

-- `validateRules`
unfoldable pub validate_rules : List Rule → Bool
unfolding rules_loop
validate_rules rules = not (is_empty rules) && leb (length rules) 32 && rules_loop [] rules

-- `Authority.Validate`
unfoldable pub validate_authority : Authority → Bool
validate_authority a = clean_path a.binary && clean_path a.policy_file && validate_rules a.rules

-- The first rule with exactly these words.
pub select_rule : List Rule → List Str → Option (List Str)
select_rule [] argv = none
select_rule (r ∷ rs) argv = if texts_eq r.command argv then some r.exec else select_rule rs argv

-- `Authorize`
unfoldable pub authorize : List Rule → List Str → Option (List Str)
unfolding select_rule
authorize rules argv = if validate_rules rules then select_rule rules argv else none
