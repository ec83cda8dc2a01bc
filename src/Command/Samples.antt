-- ===== src/Command/Samples.antt =====
-- Small runs of the gate, and the theorems about it at concrete inputs.
use mathlib.Core.List.{Memᴰ}
use mathlib.Core.Logic.{◌↔◌}
use pins.Prelude.{◌≡◌, refl, true, false, List, [], ◌∷◌, none, some, arith, all, ◌>>=◌}
use pins.Go.Text.{Str, codes, text_eq, texts_eq, member, contains_any, contains_byte}
use pins.Go.Utf8.{valid_string, has_hidden, runes}
use pins.Go.Path.{clean, base, parents}
use pins.Go.Map.{lookup}
use pins.Command.Words.{unsafe_text, is_plain, parse, read_words, shell_quote, quote_line}
use pins.Command.Words.Quoting.{parse-quote_line}
use pins.Command.Rules.{Rule, rule_ok, key, is_id, clean_path, validate_rules, authorize}
use pins.Command.Rules.Exact.{authorize_iff}
use pins.Command.Delivery.{authorize-quote_line}
use pins.Command.Roles.{RolePolicy, Policy, entry_ok, validate_policy, policy_role}
use pins.Command.Gate.{
  Stat, World, Request, Launch, run, answer, launch, load, trusted_open, trusted_file, trusted_dir,
  is_caller, itoa, clean_env,
}
use pins.Command.Gate.Closed.{Granted, run-Granted}

clean_dots : clean (codes "/usr//./lib/../bin/") ≡ codes "/usr/bin"
unfolding clean text_eq
clean_dots = refl

base_of_env : base (codes "/usr/bin/env") ≡ codes "env"
unfolding base text_eq
base_of_env = refl

parents_of_env : parents (codes "/usr/bin/env") ≡ codes "/usr/bin" ∷ codes "/usr" ∷ codes "/" ∷ []
unfolding parents text_eq
parents_of_env = refl

parse_mixed :
    parse (codes "  status a'b c'\"'\"d '' ") ≡ some (codes "status" ∷ codes "ab c'd" ∷ [] ∷ [])
unfolding parse read_words is_plain unsafe_text valid_string has_hidden
parse_mixed = refl

parse_denies_expansion : parse (codes "echo $HOME") ≡ none
unfolding parse read_words is_plain unsafe_text valid_string has_hidden
parse_denies_expansion = refl

parse_denies_open_quote : parse (codes "echo 'a") ≡ none
unfolding parse read_words is_plain unsafe_text valid_string has_hidden
parse_denies_open_quote = refl

abbrev line : List Str
line = codes "dns" ∷ codes "it's on" ∷ []

quoted_line : quote_line line ≡ codes "'dns' 'it'\"'\"'s on'"
unfolding quote_line shell_quote
quoted_line = refl

parse-quote_line_example : parse (quote_line line) ≡ some line
unfolding quote_line shell_quote unsafe_text valid_string has_hidden
parse-quote_line_example =
    parse-quote_line (codes "dns") (codes "it's on" ∷ []) (omega arith) (omega arith) (omega arith)
      refl

abbrev status : Rule
status = record {
  command = codes "dns" ∷ codes "status" ∷ [];
  exec = codes "/usr/bin/systemctl" ∷ codes "status" ∷ codes "dns" ∷ [];
}

abbrev uptime : Rule
uptime = record { command = codes "uptime" ∷ []; exec = codes "/usr/bin/uptime" ∷ [] }

abbrev rules : List Rule
rules = status ∷ uptime ∷ []

rules_valid : validate_rules rules ≡ true
unfolding validate_rules rule_ok clean_path clean text_eq base member unsafe_text valid_string
    has_hidden contains_any contains_byte key
rules_valid = refl

authorize_iff_example :
    (authorize rules (codes "uptime" ∷ []) ≡ some (codes "/usr/bin/uptime" ∷ [])) ↔ (
      (validate_rules rules ≡ true)
      × ((r : Rule) × Memᴰ r rules
          × (rule_ok r ≡ true)
          × (r.command ≡ codes "uptime" ∷ [])
          × (r.exec ≡ codes "/usr/bin/uptime" ∷ [])))
authorize_iff_example = authorize_iff rules (codes "uptime" ∷ []) (codes "/usr/bin/uptime" ∷ [])

authorize-quote_line_example :
    (parse (quote_line status.command) >>= authorize rules) ≡ some status.exec
unfolding validate_rules rule_ok clean_path clean text_eq base member unsafe_text valid_string
    has_hidden contains_any contains_byte key quote_line shell_quote runes
authorize-quote_line_example =
    authorize-quote_line rules status refl (Memᴰ.head refl) (omega arith) refl

abbrev dns_role : RolePolicy
dns_role = record { user = codes "pins-dns"; rules = rules }

abbrev policy : Policy
policy = record {
  workspace = codes "home";
  host = codes "vm220";
  roles = (codes "dns-admin", dns_role) ∷ [];
}

abbrev root_dir : Stat
root_dir = record {
  is_dir = true;
  is_symlink = false;
  is_regular = false;
  perm = 0o755;
  owner = some 0;
}

abbrev root_file : Stat
root_file = record {
  is_dir = false;
  is_symlink = false;
  is_regular = true;
  perm = 0o755;
  owner = some 0;
}

abbrev digest : Str
digest = codes "0123456789abcdef0123456789abcdef0123456789abcdef0123456789abcdef"

abbrev host : World
host = record {
  euid = 1001;
  uid = 1001;
  executable = some (codes "/usr/bin/21pins");
  lstat = λ _. some root_dir;
  open_stat = λ _. some root_file;
  read = λ _. some (codes "{}");
  current = some (codes "pins-dns", codes "1001");
  decode = λ _. some (policy, true);
  rules_digest = λ _. digest;
  chdir_root = true;
}

abbrev request : Request
request = record {
  policy_path = codes "/etc/pins/policy.json";
  workspace = codes "home";
  host = codes "vm220";
  role = codes "dns-admin";
  username = codes "pins-dns";
  digest = digest;
  original = codes "'dns' 'status'";
  fixture = false;
}

abbrev launched : Launch
launched = record { program = codes "/usr/bin/systemctl"; argv = status.exec; env = clean_env }

host_runs : run host request ≡ some launched
unfolding run answer launch load trusted_open trusted_file trusted_dir is_caller itoa clean_path
    clean parents all text_eq policy_role validate_policy entry_ok is_id validate_rules rule_ok base
    member unsafe_text valid_string has_hidden contains_any contains_byte key lookup parse
    read_words is_plain authorize texts_eq
host_runs = refl

run-Granted_example : Granted host request launched
run-Granted_example = run-Granted host request launched host_runs
