-- ===== src/Command/Gate/Closed.antt =====
-- What must hold where the gate of internal/sshcommand/gate.go runs a program.
use mathlib.Core.List.{Memᴰ}
use Prim.Native.Nat.{bit_and}
use pins.Prelude.{
  ◌≡◌, sym, ap, ap₂, subst, ◌∙◌, ◌⊎◌, ◌≢◌, Bool, true, not, ◌&&◌, ◌||◌, List, [], ◌∷◌, some, arith,
  ◌==◌, length, bind_cases, guard_cases,
}
use pins.Go.Text.{Str, text_eq, text_eq_sound}
use pins.Go.Map.{lookup}
use pins.Command.Words.{parse}
use pins.Command.Rules.{Rule, rule_ok, authorize}
use pins.Command.Rules.Exact.{authorize_iff}
use pins.Command.Roles.{RolePolicy, Policy, validate_policy, policy_role}
use pins.Command.Gate.{
  World, Stat, Request, Launch, clean_env, is_caller, trusted_open, load, launch, answer, run, itoa,
}

-- What a policy says of the scope that is asked for.
pub record Scoped (p : Policy) (workspace host role username : Str) (r : RolePolicy) : Type 0 where
  pub valid : validate_policy p ≡ true
  pub workspace_eq : p.workspace ≡ workspace
  pub host_eq : p.host ≡ host
  pub role_eq : lookup p.roles role ≡ some r
  pub user_eq : r.user ≡ username

pub policy_role-Scoped :
    (p : Policy) (workspace host role username : Str) (r : RolePolicy)
    → policy_role p workspace host role username ≡ some r
    → Scoped p workspace host role username r
unfolding policy_role
policy_role-Scoped p workspace host role username r e = ground (
  arith,
  text_eq_sound p.workspace workspace,
  text_eq_sound p.host host,
  text_eq_sound r.user username,
)

-- The program is a trusted file that may be executed, and it is given the words of a rule and the
-- fixed environment.
pub record Launches (w : World) (fixture : Bool) (exec : List Str) (l : Launch) : Type 0 where
  pub words : l.argv ≡ exec
  pub clean : l.env ≡ clean_env
  pub first : (rest : List Str) × (exec ≡ l.program ∷ rest)
  pub trusted :
      (s : Stat) × (trusted_open w l.program fixture ≡ some s) × (bit_and s.perm 0o111 ≢ 0)

launch-Launches :
    (w : World) (fixture : Bool) (exec : List Str) (l : Launch)
    → launch w fixture exec ≡ some l
    → Launches w fixture exec l
unfolding launch
launch-Launches w fixture [] l e = cc
launch-Launches w fixture (program ∷ rest) l e =
    bind_cases (trusted_open w program fixture) _ e λ s opened e₁.
      let same : program ≡ l.program = ground arith in
      record {
        words = ground arith;
        clean = ground arith;
        first = (rest, ground arith);
        trusted = (s, subst (λ t. trusted_open w t fixture ≡ some s) same opened, ground arith);
      }

-- The role has a rule for the words of the command line, and that is launched.
pub record Answered (w : World) (q : Request) (r : RolePolicy) (l : Launch) : Type 0 where
  pub digest_eq : (q.digest ≡ w.rules_digest r.rules) × (length q.digest ≡ 64)
  pub rule : Rule
  pub rule_mem : Memᴰ rule r.rules
  pub rule_admissible : rule_ok rule ≡ true
  pub command_eq : parse q.original ≡ some rule.command
  pub launches : Launches w q.fixture rule.exec l

answer-Answered :
    (w : World) (q : Request) (r : RolePolicy) (l : Launch)
    → answer w q r ≡ some l
    → Answered w q r l
unfolding answer
answer-Answered w q r l e =
    guard_cases (length q.digest == 64 && text_eq q.digest (w.rules_digest r.rules)) _ e λ d e₁.
      bind_cases (parse q.original) _ e₁ λ argv parsed e₂.
        bind_cases (authorize r.rules argv) _ e₂ λ exec allowed launched.
          let (_, (rule, m, fine, c, x)) = (authorize_iff r.rules argv exec).0 allowed in
          record {
            digest_eq = ground (arith, text_eq_sound q.digest (w.rules_digest r.rules));
            rule = rule;
            rule_mem = m;
            rule_admissible = fine;
            command_eq = parsed ∙ ap some (sym c);
            launches =
                subst (λ y. Launches w q.fixture y l) (sym x)
                  (launch-Launches w q.fixture exec l launched);
          }

is_caller_sound :
    (w : World) (username name number : Str)
    → is_caller w username (name, number) ≡ true
    → (name ≡ username) × (number ≡ itoa w.uid)
unfolding is_caller
is_caller_sound w username name number h =
    ground (arith, text_eq_sound name username, text_eq_sound number (itoa w.uid))

-- What `Run` has seen to when it launches `l` for the request `q`.
pub record Granted (w : World) (q : Request) (l : Launch) : Type 0 where
  pub not_root : (w.euid ≢ 0) ⊎ (q.fixture ≡ true)
  pub caller : w.current ≡ some (q.username, itoa w.uid)
  pub policy : Policy
  pub role : RolePolicy
  pub loaded : load w q.policy_path q.fixture ≡ some policy
  pub scoped : Scoped policy q.workspace q.host q.role q.username role
  pub answered : Answered w q role l

is_caller-current :
    (w : World) (username : Str) (who : Str × Str)
    → w.current ≡ some who
    → is_caller w username who ≡ true
    → w.current ≡ some (username, itoa w.uid)
is_caller-current w username (name, number) e h =
    let (name_eq, number_eq) = is_caller_sound w username name number h in
    e ∙ ap₂ (λ a b. some (a, b)) name_eq number_eq

-- Whatever the files, the user and the policy: if `Run` launches a program, then it does not run as
-- root (but for the fixture), the caller is the user that the request names, the trusted policy
-- file gives that user the role in this workspace and on this host, the digest is that of the
-- role's rules, and the command line parses to the words of an admissible rule of the role, whose
-- program, a trusted executable file, is launched with the rule's words and the fixed environment.
pub run-Granted : (w : World) (q : Request) (l : Launch) → run w q ≡ some l → Granted w q l
unfolding run
run-Granted w q l e = guard_cases (not (w.euid == 0) || q.fixture) _ e λ unprivileged e₁.
    bind_cases w.executable _ e₁ λ self _ e₂.
      bind_cases (trusted_open w self q.fixture) _ e₂ λ opened _ e₃.
        bind_cases w.current _ e₃ λ who current e₄.
          guard_cases (is_caller w q.username who) _ e₄ λ called e₅.
            bind_cases (load w q.policy_path q.fixture) _ e₅ λ p loaded e₆.
              bind_cases (policy_role p q.workspace q.host q.role who.0) _ e₆ λ r found e₇. record {
                not_root = ground arith;
                caller = is_caller-current w q.username who current called;
                policy = p;
                role = r;
                loaded = loaded;
                scoped = policy_role-Scoped p q.workspace q.host q.role q.username r (
                    subst (λ n. policy_role p q.workspace q.host q.role n ≡ some r)
                      (is_caller_sound w q.username who.0 who.1 called).0 found);
                answered = answer-Answered w q r l e₇;
              }
