-- ===== src/Command/Delivery.antt =====
-- The way of a command from the client (cmd/21pins/ssh.go) to the gate (internal/sshcommand/gate.go).
use mathlib.Core.List.{Memᴰ}
use pins.Prelude.{
  ◌≤◌, ◌≡◌, refl, true, false, List, [], ◌∷◌, ◌++◌, some, arith, length, all, All, ◌>>=◌,
  &&-eq_true,
}
use pins.Go.Text.{Str, is_empty}
use pins.Command.Words.{parse, quote_line, unsafe_text, max_line, max_words}
use pins.Command.Words.Quoting.{Short, parse-quote_line}
use pins.Command.Rules.{Rule, word_ok, rule_ok, validate_rules, authorize}
use pins.Command.Rules.Exact.{rules_loop-mem, validate_rules-loop, authorize_iff}

word_ok-Short : (w : Str) → word_ok w ≡ true → Short w
unfolding word_ok
word_ok-Short w h = ground arith

all_ok-Short : (ws vs : List Str) → all word_ok (ws ++ vs) ≡ true → All Short ws
unfolding all
all_ok-Short [] vs h = tt
all_ok-Short (w ∷ ws) vs h =
    let (first, rest) = &&-eq_true (word_ok w) (all word_ok (ws ++ vs)) h in
    (word_ok-Short w first, all_ok-Short ws vs rest)

-- An admissible command has between one and eight words, each of them short.
rule_ok-bounds :
    (r : Rule)
    → rule_ok r ≡ true
    → (is_empty r.command ≡ false)
      × (length r.command ≤ max_words)
      × (all word_ok (r.command ++ r.exec) ≡ true)
unfolding rule_ok
rule_ok-bounds r h = ground arith

parse-words :
    (ws : List Str)
    → is_empty ws ≡ false
    → length ws ≤ max_words
    → All Short ws
    → length (quote_line ws) ≤ max_line
    → unsafe_text (quote_line ws) ≡ false
    → parse (quote_line ws) ≡ some ws
parse-words [] full few short size safe = cc
parse-words (w ∷ ws) full few short size safe = parse-quote_line w ws (omega arith) short size safe

-- If the client quotes the command of a rule of a valid list, and the line is at most 2048 bytes of
-- text that the gate calls safe, then the gate reads from the line that the program of this very rule
-- is to run, with the words of the rule.
pub authorize-quote_line :
    (rules : List Rule) (r : Rule)
    → validate_rules rules ≡ true
    → Memᴰ r rules
    → length (quote_line r.command) ≤ max_line
    → unsafe_text (quote_line r.command) ≡ false
    → (parse (quote_line r.command) >>= authorize rules) ≡ some r.exec
authorize-quote_line rules r fine m size safe =
    let ok = (rules_loop-mem [] rules {r = r} (validate_rules-loop rules fine) m).1 in
    let (full, few, words) = rule_ok-bounds r ok in
    let read = parse-words r.command full few (all_ok-Short r.command r.exec words) size safe in
    rw read ((authorize_iff rules r.command r.exec).1 (fine, (r, m, ok, refl, refl)))
