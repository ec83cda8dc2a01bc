-- ===== src/Command/Rules/Exact.antt =====
-- What a validated list of rules authorizes.
use mathlib.Core.List.{Memᴰ}
use pins.Prelude.{
  ◌≡◌, refl, sym, ap, subst, ◌↔◌, true, false, inl, inr, List, [], ◌∷◌, some, arith, Bool-cases,
}
use pins.Go.Text.{Str, join, text_eq_iff, texts_eq, texts_eq_iff, member}
use pins.Command.Rules.{Rule, rule_ok, key, rules_loop, validate_rules, select_rule, authorize}

-- A rule that passed the loop has none of the keys seen before it, and is admissible.
pub rules_loop-mem :
    (seen : List Str) (rs : List Rule) {r : Rule}
    → rules_loop seen rs ≡ true
    → Memᴰ r rs
    → (member (key r) seen ≡ false) × (rule_ok r ≡ true)
unfolding rules_loop member
rules_loop-mem seen [] h m = elim m [ ]
rules_loop-mem seen (x ∷ rs) h (Memᴰ.head e) =
    subst (λ y. (member (key y) seen ≡ false) × (rule_ok y ≡ true)) (sym e) (ground arith)
rules_loop-mem seen (x ∷ rs) {r} h (Memᴰ.tail m) =
    let (fresh, fine) = rules_loop-mem (key x ∷ seen) rs {r = r} (ground arith) m in
    (ground arith, fine)

-- A rule with the command of one seen before has its key, which is found.
same_key-seen :
    (x r : Rule) (seen : List Str)
    → x.command ≡ r.command
    → ¬ (member (key r) (key x ∷ seen) ≡ false)
unfolding member key
same_key-seen x r seen e fresh =
    ground (arith, (text_eq_iff (key r) (key x)).1 (ap (join (0 ∷ [])) (sym e)))

select_rule-mem :
    (seen : List Str) (rs : List Rule) {r : Rule}
    → rules_loop seen rs ≡ true
    → Memᴰ r rs
    → select_rule rs r.command ≡ some r.exec
unfolding rules_loop select_rule
select_rule-mem seen [] h m = elim m [ ]
select_rule-mem seen (x ∷ rs) {r} h (Memᴰ.head e) =
    subst (λ y. select_rule (x ∷ rs) y.command ≡ some y.exec) (sym e)
      (rw ((texts_eq_iff x.command x.command).1 refl))
select_rule-mem seen (x ∷ rs) {r} h (Memᴰ.tail m) =
    let (fresh, fine) = rules_loop-mem (key x ∷ seen) rs {r = r} (ground arith) m in
    let later = select_rule-mem (key x ∷ seen) rs {r = r} (ground arith) m in
    elim (Bool-cases (texts_eq x.command r.command)) [
      | inl same ↦ absurd (same_key-seen x r seen ((texts_eq_iff x.command r.command).0 same) fresh)
      | inr other ↦ rw other later
    ]

select_rule_sound :
    (rs : List Rule) (argv : List Str) {e : List Str}
    → select_rule rs argv ≡ some e
    → (r : Rule) × Memᴰ r rs × (r.command ≡ argv) × (r.exec ≡ e)
unfolding select_rule
select_rule_sound [] argv h = cc
select_rule_sound (x ∷ rs) argv {e} h = elim (Bool-cases (texts_eq x.command argv)) [
  | inl same ↦ (x, Memᴰ.head refl, (texts_eq_iff x.command argv).0 same, ground arith)
  | inr other ↦
      let (r, m, c, x') = select_rule_sound rs argv {e = e} (rw other at h) in
      (r, Memᴰ.tail m, c, x')
]

pub validate_rules-loop :
    (rules : List Rule) → validate_rules rules ≡ true → rules_loop [] rules ≡ true
unfolding validate_rules
validate_rules-loop rules h = ground arith

authorize_sound :
    (rules : List Rule) (argv e : List Str)
    → authorize rules argv ≡ some e
    → (validate_rules rules ≡ true)
      × ((r : Rule) × Memᴰ r rules × (rule_ok r ≡ true) × (r.command ≡ argv) × (r.exec ≡ e))
unfolding authorize
authorize_sound rules argv e h = elim (Bool-cases (validate_rules rules)) [
  | inl fine ↦
      let (r, m, c, x) = select_rule_sound rules argv {e = e} (rw fine at h) in
      (fine, (r, m, (rules_loop-mem [] rules {r = r} (validate_rules-loop rules fine) m).1, c, x))
  | inr bad ↦ cc (rw bad at h)
]

authorize_complete :
    (rules : List Rule) (argv e : List Str)
    → (validate_rules rules ≡ true)
      × ((r : Rule) × Memᴰ r rules × (rule_ok r ≡ true) × (r.command ≡ argv) × (r.exec ≡ e))
    → authorize rules argv ≡ some e
unfolding authorize
authorize_complete rules argv e (fine, (r, m, _, c, x)) =
    rw fine (rw (← c, ← x) (select_rule-mem [] rules {r = r} (validate_rules-loop rules fine) m))

-- `Authorize` runs `e` for `argv` exactly if the list of rules is valid, and one of them, itself
-- admissible, has the words `argv` for its command and `e` for what it runs. So no valid rule is
-- hidden by another, and nothing but a rule's own words is authorized.
pub authorize_iff :
    (rules : List Rule) (argv e : List Str)
    → (authorize rules argv ≡ some e) ↔ (
        (validate_rules rules ≡ true)
        × ((r : Rule) × Memᴰ r rules × (rule_ok r ≡ true) × (r.command ≡ argv) × (r.exec ≡ e)))
authorize_iff rules argv e = (authorize_sound rules argv e, authorize_complete rules argv e)
