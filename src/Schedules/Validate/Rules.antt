-- ===== src/Schedules/Validate/Rules.antt =====
-- What `validate_rules` promises of each rule that it returns, and that it drops none in silence.
use minisserver_compose.Prelude.{
  ◌≤◌, ◌≡◌, sym, ap, ◌∙◌, List, [], arith, All, Pairwise, length, length-sort, Pairwise-sort, ltb,
  ltb→le, Bool-cases, inl, inr,
}
use minisserver_compose.Prelude.Json.{Json, Items, array, items}
use minisserver_compose.Schedules.Types.{Kind, plug, child_window, Guardrails, Rule, Problem, ok}
use minisserver_compose.Schedules.Validate.{validate_rules, rule_leb, too_many, max_rules}
use minisserver_compose.Schedules.Validate.Sound.{
  IsPlugRule, IsChildRule, check_rule-IsPlugRule, check_rule-IsChildRule, check_rule-id,
}
use minisserver_compose.Schedules.Validate.Sound.Loop.{
  visit_rules-length, visit_rules-HasOtherId, HasOtherId,
}
use minisserver_compose.Schedules.Validate.Spaced.{Concluded-IsClean}
use minisserver_compose.Schedules.Validate.Outcome.{
  fresh_progress, validate_rules-All, validate_rules-Concluded,
}

too_many_none : (vs : List Json) → too_many vs ≡ [] → length vs ≤ max_rules
too_many_none vs e = elim (Bool-cases (ltb max_rules (length vs))) [
  | inl t ↦ absurd (ground (arith, t))
  | inr f ↦ ltb→le max_rules (length vs) f
]

-- Every rule that comes back for a plug is a window inside one day, neither end inside
-- 02:00-03:59, that respects the plug's allowed range and longest run; its days are weekdays.
pub validate_rules-IsPlugRule :
    (g : Guardrails) (rules : Json) (out : List Rule) (probs : List Problem)
    → validate_rules plug g rules ≡ ok (out, probs)
    → All (IsPlugRule g) out
validate_rules-IsPlugRule g rules out probs h =
    validate_rules-All plug g (IsPlugRule g) (check_rule-IsPlugRule g) rules out probs h

-- Every rule that comes back for a child is a window inside one day, which may end at 24:00,
-- neither end inside 02:00-03:59; its days are weekdays.
pub validate_rules-IsChildRule :
    (g : Guardrails) (rules : Json) (out : List Rule) (probs : List Problem)
    → validate_rules child_window g rules ≡ ok (out, probs)
    → All IsChildRule out
validate_rules-IsChildRule g rules out probs h =
    validate_rules-All child_window g IsChildRule (check_rule-IsChildRule g) rules out probs h

-- A list of rules in which nothing is wrong comes back whole: as many rules as were given, at most
-- twelve, and no two with the same id.
pub validate_rules_complete :
    (kind : Kind) (g : Guardrails) (rules : Items) (out : List Rule)
    → validate_rules kind g (array rules) ≡ ok (out, [])
    → (length out ≡ length (items rules)) × (length out ≤ max_rules) × Pairwise HasOtherId out
validate_rules_complete kind g rules out h =
    let c = validate_rules-Concluded kind g (array rules) out h in
    let same : c.given ≡ rules = ground (arith, c.is_array) in
    let clean = Concluded-IsClean kind g (array rules) out c in
    let (few, kept) =
      visit_rules-length kind g 0 (items c.given) (fresh_progress (items c.given)) c.progress
        c.looped clean.no_probs in
    let ids =
      visit_rules-HasOtherId kind g (check_rule-id kind g) 0 (items c.given)
        (fresh_progress (items c.given)) c.progress c.looped (record { seen = tt; others = tt }) in
    let whole : length out ≡ length (items c.given) =
      rw c.out_sorted (omega (arith, length-sort rule_leb c.progress.good, kept)) in
    (
      whole ∙ ap (λ (xs : Items). length (items xs)) same,
      omega (arith, whole, too_many_none (items c.given) few),
      rw c.out_sorted
          (Pairwise-sort rule_leb HasOtherId (λ x y n e. n (sym e)) c.progress.good ids.others),
    )
