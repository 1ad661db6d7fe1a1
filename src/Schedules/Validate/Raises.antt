-- ===== src/Schedules/Validate/Raises.antt =====
-- The inputs at which `validate_rules` raises in place of reporting a problem.
use minisserver_compose.Prelude.{◌≡◌, ◌≢◌, refl, true, List, ◌∷◌, Text, codes}
use minisserver_compose.Prelude.Json.{
  Json, Items, Fields, str, array, object, cons, items, get_value,
}
use minisserver_compose.Schedules.Types.{Kind, unknown, Guardrails, raise, err, type_error}
use minisserver_compose.Schedules.Rules.{is_rule_id, check_days}
use minisserver_compose.Schedules.RuleLoop.{check_rule, visit_named, visit_rule, visit_rules}
use minisserver_compose.Schedules.Validate.{validate_rules, validate_value}
use minisserver_compose.Schedules.Validate.Outcome.{fresh_progress}

check_days_unhashable :
    (rid : Text) (x : Items) (xs : Items)
    → check_days rid (array (cons (array x) xs)) ≡ raise type_error
unfolding check_days
check_days_unhashable rid x xs = refl

check_rule_unhashable :
    (kind : Kind) (g : Guardrails) (rid : Text) (fs : Fields) (x xs : Items)
    → get_value (codes "days") fs ≡ array (cons (array x) xs)
    → check_rule kind g rid fs ≡ raise type_error
unfolding check_rule
check_rule_unhashable kind g rid fs x xs e = rw (e, check_days_unhashable rid x xs)

visit_rule_raises :
    (kind : Kind) (g : Guardrails) (rid : Text) (fs : Fields) (vs : List Json)
    → get_value (codes "id") fs ≡ str rid
    → is_rule_id rid ≡ true
    → check_rule kind g rid fs ≡ raise type_error
    → visit_rule kind g 0 (object fs) (fresh_progress vs) ≡ err type_error
unfolding visit_rule
visit_rule_raises kind g rid fs vs i v r = rw i (unfold visit_named in rw (v, r))

validate_value_raises :
    (kind : Kind) (g : Guardrails) (rid : Text) (fs : Fields) (rest : Items)
    → visit_rule kind g 0 (object fs) (fresh_progress (object fs ∷ items rest)) ≡ err type_error
    → validate_value kind g (array (cons (object fs) rest)) ≡ err type_error
unfolding validate_value
validate_value_raises kind g rid fs rest e = unfold visit_rules in rw (e, visit_rules)

-- For a known kind, a first rule with a sound id whose list of days begins with a list makes the whole
-- validation raise `TypeError`, whatever the guardrails and the rules behind it: no problem is reported.
pub validate_rules_unhashable :
    (kind : Kind) (g : Guardrails) (rid : Text) (fs : Fields) (x xs rest : Items)
    → ((k : Text) → kind ≢ unknown k)
    → get_value (codes "id") fs ≡ str rid
    → is_rule_id rid ≡ true
    → get_value (codes "days") fs ≡ array (cons (array x) xs)
    → validate_rules kind g (array (cons (object fs) rest)) ≡ err type_error
unfolding validate_rules
validate_rules_unhashable (unknown k) g rid fs x xs rest known i v d = absurd (known k refl)
validate_rules_unhashable kind g rid fs x xs rest known i v d =
    validate_value_raises kind g rid fs rest (
      visit_rule_raises kind g rid fs (object fs ∷ items rest) i v
        (check_rule_unhashable kind g rid fs x xs d))
