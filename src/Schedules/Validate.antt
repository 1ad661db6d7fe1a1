-- ===== src/Schedules/Validate.antt =====
-- `validate_rules` of portal/schedules/sched/model.py, composed of its loops.
pub mod Outcome
pub mod Sound
pub mod Rules
pub mod Spaced
pub mod Open
pub mod Raises
use minisserver_compose.Prelude.{
  ℕ, zero, suc, ◌+◌, ◌≡◌, refl, Bool, true, false, not, ◌&&◌, ◌||◌, Option, none, some, List, [],
  ◌∷◌, ◌++◌, leb, ltb, ◌==◌, if◌then◌else◌, Text, codes, text_leb, length, sort,
}
use minisserver_compose.Prelude.Json.{Json, array, items}
use minisserver_compose.Schedules.Time.{parse_hhmm}
use minisserver_compose.Schedules.Types.{
  Kind, plug, vacuum_plan, child_window, dimmer, unknown, Guardrails, Code, Problem, problem, plain,
  Rule, Result, ok, err,
}
use minisserver_compose.Schedules.RuleLoop.{Progress, visit_rules, limit_of}
use minisserver_compose.Schedules.Weekly.{Findings, group_rules, check_groups, start_of, or_zero}
use minisserver_compose.Schedules.Daily.{
  check_triggers, gated_problems, gated_days, check_open_days,
}

abbrev pub max_rules : ℕ
max_rules = 12

abbrev pub is_some {ℓ} : {A : Type ℓ} → Option A → Bool
is_some none = false
is_some (some a) = true

-- `parse_hhmm(g[k]) if k in g else d`
abbrev pub limit_or : ℕ → Option Text → ℕ
limit_or d none = d
limit_or d (some t) = or_zero (parse_hhmm false t)

-- What the windows of a child may open.
unfoldable pub check_child : Kind → Guardrails → List Rule → List Problem
check_child child_window g good =
    if is_some g.allowed_from || is_some g.allowed_to || is_some g.max_open_minutes_per_day
    then gated_problems (limit_or 0 g.allowed_from) (limit_or 1440 g.allowed_to) good
      ++ check_open_days g.max_open_minutes_per_day (gated_days good [])
    else []
check_child kind g good = []

-- The checks across the rules that are sound by themselves: `probs` grows by their problems.
unfoldable pub check_across : Kind → Guardrails → List Rule → List Problem → List Problem
unfolding check_child
check_across kind g good probs =
    (check_groups (or_zero g.min_gap_minutes) (group_rules kind good [])
      (record { reported = []; probs = probs })).probs
    ++ (check_triggers g.max_triggers_per_day good ++ check_child kind g good)

-- `sorted(good, key=lambda r: (parse_hhmm(r["start"]), r["id"]))`
unfoldable pub rule_leb : Rule → Rule → Bool
rule_leb a b = ltb (start_of a) (start_of b) || ((start_of a == start_of b) && text_leb a.id b.id)

abbrev pub too_many : List Json → List Problem
too_many rules =
    if ltb max_rules (length rules) then problem Code.too_many (plain (codes "rules")) ∷ [] else []

unfoldable pub conclude : Kind → Guardrails → Result Progress → Result (List Rule × List Problem)
unfolding check_across rule_leb
conclude kind g (ok p) = ok (sort rule_leb p.good, check_across kind g p.good p.probs)
conclude kind g (err e) = err e

unfoldable pub validate_list : Kind → Guardrails → List Json → Result (List Rule × List Problem)
unfolding conclude
validate_list kind g rules =
    conclude kind g
      (visit_rules kind g 0 rules (record { probs = too_many rules; seen_ids = []; good = [] }))

unfoldable pub validate_value : Kind → Guardrails → Json → Result (List Rule × List Problem)
unfolding validate_list
validate_value kind g (array rules) = validate_list kind g (items rules)
validate_value kind g _ = ok ([], problem Code.type (plain (codes "rules")) ∷ [])

-- The normalised rules and the problems.
unfoldable pub validate_rules : Kind → Guardrails → Json → Result (List Rule × List Problem)
unfolding validate_value
validate_rules (unknown k) g rules = ok ([], problem Code.kind (plain (codes "entity")) ∷ [])
validate_rules kind g rules = validate_value kind g rules
