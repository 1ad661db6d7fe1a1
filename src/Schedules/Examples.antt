-- ===== src/Schedules/Examples.antt =====
-- The schedule service's theorems at concrete inputs.
use minisserver_compose.Prelude.{
  ◌≡◌, ◌≢◌, refl, true, false, List, [], ◌∷◌, none, some, Text, codes, text_eq, sort, arith, split,
  length, All, Pairwise, ◌++◌, ◌≤◌,
}
use minisserver_compose.Prelude.Int.{pos}
use minisserver_compose.Prelude.Json.{
  Json, Items, Fields, nil, cons, end, field, str, int, array, object, get, items,
}
use minisserver_compose.Schedules.Time.{parse_hhmm, fmt_hhmm, at_end}
use minisserver_compose.Schedules.Types.{
  plug, child_window, unknown, Guardrails, no_guardrails, Rule, ok, err, type_error,
}
use minisserver_compose.Schedules.Rules.{
  check_days, check_start, check_opens, check_end, check_variables, check_level, is_rule_id,
  is_var_key,
}
use minisserver_compose.Schedules.RuleLoop.{check_rule, visit_rules}
use minisserver_compose.Schedules.Weekly.{group_rules, check_groups, or_zero}
use minisserver_compose.Schedules.Daily.{
  Span, span_leb, open_minutes, check_triggers, gated_problems, gated_days, check_open_days,
}
use minisserver_compose.Schedules.Validate.{validate_rules, max_rules}
use minisserver_compose.Schedules.Validate.Sound.{IsPlugRule, IsChildRule}
use minisserver_compose.Schedules.Validate.Sound.Loop.{HasOtherId}
use minisserver_compose.Schedules.Validate.Rules.{
  validate_rules-IsPlugRule, validate_rules-IsChildRule, validate_rules_complete,
}
use minisserver_compose.Schedules.Validate.Spaced.{IsSpaced, validate_rules-IsSpaced}
use minisserver_compose.Schedules.Validate.Open.{
  validate_rules-firing_on, validate_rules-is_open_at,
}
use minisserver_compose.Schedules.Validate.Raises.{validate_rules_unhashable}
use minisserver_compose.Schedules.Time.RoundTrip.{parse_hhmm-fmt_hhmm}
use minisserver_compose.Schedules.Daily.Covered.{count_below, is_open, open_minutes-sort}
use minisserver_compose.Schedules.Daily.Triggers.{firing_on}
use minisserver_compose.Schedules.Daily.OpenDays.{is_open_at}
use minisserver_compose.Schedules.Limits.{
  intval, timeval, unknown_guardrails, read_guardrails, guardrail_problems, check_required,
  validate_guardrails,
}
use minisserver_compose.Schedules.Limits.Bounds.{
  AreBounded, IsEnough, validate_guardrails-AreBounded, validate_guardrails-IsEnough,
}
use minisserver_compose.Schedules.Edges.{Day, day_edges, target_state}
use minisserver_compose.Schedules.Edges.Fired.{last_fired, is_on}
use minisserver_compose.Schedules.Edges.Accepted.{accepted-target_state}

-- A dryer: at most two hours, between 06:00 and 21:00, half an hour between runs.
abbrev dryer : Guardrails
dryer = record no_guardrails {
  max_on_minutes = some 120;
  min_gap_minutes = some 30;
  allowed_from = some (codes "06:00");
  allowed_to = some (codes "21:00");
}

abbrev window_json : Text → Text → Text → Items → Json
window_json id start stop days = object (
    field (codes "id") (str id) (
      field (codes "days") (array days)
        (field (codes "start") (str start) (field (codes "end") (str stop) end))))

abbrev two_days : Items
two_days = cons (int (pos 1)) (cons (int (pos 3)) nil)

abbrev dryer_rules : Items
dryer_rules =
    cons (window_json (codes "noon") (codes "12:00") (codes "13:30") two_days)
      (cons (window_json (codes "morning") (codes "07:30") (codes "09:00") two_days) nil)

abbrev morning : Rule
morning = record {
  id = codes "morning";
  days = 1 ∷ 3 ∷ [];
  start = codes "07:30";
  stop = some (codes "09:00");
  level = none;
  variables = none;
}

abbrev noon : Rule
noon = record {
  id = codes "noon";
  days = 1 ∷ 3 ∷ [];
  start = codes "12:00";
  stop = some (codes "13:30");
  level = none;
  variables = none;
}

dryer_accepted : validate_rules plug dryer (array dryer_rules) ≡ ok (morning ∷ noon ∷ [], [])
unfolding validate_rules visit_rules check_rule check_days check_start check_end check_variables
    check_level is_rule_id parse_hhmm get text_eq sort group_rules check_groups check_triggers
dryer_accepted = refl

-- A child's device: two hours a day, one window a day.
abbrev tablet : Guardrails
tablet = record no_guardrails { max_open_minutes_per_day = some 120; max_triggers_per_day = some 1 }

abbrev opens_roblox : Fields
opens_roblox = field (codes "opens") (str (codes "roblox")) end

abbrev tablet_rules : Items
tablet_rules =
    cons
      (object (
        field (codes "id") (str (codes "play")) (
          field (codes "days") (array two_days) (
            field (codes "start") (str (codes "15:00")) (
              field (codes "end") (str (codes "17:00"))
                (field (codes "variables") (object opens_roblox) end))))))
      nil

abbrev play : Rule
play = record {
  id = codes "play";
  days = 1 ∷ 3 ∷ [];
  start = codes "15:00";
  stop = some (codes "17:00");
  level = none;
  variables = some opens_roblox;
}

tablet_accepted : validate_rules child_window tablet (array tablet_rules) ≡ ok (play ∷ [], [])
unfolding validate_rules visit_rules check_rule check_days check_start check_opens check_end
    check_variables check_level is_rule_id is_var_key parse_hhmm get text_eq sort split group_rules
    check_groups check_triggers gated_problems gated_days check_open_days
tablet_accepted = refl

-- A list where a weekday should be.
abbrev nested_days : Fields
nested_days =
    field (codes "id") (str (codes "a")) (field (codes "days") (array (cons (array nil) nil)) end)

parse_hhmm-fmt_hhmm_example : parse_hhmm false (fmt_hhmm 450 ++ codes "\n") ≡ some 450
parse_hhmm-fmt_hhmm_example =
    parse_hhmm-fmt_hhmm false 450 (codes "\n") (omega arith) (unfold at_end in refl)

-- Three intervals of a day, two of which overlap.
abbrev some_spans : List Span
some_spans =
    record { from = 900; to = 960 }
    ∷ record { from = 600; to = 700 }
    ∷ record { from = 930; to = 1000 }
    ∷ []

open_minutes-sort_example :
    open_minutes (sort span_leb some_spans) ≡ count_below 1440 (is_open some_spans)
open_minutes-sort_example =
    open_minutes-sort 1440 some_spans
      ((omega arith, omega arith), ((omega arith, omega arith), ((omega arith, omega arith), tt)))

validate_rules-IsPlugRule_example : All (IsPlugRule dryer) (morning ∷ noon ∷ [])
validate_rules-IsPlugRule_example =
    validate_rules-IsPlugRule dryer (array dryer_rules) (morning ∷ noon ∷ []) [] dryer_accepted

validate_rules-IsChildRule_example : All IsChildRule (play ∷ [])
validate_rules-IsChildRule_example =
    validate_rules-IsChildRule tablet (array tablet_rules) (play ∷ []) [] tablet_accepted

validate_rules_complete_example :
    (length (morning ∷ noon ∷ []) ≡ length (items dryer_rules))
    × (length (morning ∷ noon ∷ []) ≤ max_rules)
    × Pairwise HasOtherId (morning ∷ noon ∷ [])
validate_rules_complete_example =
    validate_rules_complete plug dryer dryer_rules (morning ∷ noon ∷ []) dryer_accepted

validate_rules-IsSpaced_example :
    IsSpaced plug (or_zero dryer.min_gap_minutes) (morning ∷ noon ∷ [])
validate_rules-IsSpaced_example =
    validate_rules-IsSpaced plug dryer (array dryer_rules) (morning ∷ noon ∷ []) dryer_accepted

validate_rules-firing_on_example : firing_on 3 (play ∷ []) ≤ 1
validate_rules-firing_on_example =
    validate_rules-firing_on child_window tablet (array tablet_rules) (play ∷ []) 1 3
      tablet_accepted refl

validate_rules-is_open_at_example : count_below 1440 (is_open_at 3 (play ∷ [])) ≤ 120
validate_rules-is_open_at_example =
    validate_rules-is_open_at tablet (array tablet_rules) (play ∷ []) 120 3 tablet_accepted refl

sound_id : is_rule_id (codes "a") ≡ true
unfolding is_rule_id
sound_id = refl

plug_known : (k : Text) → plug ≢ unknown k
plug_known k h = absurd (cc)

validate_rules_unhashable_example :
    validate_rules plug dryer (array (cons (object nested_days) nil)) ≡ err type_error
unfolding get text_eq
validate_rules_unhashable_example =
    validate_rules_unhashable plug dryer (codes "a") nested_days nil nil nil plug_known refl
      sound_id refl

abbrev monday : Day
monday = record { weekday = 1; date = codes "2026-11-23" }

accepted-target_state_example :
    target_state plug (morning ∷ noon ∷ []) monday 500 []
    ≡ some (is_on (last_fired 500 (day_edges plug (morning ∷ noon ∷ []) monday [])))
accepted-target_state_example =
    accepted-target_state dryer (array dryer_rules) (morning ∷ noon ∷ []) monday 500 []
      dryer_accepted

abbrev dryer_json : Json
dryer_json = object (
    field (codes "max_on_minutes") (int (pos 120)) (
      field (codes "allowed_from") (str (codes "06:00"))
        (field (codes "allowed_to") (str (codes "21:00")) end)))

dryer_enough : (validate_guardrails plug dryer_json).1 ≡ []
unfolding validate_guardrails read_guardrails guardrail_problems check_required intval timeval
    unknown_guardrails get text_eq parse_hhmm
dryer_enough = refl

validate_guardrails-IsEnough_example : IsEnough plug (validate_guardrails plug dryer_json).0
validate_guardrails-IsEnough_example = validate_guardrails-IsEnough plug dryer_json dryer_enough

validate_guardrails-AreBounded_example : AreBounded (validate_guardrails plug dryer_json).0
validate_guardrails-AreBounded_example = validate_guardrails-AreBounded plug dryer_json
