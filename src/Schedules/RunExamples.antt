-- ===== src/Schedules/RunExamples.antt =====
-- The theorems on timed runs and exceptions at concrete inputs.
use minisserver_compose.Prelude.{
  ℕ, ◌+◌, ◌%◌, ◌≡◌, refl, true, false, none, some, [], ◌∷◌, codes, text_eq,
}
use minisserver_compose.Prelude.Int.{pos}
use minisserver_compose.Prelude.Json.{int}
use minisserver_compose.Schedules.Time.{parse_hhmm, at_end, match_time}
use minisserver_compose.Schedules.Types.{plug, Guardrails, no_guardrails, Rule}
use minisserver_compose.Schedules.Weekly.{start_of}
use minisserver_compose.Schedules.Edges.{end_of}
use minisserver_compose.Schedules.Runs.{
  Calendar, Entity, ms_day, ceil_minute, run_problems, range_checks, window_overlaps, validate_run,
}
use minisserver_compose.Schedules.Runs.Allowed.{IsAllowed, validate_run-IsAllowed}
use minisserver_compose.Schedules.Child.{latest_end, validate_child_exception}
use minisserver_compose.Schedules.Child.Ends.{IsBounded, validate_child_exception-IsBounded}

-- Day 0 is a Monday.
abbrev calendar : Calendar
calendar = record { day = λ d. record { weekday = d % 7 + 1; date = d ∷ [] }; from_iso = λ s. none }

abbrev heater : Entity
heater = record {
  kind = plug;
  managed = true;
  guardrails = record no_guardrails {
    max_on_minutes = some 120;
    min_gap_minutes = some 30;
    allowed_from = some (codes "06:00");
    allowed_to = some (codes "21:00");
  };
}

abbrev morning : Rule
morning = record {
  id = codes "m";
  days = 1 ∷ 2 ∷ [];
  start = codes "07:00";
  stop = some (codes "08:00");
  level = none;
  variables = none;
}

-- Tuesday, 10:00:30.
abbrev ten : ℕ
ten = ms_day + 36030000

-- An hour later, on a whole minute.
run_lem :
    (validate_run calendar heater (morning ∷ []) [] (int (pos 60)) ten (some 86400000) none).0
    ≡ some 126060000
unfolding validate_run run_problems range_checks window_overlaps ceil_minute start_of end_of
    parse_hhmm match_time at_end text_eq
run_lem = refl

validate_run-IsAllowed_example :
    IsAllowed calendar heater (morning ∷ []) [] ten (some 86400000) none 126060000
validate_run-IsAllowed_example =
    validate_run-IsAllowed calendar heater (morning ∷ []) [] (int (pos 60)) ten (some 86400000) none
      126060000 run_lem

abbrev tablet : Guardrails
tablet = record no_guardrails {
  max_exception_minutes = some 90;
  exception_latest_end = some (codes "20:00");
}

exception_lem :
    (validate_child_exception tablet (codes "youtube") (int (pos 45)) false ten).0 ≡ some 125130000
unfolding validate_child_exception latest_end parse_hhmm match_time at_end text_eq
exception_lem = refl

validate_child_exception-IsBounded_example :
    IsBounded tablet (codes "youtube") (int (pos 45)) 122430000 125130000
validate_child_exception-IsBounded_example =
    validate_child_exception-IsBounded tablet (codes "youtube") (int (pos 45)) false ten 125130000
      exception_lem
