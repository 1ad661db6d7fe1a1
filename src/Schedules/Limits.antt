-- ===== src/Schedules/Limits.antt =====
-- `validate_guardrails` and `validate_flags` of portal/schedules/sched/model.py.
pub mod Bounds
use minisserver_compose.Prelude.{
  ℕ, zero, suc, ◌+◌, ◌≡◌, Bool, true, false, not, ◌&&◌, ◌||◌, Option, none, some, List, [], ◌∷◌,
  ◌++◌, leb, ltb, if◌then◌else◌, Text, codes, member,
}
use minisserver_compose.Prelude.Int.{ℤ, pos, negsuc}
use minisserver_compose.Prelude.Json.{
  Json, Items, Fields, null, bool, int, float, str, array, object, end, field, keys, get,
}
use minisserver_compose.Schedules.Time.{parse_hhmm}
use minisserver_compose.Schedules.Types.{
  Kind, plug, vacuum_plan, child_window, dimmer, unknown, Guardrails, no_guardrails, Code, Problem,
  problem, plain, guardrail,
}
use minisserver_compose.Schedules.Weekly.{or_zero}

abbrev guardrail_keys : List Text
guardrail_keys =
    codes "max_on_minutes"
    ∷ codes "max_level"
    ∷ codes "min_gap_minutes"
    ∷ codes "allowed_from"
    ∷ codes "allowed_to"
    ∷ codes "max_triggers_per_day"
    ∷ codes "max_open_minutes_per_day"
    ∷ codes "max_exception_minutes"
    ∷ codes "exception_latest_end"
    ∷ codes "all_latest_end"
    ∷ []

unfoldable pub unknown_guardrails : List Text → List Problem
unknown_guardrails [] = []
unknown_guardrails (k ∷ ks) =
    (if member k guardrail_keys then [] else problem Code.unknown_key (guardrail k) ∷ [])
    ++ unknown_guardrails ks

-- A guardrail that is absent, kept, or rejected with a problem.
abbrev pub Field : Type 0 → Type 0
Field A = Option A × List Problem

abbrev out_of_range : Text → Field ℕ
out_of_range k = (none, problem Code.range (guardrail k) ∷ [])

abbrev bad_format : Text → Field Text
bad_format k = (none, problem Code.format (guardrail k) ∷ [])

abbrev pub int_value : Text → ℕ → ℕ → Option Json → Field ℕ
int_value k lo hi none = (none, [])
int_value k lo hi (some null) = (none, [])
int_value k lo hi (some (int (pos v))) =
    if leb lo v && leb v hi then (some v, []) else out_of_range k
int_value k lo hi (some _) = out_of_range k

-- `intval(k, lo, hi)`
unfoldable pub intval : Text → ℕ → ℕ → Fields → Field ℕ
intval k lo hi g = int_value k lo hi (get k g)

abbrev pub time_kept : Text → Text → Option ℕ → Field Text
time_kept k s none = bad_format k
time_kept k s (some m) = (some s, [])

abbrev pub time_value : Text → Option Json → Field Text
time_value k none = (none, [])
time_value k (some null) = (none, [])
time_value k (some (str s)) = time_kept k s (parse_hhmm false s)
time_value k (some _) = bad_format k

-- One round of the loop over the keys of times.
unfoldable pub timeval : Text → Fields → Field Text
timeval k g = time_value k (get k g)

-- What the loops keep of `g`.
unfoldable pub read_guardrails : Fields → Guardrails
unfolding intval timeval
read_guardrails g = record {
  max_on_minutes = (intval (codes "max_on_minutes") 1 1440 g).0;
  max_level = (intval (codes "max_level") 1 100 g).0;
  min_gap_minutes = (intval (codes "min_gap_minutes") 0 1440 g).0;
  max_triggers_per_day = (intval (codes "max_triggers_per_day") 1 24 g).0;
  max_open_minutes_per_day = (intval (codes "max_open_minutes_per_day") 1 1440 g).0;
  max_exception_minutes = (intval (codes "max_exception_minutes") 1 1440 g).0;
  allowed_from = (timeval (codes "allowed_from") g).0;
  allowed_to = (timeval (codes "allowed_to") g).0;
  exception_latest_end = (timeval (codes "exception_latest_end") g).0;
  all_latest_end = (timeval (codes "all_latest_end") g).0;
}

-- What the loops report.
unfoldable pub guardrail_problems : Fields → List Problem
unfolding unknown_guardrails
guardrail_problems g =
    unknown_guardrails (keys g)
    ++ ((intval (codes "max_on_minutes") 1 1440 g).1
        ++ ((intval (codes "max_level") 1 100 g).1
            ++ ((intval (codes "min_gap_minutes") 0 1440 g).1
                ++ ((intval (codes "max_triggers_per_day") 1 24 g).1
                    ++ ((intval (codes "max_open_minutes_per_day") 1 1440 g).1
                        ++ ((intval (codes "max_exception_minutes") 1 1440 g).1
                            ++ ((timeval (codes "allowed_from") g).1
                                ++ ((timeval (codes "allowed_to") g).1
                                    ++ ((timeval (codes "exception_latest_end") g).1
                                        ++ (timeval (codes "all_latest_end") g).1)))))))))

abbrev pub is_backwards : Option Text → Option Text → Bool
is_backwards (some lo) (some hi) =
    leb (or_zero (parse_hhmm false hi)) (or_zero (parse_hhmm false lo))
is_backwards _ _ = false

abbrev pub is_missing {ℓ} : {A : Type ℓ} → Option A → Bool
is_missing none = true
is_missing (some a) = false

-- A check that is made only if nothing has been reported.
abbrev pub unless_reported : List Problem → Bool → Code → Text → List Problem
unless_reported [] true c k = problem c (guardrail k) ∷ []
unless_reported [] false c k = []
unless_reported (p ∷ ps) b c k = p ∷ ps

abbrev pub needs_range : Kind → Bool
needs_range plug = true
needs_range vacuum_plan = true
needs_range kind = false

abbrev pub is_plug : Kind → Bool
is_plug plug = true
is_plug kind = false

-- The checks behind the loops.
unfoldable pub check_required : Kind → Guardrails → List Problem → List Problem
check_required kind out probs =
    let backwards =
      if is_backwards out.allowed_from out.allowed_to
      then problem Code.range (guardrail (codes "allowed_from")) ∷ []
      else [] in
    let limited =
      unless_reported (probs ++ backwards) (is_plug kind && is_missing out.max_on_minutes)
        Code.required (codes "max_on_minutes") in
    unless_reported limited
      (needs_range kind && (is_missing out.allowed_from || is_missing out.allowed_to)) Code.required
      (codes "allowed_from")

-- The guardrails and the problems.
unfoldable pub validate_guardrails : Kind → Json → Guardrails × List Problem
unfolding read_guardrails guardrail_problems check_required
validate_guardrails kind (object g) =
    let out = read_guardrails g in (out, check_required kind out (guardrail_problems g))
validate_guardrails kind _ = (no_guardrails, problem Code.type (plain (codes "guardrails")) ∷ [])

abbrev flag_keys : List Text
flag_keys = codes "household_editable" ∷ codes "guardrails_proposed" ∷ []

-- One flag: whether it is kept, and what is reported of it.
unfoldable pub check_flag : Text → Json → List (Text × Bool) × List Problem
check_flag k v =
    if not (member k flag_keys)
    then ([], problem Code.unknown_key (plain (codes "flags." ++ k)) ∷ [])
    else elim v [
      | bool b ↦ ((k, b) ∷ [], [])
      | _ ↦ ([], problem Code.type (plain (codes "flags." ++ k)) ∷ [])
    ]

unfoldable pub check_flags : Fields → List (Text × Bool) × List Problem
unfolding check_flag
check_flags end = ([], [])
check_flags (field k v fs) =
    let (kept, probs) = check_flag k v in
    let (more, rest) = check_flags fs in (kept ++ more, probs ++ rest)

unfoldable pub validate_flags : Json → List (Text × Bool) × List Problem
unfolding check_flags
validate_flags (object f) = check_flags f
validate_flags _ = ([], problem Code.type (plain (codes "flags")) ∷ [])
