-- ===== src/Schedules/Daily.antt =====
-- The checks per day in `validate_rules` of portal/schedules/sched/model.py: how many rules fire on
-- one day, and how long a child's windows are open on it.
pub mod Covered
pub mod Triggers
pub mod OpenDays
use minisserver_compose.Prelude.{
  ℕ, zero, suc, ◌+◌, ◌-◌, max, ◌≡◌, refl, Bool, true, false, not, ◌&&◌, ◌||◌, Option, none, some,
  List, [], ◌∷◌, ◌++◌, map, leb, ltb, ◌==◌, if◌then◌else◌, Text, codes, member, any, split, sort,
}
use minisserver_compose.Schedules.Types.{Code, Problem, problem, plain, rule_named, Rule}
use minisserver_compose.Schedules.Rules.{child_targets}
use minisserver_compose.Schedules.Weekly.{start_of, stop_of, opens_text}

-- `per_day[d] = per_day.get(d, 0) + 1`
unfoldable pub bump_day : ℕ → List (ℕ × ℕ) → List (ℕ × ℕ)
bump_day d [] = (d, 1) ∷ []
bump_day d ((k, n) ∷ m) = if k == d then (k, n + 1) ∷ m else (k, n) ∷ bump_day d m

unfoldable pub bump_days : List ℕ → List (ℕ × ℕ) → List (ℕ × ℕ)
unfolding bump_day
bump_days [] m = m
bump_days (d ∷ ds) m = bump_days ds (bump_day d m)

unfoldable pub triggers : List Rule → List (ℕ × ℕ) → List (ℕ × ℕ)
unfolding bump_days
triggers [] m = m
triggers (r ∷ rs) m = triggers rs (bump_days r.days m)

-- `max(per_day.values(), default=0)`
unfoldable pub worst_day : List (ℕ × ℕ) → ℕ
worst_day [] = 0
worst_day ((k, n) ∷ m) = max n (worst_day m)

unfoldable pub check_triggers : Option ℕ → List Rule → List Problem
unfolding triggers worst_day
check_triggers none rs = []
check_triggers (some most) rs =
    if ltb most (worst_day (triggers rs []))
    then problem Code.max_triggers (plain (codes "rules")) ∷ []
    else []

-- An interval of minutes of a day, its end not included.
pub record Span : Type 0 where
  pub from : ℕ
  pub to : ℕ

abbrev pub span_leb : Span → Span → Bool
span_leb a b = ltb a.from b.from || ((a.from == b.from) && leb a.to b.to)

-- The loop over the sorted intervals of a day, from its second round on: `total` and the interval
-- `cur_s` to `cur_e` that is being extended.
unfoldable pub merge_from : ℕ → ℕ → ℕ → List Span → ℕ
merge_from total cur_s cur_e [] = total + (cur_e - cur_s)
merge_from total cur_s cur_e (v ∷ vs) = elim (ltb cur_e v.from) [
  | true ↦ merge_from (total + (cur_e - cur_s)) v.from v.to vs
  | false ↦ merge_from total cur_s (max cur_e v.to) vs
]

unfoldable pub open_minutes : List Span → ℕ
unfolding merge_from
open_minutes [] = 0
open_minutes (v ∷ vs) = merge_from 0 v.from v.to vs

-- Whether a rule opens a service of `GATED_TARGETS`, which are the child targets.
unfoldable pub is_gated : Rule → Bool
unfolding opens_text
is_gated r = any (λ t. member t child_targets) (split b',' (opens_text r))

-- `per_day.setdefault(d, []).append((s_, e_))`
unfoldable pub add_span : Span → ℕ → List (ℕ × List Span) → List (ℕ × List Span)
add_span v d [] = (d, v ∷ []) ∷ []
add_span v d ((k, vs) ∷ m) = if k == d then (k, vs ++ v ∷ []) ∷ m else (k, vs) ∷ add_span v d m

unfoldable pub add_spans : Span → List ℕ → List (ℕ × List Span) → List (ℕ × List Span)
unfolding add_span
add_spans v [] m = m
add_spans v (d ∷ ds) m = add_spans v ds (add_span v d m)

abbrev pub span_of : Rule → Span
span_of r = record { from = start_of r; to = stop_of r }

unfoldable pub range_problems : ℕ → ℕ → Rule → List Problem
range_problems lo hi r =
    (if ltb (start_of r) lo
      then problem Code.allowed_range (rule_named r.id (codes ".start")) ∷ []
      else [])
    ++ (if ltb hi (stop_of r)
        then problem Code.allowed_range (rule_named r.id (codes ".end")) ∷ []
        else [])

-- The loop over the rules: their problems, and the intervals of each day.
unfoldable pub gated_problems : ℕ → ℕ → List Rule → List Problem
unfolding is_gated range_problems
gated_problems lo hi [] = []
gated_problems lo hi (r ∷ rs) =
    let rest = gated_problems lo hi rs in
    if is_gated r then range_problems lo hi r ++ rest else rest

unfoldable pub gated_days : List Rule → List (ℕ × List Span) → List (ℕ × List Span)
unfolding is_gated add_spans
gated_days [] m = m
gated_days (r ∷ rs) m = gated_days rs (if is_gated r then add_spans (span_of r) r.days m else m)

abbrev pub day_leb : ℕ × List Span → ℕ × List Span → Bool
day_leb a b = leb a.0 b.0

-- The first day over the limit is reported.
unfoldable pub check_open : ℕ → List (ℕ × List Span) → List Problem
unfolding open_minutes
check_open most [] = []
check_open most ((d, vs) ∷ m) =
    let rest = check_open most m in
    if ltb most (open_minutes (sort span_leb vs))
    then problem Code.max_open (plain (codes "rules")) ∷ []
    else rest

unfoldable pub check_open_days : Option ℕ → List (ℕ × List Span) → List Problem
unfolding check_open
check_open_days none m = []
check_open_days (some most) m = check_open most (sort day_leb m)
