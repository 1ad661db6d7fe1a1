-- ===== src/Schedules/Weekly.antt =====
-- The checks across rules in `validate_rules` of portal/schedules/sched/model.py: the windows of a
-- week, for each thing that they open, may not overlap and keep a gap.
pub mod Apart
pub mod Grouping
use minisserver_compose.Prelude.{
  ℕ, zero, suc, ◌+◌, ◌-◌, ◌*◌, ◌≡◌, refl, Bool, true, false, not, ◌&&◌, ◌||◌, Option, none, some,
  List, [], ◌∷◌, ◌++◌, map, leb, ltb, ◌==◌, if◌then◌else◌, Text, codes, text_eq, text_leb, member,
  sort, split,
}
use minisserver_compose.Prelude.Json.{Json, null, str, Fields, get_value}
use minisserver_compose.Schedules.Time.{parse_hhmm}
use minisserver_compose.Schedules.Types.{Kind, child_window, Code, Problem, problem, plain, Rule}

abbrev pub week : ℕ
week = 10080

-- `(start, end, rule id)`, minutes from Monday 00:00.
pub record Window : Type 0 where
  pub start : ℕ
  pub stop : ℕ
  pub id : Text

-- The order of Python's tuples.
abbrev pub window_leb : Window → Window → Bool
window_leb a b =
    ltb a.start b.start
    || ((a.start == b.start) && (ltb a.stop b.stop || ((a.stop == b.stop) && text_leb a.id b.id)))

abbrev pub or_zero : Option ℕ → ℕ
or_zero none = 0
or_zero (some m) = m

-- `s_` and `e_`; both texts were parsed before.
unfoldable pub start_of : Rule → ℕ
start_of r = or_zero (parse_hhmm false r.start)

unfoldable pub stop_of : Rule → ℕ
unfolding start_of
stop_of r = elim r.stop [
  | none ↦ or_zero (parse_hhmm false r.start)
  | some t ↦ or_zero (parse_hhmm true t)
]

-- `(r.get("variables") or {}).get("opens", "")`
unfoldable pub opens_text : Rule → Text
opens_text r = elim r.variables [
  | none ↦ []
  | some fs ↦ elim (get_value (codes "opens") fs) [ str s ↦ s | _ ↦ [] ]
]

unfoldable pub groups_of : Kind → Rule → List Text
unfolding opens_text
groups_of child_window r = split b',' (opens_text r)
groups_of _ r = [] ∷ []

unfoldable pub window_on : Rule → ℕ → Window
unfolding start_of stop_of
window_on r d = record {
  start = (d - 1) * 1440 + start_of r;
  stop = (d - 1) * 1440 + stop_of r;
  id = r.id;
}

-- A `dict` of lists, in the order of insertion.
abbrev pub Groups : Type 0
Groups = List (Text × List Window)

-- `groups.setdefault(grp, []).append(w)`
unfoldable pub add_window : Text → Window → Groups → Groups
add_window grp w [] = (grp, w ∷ []) ∷ []
add_window grp w ((k, ws) ∷ groups) =
    if text_eq k grp then (k, ws ++ w ∷ []) ∷ groups else (k, ws) ∷ add_window grp w groups

unfoldable pub add_windows : Text → List Window → Groups → Groups
unfolding add_window
add_windows grp [] groups = groups
add_windows grp (w ∷ ws) groups = add_windows grp ws (add_window grp w groups)

unfoldable pub add_to_groups : List Window → List Text → Groups → Groups
unfolding add_windows
add_to_groups ws [] groups = groups
add_to_groups ws (grp ∷ grps) groups = add_to_groups ws grps (add_windows grp ws groups)

unfoldable pub group_rules : Kind → List Rule → Groups → Groups
unfolding add_to_groups groups_of window_on
group_rules kind [] groups = groups
group_rules kind (r ∷ rs) groups =
    group_rules kind rs (add_to_groups (map (window_on r) r.days) (groups_of kind r) groups)

-- A key of `reported`: which problem, and the two rules in order.
pub record Key : Type 0 where
  pub is_overlap : Bool
  pub low : Text
  pub high : Text

unfoldable pub key_of : Bool → Text → Text → Key
key_of o a b =
    if text_leb a b
    then record { is_overlap = o; low = a; high = b }
    else record { is_overlap = o; low = b; high = a }

abbrev bool_eq : Bool → Bool → Bool
bool_eq true b = b
bool_eq false b = not b

unfoldable pub is_reported : Key → List Key → Bool
is_reported k [] = false
is_reported k (j ∷ js) =
    (bool_eq k.is_overlap j.is_overlap && text_eq k.low j.low && text_eq k.high j.high)
    || is_reported k js

-- `reported` and the problems.
pub record Findings : Type 0 where
  pub reported : List Key
  pub probs : List Problem

unfoldable pub report_once : Bool → Window → Window → Findings → Findings
unfolding key_of is_reported
report_once o cur nxt f = if is_reported (key_of o cur.id nxt.id) f.reported then f else record {
  reported = key_of o cur.id nxt.id ∷ f.reported;
  probs =
      f.probs ++ problem (if o then Code.overlap else Code.min_gap) (plain (codes "rules")) ∷ [];
}

-- `cur` and the next window, which starts at `nstart`.
unfoldable pub check_next : ℕ → Window → ℕ → Window → Findings → Findings
unfolding report_once
check_next gap cur nstart nxt f =
    if ltb nstart cur.stop
    then report_once true cur nxt f
    else if ltb (nstart - cur.stop) gap
    then report_once false cur nxt f
    else f

-- The loop over a sorted group whose first window is `first`: behind the last comes the first, a
-- week later.
unfoldable pub check_from : ℕ → Window → Window → List Window → Findings → Findings
unfolding check_next
check_from gap first cur [] f = check_next gap cur (first.start + week) first f
check_from gap first cur (nxt ∷ ws) f =
    check_from gap first nxt ws (check_next gap cur nxt.start nxt f)

unfoldable pub check_sorted : ℕ → List Window → Findings → Findings
unfolding check_from
check_sorted gap [] f = f
check_sorted gap (w ∷ ws) f = check_from gap w w ws f

unfoldable pub check_groups : ℕ → Groups → Findings → Findings
unfolding check_sorted
check_groups gap [] f = f
check_groups gap ((k, ws) ∷ groups) f =
    check_groups gap groups (check_sorted gap (sort window_leb ws) f)
