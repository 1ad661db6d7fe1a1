-- ===== src/Schedules/Edges.antt =====
-- `day_edges` and `target_state` of portal/schedules/sched/model.py: what Home Assistant fires on a
-- day, and the state that the schedule asks for at a minute.
pub mod Fired
pub mod Origin
pub mod Replay
pub mod Accepted
use minisserver_compose.Prelude.{
  ℕ, ◌≡◌, Bool, true, false, not, ◌&&◌, ◌||◌, Option, none, some, List, [], ◌∷◌, ◌++◌, leb, ltb,
  ◌==◌, if◌then◌else◌, Text, text_leb, member, elem, any, sort,
}
use minisserver_compose.Schedules.Time.{parse_hhmm}
use minisserver_compose.Schedules.Types.{
  Kind, plug, vacuum_plan, child_window, dimmer, unknown, Rule,
}
use minisserver_compose.Schedules.Weekly.{or_zero, start_of}

-- A local date: its ISO weekday, and its text as `isoformat` writes it.
pub record Day : Type 0 where
  pub weekday : ℕ
  pub date : Text

-- In the order of the texts "off", "on" and "trigger".
pub data Action : Type 0 where
  off on trigger : Action

abbrev pub rank : Action → ℕ
rank off = 0
rank on = 1
rank trigger = 2

-- `(minute, action, rule id)`
pub record Edge : Type 0 where
  pub minute : ℕ
  pub action : Action
  pub id : Text

abbrev pub edge_leb : Edge → Edge → Bool
edge_leb a b =
    ltb a.minute b.minute
    || ((a.minute == b.minute)
        && (ltb (rank a.action) (rank b.action)
            || ((rank a.action == rank b.action) && text_leb a.id b.id)))

-- `parse_hhmm(r["end"])`
unfoldable pub end_of : Rule → ℕ
end_of r = elim r.stop [ none ↦ 0 | some t ↦ or_zero (parse_hhmm false t) ]

abbrev pub edge : ℕ → Action → Rule → Edge
edge m a r = record { minute = m; action = a; id = r.id }

-- The edges of a rule on one of its days.
unfoldable pub rule_edges : Kind → Bool → Rule → List Edge
unfolding end_of
rule_edges plug skipped r =
    (if skipped then [] else edge (start_of r) on r ∷ []) ++ edge (end_of r) off r ∷ []
rule_edges vacuum_plan skipped r = if skipped then [] else edge (start_of r) trigger r ∷ []
rule_edges kind skipped r = []

unfoldable pub collect_edges : Kind → Bool → ℕ → List Rule → List Edge
unfolding rule_edges
collect_edges kind skipped weekday [] = []
collect_edges kind skipped weekday (r ∷ rs) =
    (if elem weekday r.days then rule_edges kind skipped r else [])
    ++ collect_edges kind skipped weekday rs

unfoldable pub day_edges : Kind → List Rule → Day → List Text → List Edge
unfolding collect_edges
day_edges kind rules day skips =
    sort edge_leb (collect_edges kind (member day.date skips) day.weekday rules)

-- `r` is on at minute `t` of a weekday.
abbrev pub covers : ℕ → ℕ → Rule → Bool
covers weekday t r = elem weekday r.days && leb (start_of r) t && ltb t (end_of r)

-- `none` for what is no plug, otherwise whether the plug is on.
unfoldable pub target_state : Kind → List Rule → Day → ℕ → List Text → Option Bool
target_state plug rules day t skips =
    if member day.date skips then some false else some (any (covers day.weekday t) rules)
target_state kind rules day t skips = none
