-- ===== src/Schedules/Child.antt =====
-- The children's exceptions and windows of portal/schedules/sched/model.py, on the same clock as the
-- timed runs.
pub mod Ends
use minisserver_compose.Prelude.{
  ℕ, zero, suc, ◌+◌, ◌-◌, ◌*◌, ◌/◌, ◌%◌, ◌≤◌, ◌≡◌, Bool, true, false, not, ◌&&◌, ◌||◌, Option, none,
  some, List, [], ◌∷◌, ◌++◌, ltb, leb, ◌==◌, if◌then◌else◌, max, min, any, all, Text, codes,
  text_eq, text_leb, member, each_once, elem, sort, split, keep_if, map,
}
use minisserver_compose.Prelude.Int.{ℤ, pos}
use minisserver_compose.Prelude.Json.{Json, null, int}
use minisserver_compose.Schedules.Time.{parse_hhmm}
use minisserver_compose.Schedules.Types.{Rule, Guardrails, Code, plain, Problem, problem}
use minisserver_compose.Schedules.Rules.{child_targets, legacy_targets}
use minisserver_compose.Schedules.Weekly.{start_of, stop_of, opens_text}
use minisserver_compose.Schedules.Runs.{
  Calendar, ms_minute, ms_day, day_of, days_from, unless_problems, reported,
}

abbrev pub refused : Code → Text → Option ℕ × List Problem
refused c f = (none, problem c (plain f) ∷ [])

abbrev all_target : Text
all_target = codes "all"

-- `EXCEPTION_TARGETS`
abbrev exception_targets : List Text
exception_targets = child_targets ++ (all_target ∷ [])

abbrev latest_minute : Option Text → ℕ
latest_minute none = 1439
latest_minute (some t) = elim (parse_hhmm false t) [ none ↦ 0 | some m ↦ m ]

-- The latest end of the day of `now`; a target `all` has its own.
unfoldable pub latest_end : Guardrails → Text → ℕ → ℕ
unfolding text_eq parse_hhmm
latest_end g target now =
    day_of now * ms_day
    + latest_minute (if text_eq target all_target then g.all_latest_end else g.exception_latest_end)
      * ms_minute

abbrev pub is_too_long : Option ℕ → ℕ → Bool
is_too_long none n = false
is_too_long (some m) n = ltb m n

-- The checks of the end, and whether it is on the day of the start.
abbrev pub day_checks : Bool → Guardrails → Text → ℕ → ℕ → List Problem
day_checks true g target now ends =
    reported (ltb (latest_end g target now) ends) Code.latest_end (codes "minutes")
day_checks false g target now ends = problem Code.midnight (plain (codes "minutes")) ∷ []

abbrev pub for_minutes : Guardrails → Text → ℕ → ℕ → Option ℕ × List Problem
for_minutes g target now n =
    let ends = now + n * ms_minute in
    unless_problems ends (
      reported (is_too_long g.max_exception_minutes n) Code.max_exception (codes "minutes")
      ++ day_checks (day_of ends == day_of now) g target now ends)

abbrev pub to_the_end : Guardrails → Text → ℕ → Option ℕ × List Problem
to_the_end g target now =
    if leb (latest_end g target now) (now + ms_minute)
    then refused Code.too_late (codes "until_end_of_day")
    else (some (latest_end g target now), [])

abbrev pub is_null : Json → Bool
is_null null = true
is_null _ = false

abbrev pub timed : Guardrails → Text → ℕ → Json → Option ℕ × List Problem
timed g target now (int (pos (suc n))) = for_minutes g target now (suc n)
timed g target now _ = refused Code.range (codes "minutes")

abbrev pub for_target : Guardrails → Text → Json → Bool → ℕ → Option ℕ × List Problem
for_target g target minutes true now =
    if is_null minutes then to_the_end g target now else refused Code.both (codes "minutes")
for_target g target minutes false now = timed g target now minutes

-- `validate_child_exception`: the end, where it is accepted, and the problems. The milliseconds of
-- the clock are dropped.
unfoldable pub validate_child_exception :
    Guardrails → Text → Json → Bool → ℕ → Option ℕ × List Problem
unfolding latest_end text_eq
validate_child_exception g target minutes until_eod now =
    if member target legacy_targets
    then refused Code.maps_always_open (codes "target")
    else if not (member target exception_targets)
    then refused Code.target (codes "target")
    else for_target g target minutes until_eod (now - now % 1000)

-- `(from, to, targets)`
pub record Interval : Type 0 where
  pub start : ℕ
  pub stop : ℕ
  pub targets : List Text

abbrev texts_leb : List Text → List Text → Bool
texts_leb [] ts = true
texts_leb (s ∷ ss) [] = false
texts_leb (s ∷ ss) (t ∷ ts) = if text_eq s t then texts_leb ss ts else text_leb s t

abbrev interval_leb : Interval → Interval → Bool
interval_leb a b =
    ltb a.start b.start
    || ((a.start == b.start)
        && (ltb a.stop b.stop || ((a.stop == b.stop) && texts_leb a.targets b.targets)))

-- A rule's window on a day, cut to the span, where it meets it.
abbrev cut : ℕ → ℕ → ℕ → Rule → List Interval
cut start end' d r =
    let f = d * ms_day + start_of r * ms_minute in
    let t = d * ms_day + stop_of r * ms_minute in
    if ltb start t && ltb f end'
    then record {
      start = max f start;
      stop = min t end';
      targets = sort text_leb (split 44 (opens_text r));
    }
      ∷ []
    else []

abbrev cuts_on : ℕ → ℕ → ℕ → ℕ → List Rule → List Interval
cuts_on start end' weekday d [] = []
cuts_on start end' weekday d (r ∷ rs) =
    (if elem weekday r.days then cut start end' d r else []) ++ cuts_on start end' weekday d rs

abbrev cuts : Calendar → List Rule → ℕ → ℕ → List ℕ → List Interval
cuts cal rules start end' [] = []
cuts cal rules start end' (d ∷ ds) =
    cuts_on start end' (cal.day d).weekday d rules ++ cuts cal rules start end' ds

-- `child_open_intervals`, for a start that is not on day 0.
unfoldable pub child_open_intervals : Calendar → List Rule → ℕ → ℕ → List Interval
unfolding start_of stop_of opens_text split sort text_leb text_eq
child_open_intervals cal rules start end' =
    sort interval_leb
      (cuts cal rules start end' (days_from (day_of end' + 2 - day_of start) (day_of start - 1)))

-- An active exception.
pub record Exception : Type 0 where
  pub target : Text
  pub expires_at : ℕ

abbrev is_gated : Text → Bool
is_gated t = member t child_targets

abbrev holds : ℕ → Interval → Bool
holds now i = leb i.start now && ltb now i.stop

abbrev lasts : ℕ → Exception → Bool
lasts now x = ltb now x.expires_at

abbrev targets_in : List Interval → List Text
targets_in [] = []
targets_in (i ∷ is) = i.targets ++ targets_in is

-- `opened`, before it is made a set.
abbrev opened_by : ℕ → List Interval → List Exception → List Text
opened_by now is xs =
    targets_in (keep_if (holds now) is)
    ++ map (λ (x : Exception). x.target) (keep_if (lasts now) xs)

abbrev ends_by : ℕ → List Interval → List Exception → List ℕ
ends_by now is xs =
    map (λ (i : Interval). i.stop)
      (keep_if (λ (i : Interval). holds now i && any is_gated i.targets) is)
    ++ map (λ (x : Exception). x.expires_at)
        (keep_if
          (λ (x : Exception). lasts now x && (is_gated x.target || text_eq x.target all_target)) xs)

pub data State : Type 0 where
  opened restricted closed : State

-- Open where both gated services are, or everything.
abbrev state_of : List Text → State
state_of ts =
    if member all_target ts || all (λ (t : Text). member t ts) child_targets
    then opened
    else if any is_gated ts
    then restricted
    else closed

abbrev latest : List ℕ → Option ℕ
latest [] = none
latest (n ∷ ns) = elim (latest ns) [ none ↦ some n | some m ↦ some (max n m) ]

abbrev is_state_closed : State → Bool
is_state_closed closed = true
is_state_closed opened = false
is_state_closed restricted = false

abbrev is_state_open : State → Bool
is_state_open opened = true
is_state_open restricted = false
is_state_open closed = false

abbrev first_gated : ℕ → List Interval → Option ℕ
first_gated now [] = none
first_gated now (i ∷ is) =
    if ltb now i.start && any is_gated i.targets then some i.start else first_gated now is

pub record Status : Type 0 where
  pub state : State
  pub open_services : List Text
  pub open_until : Option ℕ
  pub opens_at : Option ℕ

-- `child_status`
unfoldable pub child_status : Calendar → List Rule → List Exception → ℕ → Status
unfolding child_open_intervals text_eq sort text_leb
child_status cal rules xs now =
    let is = child_open_intervals cal rules now (now + 2 * ms_day) in
    let names = opened_by now is xs in
    record {
      state = state_of names;
      open_services = sort text_leb (each_once names);
      open_until = if is_state_closed (state_of names) then none else latest (ends_by now is xs);
      opens_at =
          if is_state_open (state_of names)
          then none
          else first_gated now (child_open_intervals cal rules now (now + 8 * ms_day));
    }
