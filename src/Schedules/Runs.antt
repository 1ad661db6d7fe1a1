-- ===== src/Schedules/Runs.antt =====
-- Dates, edges and timed runs of portal/schedules/sched/model.py. A moment is a local wall clock
-- time, in milliseconds from the start of some day that counts as day 0.
pub mod Allowed
use minisserver_compose.Prelude.{
  ℕ, zero, suc, ◌+◌, ◌-◌, ◌*◌, ◌/◌, ◌%◌, ◌≤◌, ◌≡◌, refl, arith, Bool, true, false, not, ◌&&◌, ◌||◌,
  Option, none, some, List, [], ◌∷◌, ◌++◌, ltb, leb, ◌==◌, if◌then◌else◌, Text, codes, text_eq,
  text_leb, member, elem, sort, length, keep_if, map,
}
use minisserver_compose.Prelude.Int.{ℤ, pos}
use minisserver_compose.Prelude.Json.{Json, Fields, str, int, keys, get_value}
use minisserver_compose.Schedules.Time.{parse_hhmm}
use minisserver_compose.Schedules.Types.{
  Kind, plug, vacuum_plan, child_window, dimmer, unknown, Rule, Guardrails, Code, Field, plain,
  Problem, problem,
}
use minisserver_compose.Schedules.Rules.{dst_forbidden}
use minisserver_compose.Schedules.Weekly.{or_zero, start_of}
use minisserver_compose.Schedules.Edges.{Day, Action, Edge, rank, end_of, day_edges, target_state}

abbrev pub ms_minute : ℕ
ms_minute = 60000

abbrev pub ms_day : ℕ
ms_day = 86400000

abbrev pub day_of : ℕ → ℕ
day_of t = t / ms_day

abbrev pub minute_of : ℕ → ℕ
minute_of t = (t % ms_day) / ms_minute

-- What the code calls of `datetime.date`: the weekday and the text of a day, and the day of a text
-- of ten characters.
pub record Calendar : Type 0 where
  pub day : ℕ → Day
  pub from_iso : Text → Option ℕ

-- `parse_date`
unfoldable pub parse_date : Calendar → Json → Option ℕ
parse_date cal (str s) = if length s == 10 then cal.from_iso s else none
parse_date cal _ = none

abbrev pub reported : Bool → Code → Text → List Problem
reported true c f = problem c (plain f) ∷ []
reported false c f = []

abbrev unknown_fields : List Text → List Problem
unknown_fields [] = []
unknown_fields (k ∷ ks) =
    reported (not (member k (codes "kind" ∷ codes "entity_id" ∷ codes "date" ∷ [])))
      Code.unknown_key k
    ++ unknown_fields ks

abbrev check_date : ℕ → Option ℕ → Option ℕ × List Problem
check_date today none = (none, problem Code.format (plain (codes "date")) ∷ [])
check_date today (some d) =
    if ltb d today
    then (none, problem Code.past (plain (codes "date")) ∷ [])
    else if ltb (today + 366) d
    then (none, problem Code.far (plain (codes "date")) ∷ [])
    else (some d, [])

abbrev is_text : Text → Json → Bool
is_text t (str s) = text_eq s t
is_text t _ = false

-- `validate_exception`: the date that is to be skipped, where there is one, and the problems.
unfoldable pub validate_exception : Calendar → ℕ → Fields → Option ℕ × List Problem
unfolding parse_date text_eq
validate_exception cal today body =
    let probs = unknown_fields (keys body) in
    let (date, found) = check_date today (parse_date cal (get_value (codes "date") body)) in
    if is_text (codes "skip_date") (get_value (codes "kind") body)
    then (date, probs ++ found)
    else (none, probs ++ (problem Code.kind (plain (codes "kind")) ∷ []))

-- `(datetime, action, rule id)`
pub record Firing : Type 0 where
  pub at : ℕ
  pub action : Action
  pub id : Text

abbrev firing_leb : Firing → Firing → Bool
firing_leb a b =
    ltb a.at b.at
    || ((a.at == b.at)
        && (ltb (rank a.action) (rank b.action)
            || ((rank a.action == rank b.action) && text_leb a.id b.id)))

abbrev firing_on : ℕ → Edge → Firing
firing_on d e = record { at = d * ms_day + e.minute * ms_minute; action = e.action; id = e.id }

-- The days `d`, `d + 1`, and so on, `n` of them.
abbrev pub days_from : ℕ → ℕ → List ℕ
days_from zero d = []
days_from (suc n) d = d ∷ days_from n (suc d)

abbrev firings_on : Calendar → Kind → List Rule → List Text → List ℕ → List Firing
firings_on cal kind rules skips [] = []
firings_on cal kind rules skips (d ∷ ds) =
    map (firing_on d) (day_edges kind rules (cal.day d) skips) ++ firings_on cal kind rules skips ds

-- `edges_between`, for a start that is not on day 0.
unfoldable pub edges_between : Calendar → Kind → List Rule → ℕ → ℕ → List Text → List Firing
unfolding day_edges sort text_leb
edges_between cal kind rules start end' skips =
    let days = days_from (day_of end' + 3 - day_of start) (day_of start - 1) in
    sort firing_leb (
      keep_if (λ (e : Firing). leb start e.at && ltb e.at end')
        (firings_on cal kind rules skips days))

abbrev first_after : ℕ → List Firing → Option Firing
first_after at [] = none
first_after at (e ∷ es) = if ltb at e.at then some e else first_after at es

-- `next_edge`
unfoldable pub next_edge : Calendar → Kind → List Rule → ℕ → List Text → Option Firing
unfolding edges_between
next_edge cal kind rules at skips =
    first_after at (edges_between cal kind rules at (at + 9 * ms_day) skips)

-- What `effective` says.
pub record Effective : Type 0 where
  pub state : Option Bool
  pub skipped_today : Bool
  pub next : Option Firing

unfoldable pub effective : Calendar → Kind → List Rule → List Text → ℕ → Effective
unfolding next_edge target_state
effective cal kind rules skips at = record {
  state = target_state kind rules (cal.day (day_of at)) (minute_of at) skips;
  skipped_today = member (cal.day (day_of at)).date skips;
  next = next_edge cal kind rules at skips;
}

-- `ceil_minute`: the milliseconds are dropped first.
unfoldable pub ceil_minute : ℕ → ℕ
ceil_minute t =
    let s = t - t % 1000 in if s % ms_minute == 0 then s else s + ms_minute - s % ms_minute

-- The dates of a span's two ends, each once.
abbrev pub dates_of : ℕ → ℕ → List ℕ
dates_of start end' =
    if day_of start == day_of end' then day_of start ∷ [] else day_of start ∷ day_of end' ∷ []

abbrev pub meets : ℕ → ℕ → ℕ → Rule → Bool
meets d start end' r =
    ltb (d * ms_day + start_of r * ms_minute) end' && ltb start (d * ms_day + end_of r * ms_minute)

abbrev pub overlaps_on : Calendar → List Rule → List Text → ℕ → ℕ → ℕ → List Rule
overlaps_on cal rules skips start end' d =
    if member (cal.day d).date skips
    then []
    else keep_if (λ (r : Rule). elem (cal.day d).weekday r.days && meets d start end' r) rules

abbrev pub overlaps : Calendar → List Rule → List Text → ℕ → ℕ → List ℕ → List Rule
overlaps cal rules skips start end' [] = []
overlaps cal rules skips start end' (d ∷ ds) =
    overlaps_on cal rules skips start end' d ++ overlaps cal rules skips start end' ds

-- `_window_overlaps`: the rules whose windows it names.
unfoldable pub window_overlaps : Calendar → List Rule → List Text → ℕ → ℕ → List Rule
unfolding start_of end_of text_eq
window_overlaps cal rules skips start end' =
    overlaps cal rules skips start end' (dates_of start end')

-- What `validate_run` reads of the entity.
pub record Entity : Type 0 where
  pub kind : Kind
  pub managed : Bool
  pub guardrails : Guardrails

abbrev pub is_over : Option ℕ → ℕ → Bool
is_over none n = false
is_over (some m) n = ltb (m * ms_minute) n

abbrev pub limit : Option Text → Option ℕ
limit none = none
limit (some t) = parse_hhmm false t

abbrev pub is_below : Option ℕ → ℕ → Bool
is_below none m = false
is_below (some lo) m = ltb m lo

abbrev pub is_above : Option ℕ → ℕ → Bool
is_above none m = false
is_above (some hi) m = ltb hi m

-- The checks of the time of day, where the run ends on the day it started.
abbrev pub checks_if : Bool → Guardrails → ℕ → ℕ → List Problem
checks_if false g first ends = problem Code.allowed_range (plain (codes "minutes")) ∷ []
checks_if true g first ends =
    reported (is_below (limit g.allowed_from) (minute_of first)) Code.allowed_range (codes "start")
    ++ (reported (is_above (limit g.allowed_to) (minute_of ends)) Code.allowed_range
          (codes "minutes")
        ++ reported (dst_forbidden (minute_of first) || dst_forbidden (minute_of ends))
            Code.dst_ambiguous (codes "minutes"))

unfoldable pub range_checks : Guardrails → ℕ → ℕ → List Problem
unfolding parse_hhmm
range_checks g first ends = checks_if (day_of first == day_of ends) g first ends

abbrev pub is_too_soon : ℕ → Option ℕ → Option ℕ → Bool
is_too_soon started (some previous) (some gap) = ltb started (previous + gap * ms_minute)
is_too_soon started (some previous) none = false
is_too_soon started none gap = false

abbrev pub gap_checks : Guardrails → ℕ → Option ℕ → Option ℕ → List Problem
gap_checks g started previous (some real_start) = []
gap_checks g started previous none =
    reported (is_too_soon started previous g.min_gap_minutes) Code.min_gap (codes "start")

abbrev pub is_any : List Rule → Bool
is_any [] = false
is_any (r ∷ rs) = true

-- The checks of a run from `first` to `ends`, in their order.
unfoldable pub run_problems :
    Calendar → Entity → List Rule → List Text → ℕ → Option ℕ → Option ℕ → ℕ → ℕ → List Problem
unfolding range_checks window_overlaps
run_problems cal e rules skips started previous real_start first ends =
    reported (is_over e.guardrails.max_on_minutes (ends - first)) Code.max_on (codes "minutes")
    ++ (range_checks e.guardrails first ends
        ++ (gap_checks e.guardrails started previous real_start
            ++ reported (is_any (window_overlaps cal rules skips first ends)) Code.window_overlap
                (codes "minutes")))

-- `None if probs else ends_at`
abbrev pub unless_problems : ℕ → List Problem → Option ℕ × List Problem
unless_problems t [] = (some t, [])
unless_problems t (p ∷ ps) = (none, p ∷ ps)

abbrev pub real_or : ℕ → Option ℕ → ℕ
real_or t none = t
real_or t (some r) = r

abbrev pub minutes_of : Json → Option ℕ
minutes_of (int (pos n)) = if leb 1 n && leb n 1440 then some n else none
minutes_of _ = none

abbrev pub is_plug : Kind → Bool
is_plug plug = true
is_plug _ = false

abbrev pub run_for :
    Calendar
    → Entity
    → List Rule
    → List Text
    → ℕ
    → Option ℕ
    → Option ℕ
    → List Problem
    → Option ℕ
    → Option ℕ × List Problem
run_for cal e rules skips started previous real_start probs none =
    (none, probs ++ (problem Code.range (plain (codes "minutes")) ∷ []))
run_for cal e rules skips started previous real_start probs (some n) =
    let ends = ceil_minute (started + n * ms_minute) in
    unless_problems ends (
      probs
      ++ run_problems cal e rules skips started previous real_start (real_or started real_start)
          ends)

-- `validate_run`: the end of the run, where it is accepted, and the problems.
unfoldable pub validate_run :
    Calendar
    → Entity
    → List Rule
    → List Text
    → Json
    → ℕ
    → Option ℕ
    → Option ℕ
    → Option ℕ × List Problem
unfolding ceil_minute run_problems
validate_run cal e rules skips minutes started previous real_start =
    if is_plug e.kind
    then run_for cal e rules skips started previous real_start
        (reported (not e.managed) Code.not_managed (codes "entity")) (minutes_of minutes)
    else (none, problem Code.kind (plain (codes "entity")) ∷ [])

-- A check that reports nothing has not failed.
pub reported_nil : (b : Bool) (c : Code) (f : Text) → reported b c f ≡ [] → b ≡ false
reported_nil true c f h = absurd (cc)
reported_nil false c f h = refl

pub unless_problems-some :
    (t u : ℕ) (ps : List Problem) → (unless_problems t ps).0 ≡ some u → (ps ≡ []) × (t ≡ u)
unless_problems-some t u [] h = (refl, ground arith)
unless_problems-some t u (p ∷ ps) h = absurd (cc)
