-- ===== src/Schedules/Runs/Allowed.antt =====
-- What a timed run that `validate_run` of portal/schedules/sched/model.py accepts keeps to.
use minisserver_compose.Prelude.{
  ℕ, ◌+◌, ◌-◌, ◌*◌, ◌%◌, ◌≤◌, ◌<◌, leb, leb→lt, ◌≡◌, refl, sym, ap, ◌∙◌, subst, ◌⊎◌, inl, inr, Bool,
  true, false, not, ◌&&◌, Option, none, some, List, [], ◌∷◌, ◌++◌, ltb, ◌==◌, ltb→le, Bool-cases,
  ||-false, ==_iff, if◌then◌else◌, arith, Text, codes, member, elem, keep_if, append_nil, In, here,
  there,
}
use mathlib.Core.Option.{some-injective}
use minisserver_compose.Schedules.Time.{parse_hhmm}
use minisserver_compose.Prelude.Json.{Json}
use minisserver_compose.Schedules.Types.{
  Kind, plug, vacuum_plan, child_window, dimmer, unknown, Rule, Guardrails, Code,
}
use minisserver_compose.Schedules.Rules.{dst_forbidden}
use minisserver_compose.Schedules.Weekly.{start_of}
use minisserver_compose.Schedules.Edges.{end_of}
use minisserver_compose.Schedules.Runs.{
  Calendar, Entity, ms_minute, ms_day, day_of, minute_of, ceil_minute, dates_of, meets, overlaps_on,
  overlaps, window_overlaps, range_checks, run_problems, real_or, validate_run, run_for, reported,
  limit, is_below, is_above, is_over, is_too_soon, gap_checks, minutes_of, is_any, is_plug,
  checks_if, reported_nil, unless_problems-some,
}

-- A run from `first` to `ends`, which is asked for at `started`, after one that ended at `previous`.
pub record IsAllowed (cal : Calendar) (e : Entity) (rules : List Rule) (skips : List Text)
    (started : ℕ) (previous real_start : Option ℕ) (ends : ℕ) : Type 0 where
  pub is_a_plug : e.kind ≡ plug
  pub managed : e.managed ≡ true
  pub whole_minute : ends % 60000 ≡ 0
  pub short :
      (m : ℕ) → e.guardrails.max_on_minutes ≡ some m → ends - real_or started real_start ≤ m * 60000
  pub one_day : day_of (real_or started real_start) ≡ day_of ends
  pub not_early :
      (s : Text) (lo : ℕ)
      → e.guardrails.allowed_from ≡ some s
      → parse_hhmm false s ≡ some lo
      → lo ≤ minute_of (real_or started real_start)
  pub not_late :
      (s : Text) (hi : ℕ)
      → e.guardrails.allowed_to ≡ some s
      → parse_hhmm false s ≡ some hi
      → minute_of ends ≤ hi
  pub unambiguous : (minute_of ends < 120) ⊎ (240 ≤ minute_of ends)
  pub rested :
      (p gap : ℕ)
      → real_start ≡ none
      → previous ≡ some p
      → e.guardrails.min_gap_minutes ≡ some gap
      → p + gap * 60000 ≤ started
  pub free :
      (r : Rule)
      → In r rules
      → elem (cal.day (day_of ends)).weekday r.days ≡ true
      → member (cal.day (day_of ends)).date skips ≡ false
      → (ends ≤ day_of ends * ms_day + start_of r * ms_minute)
        ⊎ (day_of ends * ms_day + end_of r * ms_minute ≤ real_or started real_start)

dst_forbidden-out : (m : ℕ) → dst_forbidden m ≡ false → (m < 120) ⊎ (240 ≤ m)
dst_forbidden-out m h = elim (Bool-cases (leb 120 m)) [
  | inl y ↦ inr (ground (arith, h, y))
  | inr n ↦ inl (leb→lt 120 m n)
]

limit-some :
    (o : Option Text) (s : Text) (m : ℕ)
    → o ≡ some s
    → parse_hhmm false s ≡ some m
    → limit o ≡ some m
limit-some none s m e p = absurd (cc)
limit-some (some t) s m e p =
    let same : t ≡ s = some-injective t s e in ap (parse_hhmm false) same ∙ p

ceil_minute-whole : (t : ℕ) → ceil_minute t % 60000 ≡ 0
unfolding ceil_minute
ceil_minute-whole t = ground arith

is_over-le : (o : Option ℕ) (n m : ℕ) → is_over o n ≡ false → o ≡ some m → n ≤ m * 60000
is_over-le none n m h e = absurd (cc)
is_over-le (some k) n m h e = ground (arith, h, e)

is_below-le : (o : Option ℕ) (m lo : ℕ) → is_below o m ≡ false → o ≡ some lo → lo ≤ m
is_below-le none m lo h e = absurd (cc)
is_below-le (some k) m lo h e = ground (arith, h, e)

is_above-le : (o : Option ℕ) (m hi : ℕ) → is_above o m ≡ false → o ≡ some hi → m ≤ hi
is_above-le none m hi h e = absurd (cc)
is_above-le (some k) m hi h e = ground (arith, h, e)

-- A rule of the day is not kept: its window is before or behind.
none_kept :
    (p : Rule → Bool) (rules : List Rule) (r : Rule)
    → keep_if p rules ≡ []
    → In r rules
    → p r ≡ false
none_kept p [] r h i = elim i [ ]
none_kept p (x ∷ xs) r h (here e) = elim (Bool-cases (p x)) [
  | inl y ↦ absurd (ground (arith, y))
  | inr n ↦ ap p e ∙ n
]
none_kept p (x ∷ xs) r h (there i) = elim (Bool-cases (p x)) [
  | inl y ↦ absurd (ground (arith, y))
  | inr n ↦ none_kept p xs r (ground (arith, n)) i
]

overlaps_nil :
    (cal : Calendar) (rules : List Rule) (skips : List Text) (start ends : ℕ)
    → day_of start ≡ day_of ends
    → window_overlaps cal rules skips start ends ≡ []
    → overlaps_on cal rules skips start ends (day_of ends) ≡ []
unfolding window_overlaps
overlaps_nil cal rules skips start ends same h =
    let one : (day_of start == day_of ends) ≡ true = (==_iff (day_of start) (day_of ends)).1 same in
    let dates : dates_of start ends ≡ day_of start ∷ [] = rw one refl in
    let on_start = (append_nil _ [] (sym (ap (overlaps cal rules skips start ends) dates) ∙ h)).0 in
    subst (λ (d : ℕ). overlaps_on cal rules skips start ends d ≡ []) same on_start

is_any_nil : (rs : List Rule) → is_any rs ≡ false → rs ≡ []
is_any_nil [] h = refl
is_any_nil (r ∷ rs) h = absurd (cc)

overlaps_free :
    (cal : Calendar) (rules : List Rule) (skips : List Text) (first ends : ℕ) (r : Rule)
    → overlaps_on cal rules skips first ends (day_of ends) ≡ []
    → In r rules
    → elem (cal.day (day_of ends)).weekday r.days ≡ true
    → member (cal.day (day_of ends)).date skips ≡ false
    → (ends ≤ day_of ends * ms_day + start_of r * ms_minute)
      ⊎ (day_of ends * ms_day + end_of r * ms_minute ≤ first)
overlaps_free cal rules skips first ends r h i today kept =
    let d = day_of ends in
    let none_meets : keep_if (λ (x : Rule). elem (cal.day d).weekday x.days && meets d first ends x)
          rules
        ≡ [] =
      sym (
        ap
          (λ (b : Bool).
            if b
            then []
            else keep_if (λ (x : Rule). elem (cal.day d).weekday x.days && meets d first ends x)
                rules)
          kept)
      ∙ h in
    let out = none_kept _ rules r none_meets i in
    elim (Bool-cases (ltb (d * ms_day + start_of r * ms_minute) ends)) [
      | inr n ↦ inl (ltb→le _ _ n)
      | inl y ↦ inr (ltb→le _ _ (ground (arith, out, today, y)))
    ]

-- What the checks of the time of day say that report nothing.
range_checks_nil :
    (g : Guardrails) (first ends : ℕ)
    → range_checks g first ends ≡ []
    → (day_of first ≡ day_of ends)
      × (is_below (limit g.allowed_from) (minute_of first) ≡ false)
      × (is_above (limit g.allowed_to) (minute_of ends) ≡ false)
      × (dst_forbidden (minute_of ends) ≡ false)
unfolding range_checks
range_checks_nil g first ends h = go (day_of first == day_of ends) refl h
  where
    go :
        (b : Bool)
        → (day_of first == day_of ends) ≡ b
        → checks_if b g first ends ≡ []
        → (day_of first ≡ day_of ends)
          × (is_below (limit g.allowed_from) (minute_of first) ≡ false)
          × (is_above (limit g.allowed_to) (minute_of ends) ≡ false)
          × (dst_forbidden (minute_of ends) ≡ false)
    go false e k = absurd (cc)
    go true e k =
        let (below, rest) = append_nil _ _ k in
        let (above, dst) = append_nil _ _ rest in
        (
          (==_iff _ _).0 e,
          reported_nil _ _ _ below,
          reported_nil _ _ _ above,
          (||-false _ _ (reported_nil _ _ _ dst)).1,
        )

rested_lem :
    (g : Guardrails) (started : ℕ) (previous real_start : Option ℕ)
    → gap_checks g started previous real_start ≡ []
    → (p gap : ℕ) → real_start ≡ none
    → previous ≡ some p
    → g.min_gap_minutes ≡ some gap
    → p + gap * 60000 ≤ started
rested_lem g started previous (some r) h p gap is_new before has_gap = absurd (cc)
rested_lem g started previous none h p gap is_new before has_gap =
    let rests : is_too_soon started previous g.min_gap_minutes ≡ false = reported_nil _ _ _ h in
    let said : is_too_soon started (some p) (some gap) ≡ false = cc (rests, before, has_gap) in
    ltb→le _ _ said

run_problems_nil :
    (cal : Calendar) (e : Entity) (rules : List Rule) (skips : List Text) (started t : ℕ)
    (previous real_start : Option ℕ)
    → e.kind ≡ plug
    → e.managed ≡ true
    → run_problems cal e rules skips started previous real_start
        (real_or started real_start)
        (ceil_minute t)
      ≡ []
    → IsAllowed cal e rules skips started previous real_start (ceil_minute t)
unfolding run_problems
run_problems_nil cal e rules skips started t previous real_start is_a_plug managed h =
    let first = real_or started real_start in
    let ends = ceil_minute t in
    let (over, rest) = append_nil _ _ h in
    let (ranges, rest2) = append_nil _ _ rest in
    let (gaps, windows) = append_nil _ _ rest2 in
    let (one_day, below, above, dst) = range_checks_nil e.guardrails first ends ranges in
    let no_window = is_any_nil _ (reported_nil _ _ _ windows) in
    record {
      is_a_plug = is_a_plug;
      managed = managed;
      whole_minute = ceil_minute-whole t;
      short = λ m g.
          is_over-le e.guardrails.max_on_minutes (ends - first) m (reported_nil _ _ _ over) g;
      one_day = one_day;
      not_early = λ s lo g p.
          is_below-le (limit e.guardrails.allowed_from) (minute_of first) lo below
            (limit-some e.guardrails.allowed_from s lo g p);
      not_late = λ s hi g p.
          is_above-le (limit e.guardrails.allowed_to) (minute_of ends) hi above
            (limit-some e.guardrails.allowed_to s hi g p);
      unambiguous = dst_forbidden-out (minute_of ends) dst;
      rested = rested_lem e.guardrails started previous real_start gaps;
      free = λ r i today kept.
          overlaps_free cal rules skips first ends r
            (overlaps_nil cal rules skips first ends one_day no_window) i today kept;
    }

is_plug-eq : (k : Kind) → is_plug k ≡ true → k ≡ plug
is_plug-eq plug h = refl
is_plug-eq vacuum_plan h = absurd (cc)
is_plug-eq child_window h = absurd (cc)
is_plug-eq dimmer h = absurd (cc)
is_plug-eq (unknown k) h = absurd (cc)

run_for-IsAllowed :
    (cal : Calendar) (e : Entity) (rules : List Rule) (skips : List Text) (started : ℕ)
    (previous real_start : Option ℕ) (o : Option ℕ) (ends : ℕ)
    → e.kind ≡ plug
    → (run_for cal e rules skips started previous real_start
        (reported (not e.managed) Code.not_managed (codes "entity"))
        o).0
      ≡ some ends
    → IsAllowed cal e rules skips started previous real_start ends
run_for-IsAllowed cal e rules skips started previous real_start none ends kind_of h = absurd (cc)
run_for-IsAllowed cal e rules skips started previous real_start (some n) ends kind_of h =
    let said = reported (not e.managed) Code.not_managed (codes "entity") in
    let t = ceil_minute (started + n * ms_minute) in
    let found =
      run_problems cal e rules skips started previous real_start (real_or started real_start) t in
    let (none_reported, same) = unless_problems-some t ends (said ++ found) h in
    let (managed, sound) = append_nil said found none_reported in
    let is_managed : e.managed ≡ true =
      ground (arith, reported_nil (not e.managed) Code.not_managed (codes "entity") managed) in
    subst (IsAllowed cal e rules skips started previous real_start) same (
      run_problems_nil cal e rules skips started (started + n * ms_minute) previous real_start
        kind_of is_managed sound)

-- A timed run that is accepted, or an extension, is of a managed plug and ends on a whole minute of
-- the day it started on; counted from its real start it is no longer than the guardrail allows, it
-- keeps to each end of the allowed range of the day that can be read, its end is outside 02:00-03:59,
-- and no window of that day, unless the date is skipped, overlaps it. A new run, not an extension,
-- keeps the gap after the previous run.
pub validate_run-IsAllowed :
    (cal : Calendar) (e : Entity) (rules : List Rule) (skips : List Text) (minutes : Json)
    (started : ℕ) (previous real_start : Option ℕ) (ends : ℕ)
    → (validate_run cal e rules skips minutes started previous real_start).0 ≡ some ends
    → IsAllowed cal e rules skips started previous real_start ends
unfolding validate_run
validate_run-IsAllowed cal e rules skips minutes started previous real_start ends h =
    elim (Bool-cases (is_plug e.kind)) [
      | inl y ↦
          run_for-IsAllowed cal e rules skips started previous real_start (minutes_of minutes) ends
            (is_plug-eq e.kind y) (ground (arith, y))
      | inr n ↦ absurd (ground (arith, n))
    ]
