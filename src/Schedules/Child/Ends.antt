-- ===== src/Schedules/Child/Ends.antt =====
-- The ends of the children's exceptions that portal/schedules/sched/model.py accepts.
use minisserver_compose.Prelude.{
  ℕ, zero, suc, ◌+◌, ◌-◌, ◌*◌, ◌%◌, ◌≤◌, ◌<◌, ◌≡◌, ◌≢◌, leb→lt, leb→le, if◌then◌else◌, ap, ◌∙◌, sym,
  ==_iff, refl, text_eq, text_eq→eq, text_eq_refl, subst, inl, inr, Bool, true, false, Option, none,
  some, [], ◌++◌, leb, ◌==◌, ltb→le, append_nil, Bool-cases, arith, Text, codes,
}
use minisserver_compose.Prelude.Int.{pos, negsuc}
use minisserver_compose.Prelude.Json.{Json, null, bool, int, float, str, array, object}
use mathlib.Core.Option.{some-injective}
use minisserver_compose.Schedules.Time.{parse_hhmm}
use minisserver_compose.Schedules.Time.RoundTrip.{parse_hhmm_bounds}
use minisserver_compose.Schedules.Types.{Guardrails, Code}
use minisserver_compose.Schedules.Runs.{
  ms_minute, ms_day, day_of, unless_problems-some, reported, reported_nil,
}
use minisserver_compose.Schedules.Child.{
  latest_minute, day_checks, is_too_long, latest_end, for_minutes, to_the_end, timed, for_target,
  validate_child_exception,
}

latest_minute-eq : (t : Text) (m : ℕ) → parse_hhmm false t ≡ some m → latest_minute (some t) ≡ m
latest_minute-eq t m e =
    ap (λ (o : Option ℕ). elim o as (λ (x : Option ℕ). ℕ) [ none ↦ 0 | some k ↦ k ]) e

-- A latest end is on its day.
latest_minute-lt : (o : Option Text) → latest_minute o < 1440
latest_minute-lt none = omega arith
latest_minute-lt (some t) = go (parse_hhmm false t) refl
  where
    go :
        (o : Option ℕ)
        → parse_hhmm false t ≡ o
        → elim o as (λ (x : Option ℕ). ℕ) [ none ↦ 0 | some m ↦ m ] < 1440
    go none e = omega arith
    go (some m) e = elim (Bool-cases (leb 1440 m)) [
      | inl y ↦
          let (le, top) = parse_hhmm_bounds false t m e in
          absurd (cc ((top (omega (arith, le, leb→le 1440 m y))).0))
      | inr n ↦ leb→lt 1440 m n
    ]

day_of-minute : (d m : ℕ) → m < 1440 → day_of (d * ms_day + m * ms_minute) ≡ d
day_of-minute d m h = omega (arith, h)

-- No later than a time of the day that begins at `midnight`: the last minute where none is set.
pub record IsUntil (o : Option Text) (midnight ends : ℕ) : Type 0 where
  pub set_to :
      (s : Text) (m : ℕ) → o ≡ some s → parse_hhmm false s ≡ some m → ends ≤ midnight + m * 60000
  pub not_set : o ≡ none → ends ≤ midnight + 1439 * 60000

latest_minute-IsUntil :
    (o : Option Text) (midnight ends : ℕ)
    → ends ≤ midnight + latest_minute o * ms_minute
    → IsUntil o midnight ends
latest_minute-IsUntil none midnight ends h = record {
  set_to = λ s m e p. absurd (cc (e));
  not_set = λ e. h;
}
latest_minute-IsUntil (some t) midnight ends h = record {
  set_to = λ s m e p.
      let same : t ≡ s = some-injective t s e in
      let read : latest_minute (some t) ≡ m =
        latest_minute-eq t m (ap (parse_hhmm false) same ∙ p) in
      omega (arith, h, read);
  not_set = λ e. absurd (cc (e));
}

-- An end that is later than `now` and on its day; no later than the time that the guardrails set for
-- the target, or the last minute of the day where they set none; a number of minutes is within the
-- guardrail.
pub record IsBounded (g : Guardrails) (target : Text) (minutes : Json) (now ends : ℕ) : Type 0 where
  pub later : now < ends
  pub same_day : day_of ends ≡ day_of now
  pub all_in_time : target ≡ codes "all" → IsUntil g.all_latest_end (day_of now * ms_day) ends
  pub others_in_time :
      target ≢ codes "all" → IsUntil g.exception_latest_end (day_of now * ms_day) ends
  pub short :
      (n m : ℕ) → minutes ≡ int (pos n) → g.max_exception_minutes ≡ some m → ends ≤ now + m * 60000

latest_end-day_of :
    (g : Guardrails) (target : Text) (now : ℕ) → day_of (latest_end g target now) ≡ day_of now
unfolding latest_end
latest_end-day_of g target now =
    day_of-minute (day_of now)
      (latest_minute
        (if text_eq target (codes "all") then g.all_latest_end else g.exception_latest_end))
      (latest_minute-lt
        (if text_eq target (codes "all") then g.all_latest_end else g.exception_latest_end))

-- What an end that keeps to the latest end of its target is.
latest_end-IsUntil :
    (g : Guardrails) (target : Text) (now ends : ℕ)
    → ends ≤ latest_end g target now
    → (target ≡ codes "all" → IsUntil g.all_latest_end (day_of now * ms_day) ends)
      × (target ≢ codes "all" → IsUntil g.exception_latest_end (day_of now * ms_day) ends)
unfolding latest_end
latest_end-IsUntil g target now ends h = elim (Bool-cases (text_eq target (codes "all"))) [
  | inl y ↦ (
    λ e. latest_minute-IsUntil g.all_latest_end _ ends (rw y at h),
    λ ne. absurd (ne (text_eq→eq target (codes "all") y)),
  )
  | inr n ↦ (
    λ e. absurd (cc (ap (λ (t : Text). text_eq t (codes "all")) e, text_eq_refl (codes "all"), n)),
    λ ne. latest_minute-IsUntil g.exception_latest_end _ ends (rw n at h),
  )
]

is_too_long-le : (o : Option ℕ) (n m : ℕ) → is_too_long o n ≡ false → o ≡ some m → n ≤ m
is_too_long-le none n m h e = absurd (cc)
is_too_long-le (some k) n m h e = ground (arith, h, e)

for_minutes-IsBounded :
    (g : Guardrails) (target : Text) (now n ends : ℕ)
    → (for_minutes g target now (suc n)).0 ≡ some ends
    → IsBounded g target (int (pos (suc n))) now ends
for_minutes-IsBounded g target now n ends h =
    let asked = now + suc n * ms_minute in
    let long =
      reported (is_too_long g.max_exception_minutes (suc n)) Code.max_exception (codes "minutes") in
    let days = day_checks (day_of asked == day_of now) g target now asked in
    let (sound, same) = unless_problems-some asked ends (long ++ days) h in
    let (short, dated) = append_nil long days sound in
    let in_time : ends ≤ latest_end g target now =
      subst (λ (t : ℕ). t ≤ latest_end g target now) same
        (on_day (day_of asked == day_of now) dated) in
    let fits = reported_nil (is_too_long g.max_exception_minutes (suc n)) _ _ short in
    record {
      later = omega (arith, same);
      same_day = ap day_of (sym same) ∙ is_same_day (day_of asked == day_of now) refl dated;
      all_in_time = (latest_end-IsUntil g target now ends in_time).0;
      others_in_time = (latest_end-IsUntil g target now ends in_time).1;
      short =
          λ k m e f. omega (arith, same, is_too_long-le g.max_exception_minutes (suc n) m fits f);
    }
  where
    on_day :
        (b : Bool)
        → day_checks b g target now (now + suc n * ms_minute) ≡ []
        → now + suc n * ms_minute ≤ latest_end g target now
    on_day false k = absurd (cc)
    on_day true k = ltb→le _ _ (reported_nil _ _ _ k)

    is_same_day :
        (b : Bool)
        → (day_of (now + suc n * ms_minute) == day_of now) ≡ b
        → day_checks b g target now (now + suc n * ms_minute) ≡ []
        → day_of (now + suc n * ms_minute) ≡ day_of now
    is_same_day false e k = absurd (cc)
    is_same_day true e k = (==_iff _ _).0 e

to_the_end-IsBounded :
    (g : Guardrails) (target : Text) (now ends : ℕ)
    → (to_the_end g target now).0 ≡ some ends
    → IsBounded g target null now ends
to_the_end-IsBounded g target now ends h =
    elim (Bool-cases (leb (latest_end g target now) (now + ms_minute))) [
      | inl y ↦ absurd (ground (arith, y))
      | inr n ↦
          let same : latest_end g target now ≡ ends = ground (arith, n) in
          record {
            later = ground (arith, n, same);
            same_day = ap day_of (sym same) ∙ latest_end-day_of g target now;
            all_in_time = (latest_end-IsUntil g target now ends (omega (arith, same))).0;
            others_in_time = (latest_end-IsUntil g target now ends (omega (arith, same))).1;
            short = λ k m e f. absurd (cc);
          }
    ]

timed-IsBounded :
    (g : Guardrails) (target : Text) (now : ℕ) (minutes : Json) (ends : ℕ)
    → (timed g target now minutes).0 ≡ some ends
    → IsBounded g target minutes now ends
timed-IsBounded g target now (int (pos (suc n))) ends h =
    for_minutes-IsBounded g target now n ends h
timed-IsBounded g target now (int (pos zero)) ends h = absurd (cc)
timed-IsBounded g target now (int (negsuc n)) ends h = absurd (cc)
timed-IsBounded g target now null ends h = absurd (cc)
timed-IsBounded g target now (bool b) ends h = absurd (cc)
timed-IsBounded g target now (float t) ends h = absurd (cc)
timed-IsBounded g target now (str t) ends h = absurd (cc)
timed-IsBounded g target now (array xs) ends h = absurd (cc)
timed-IsBounded g target now (object fs) ends h = absurd (cc)

until_end-IsBounded :
    (g : Guardrails) (target : Text) (now : ℕ) (minutes : Json) (ends : ℕ)
    → (for_target g target minutes true now).0 ≡ some ends
    → IsBounded g target minutes now ends
until_end-IsBounded g target now null ends h = to_the_end-IsBounded g target now ends h
until_end-IsBounded g target now (int n) ends h = absurd (cc)
until_end-IsBounded g target now (bool b) ends h = absurd (cc)
until_end-IsBounded g target now (float t) ends h = absurd (cc)
until_end-IsBounded g target now (str t) ends h = absurd (cc)
until_end-IsBounded g target now (array xs) ends h = absurd (cc)
until_end-IsBounded g target now (object fs) ends h = absurd (cc)

for_target-IsBounded :
    (g : Guardrails) (target : Text) (minutes : Json) (until_eod : Bool) (now ends : ℕ)
    → (for_target g target minutes until_eod now).0 ≡ some ends
    → IsBounded g target minutes now ends
for_target-IsBounded g target minutes true now ends h =
    until_end-IsBounded g target now minutes ends h
for_target-IsBounded g target minutes false now ends h = timed-IsBounded g target now minutes ends h

-- A child's exception that is accepted ends later than the second in which it is asked for, on that
-- day, no later than the guardrail `all_latest_end` where it is for `all` and `exception_latest_end`
-- where it is for another target, if that is a time that can be read, and no later than 23:59 where it
-- is not set; it is within the guardrail on its minutes where it is asked for in minutes.
pub validate_child_exception-IsBounded :
    (g : Guardrails) (target : Text) (minutes : Json) (until_eod : Bool) (now ends : ℕ)
    → (validate_child_exception g target minutes until_eod now).0 ≡ some ends
    → IsBounded g target minutes (now - now % 1000) ends
unfolding validate_child_exception
validate_child_exception-IsBounded g target minutes until_eod now ends h =
    for_target-IsBounded g target minutes until_eod (now - now % 1000) ends (ground (arith, h))
