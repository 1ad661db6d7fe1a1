-- ===== src/Schedules/Validate/Sound.antt =====
-- Every rule that comes back from `validate_rules` is sound by itself.
pub mod Checks
pub mod Loop
use minisserver_compose.Prelude.{
  ℕ, zero, suc, ◌+◌, ◌-◌, ◌≤◌, ◌<◌, ◌≡◌, ◌≢◌, refl, sym, ap, ◌∙◌, Bool, true, false, Option, none,
  some, List, [], ◌∷◌, ◌++◌, leb, ltb, ◌==◌, Text, codes, arith, Option-cases, inl, inr, All,
  All-sort, sort, length, subst,
}
use minisserver_compose.Prelude.Json.{Json, Fields, get_value}
use minisserver_compose.Schedules.Time.{parse_hhmm}
use minisserver_compose.Schedules.Types.{
  Kind, plug, vacuum_plan, child_window, dimmer, unknown, Guardrails, Rule, Check, pass, Result, ok,
  err, Problem, ◌>>=◌, >>=-eq-pass,
}
use minisserver_compose.Schedules.Rules.{
  check_days, check_start, check_end, check_variables, check_level, dst_forbidden, distinct,
}
use minisserver_compose.Schedules.RuleLoop.{
  Progress, check_rule, check_limits, check_guardrails, normalise_rule, minutes_of, text_of,
  limit_of,
}
use minisserver_compose.Schedules.Weekly.{start_of, stop_of, or_zero}
use minisserver_compose.Schedules.Validate.Sound.Checks.{
  IsWeekday, IsWithin, check_days-pass, check_start-pass, check_end-plug, check_end-child,
  check_end-vacuum, check_guardrails-IsWithin, parse_hhmm_allowed,
}

-- The outcomes of the checks that a rule has passed.
record Passed (kind : Kind) (g : Guardrails) (rid : Text) (fs : Fields) (r : Rule) : Type 0 where
  days : List ℕ
  start : Text
  s : ℕ
  end : Option (Text × ℕ)
  vars : Option Fields
  level : Option ℕ
  days_pass : check_days rid (get_value (codes "days") fs) ≡ pass days
  start_pass : check_start rid (get_value (codes "start") fs) ≡ pass (start, s)
  end_pass :
      check_end kind rid s (get_value (codes "end") fs) (get_value (codes "variables") fs)
      ≡ pass end
  level_pass : check_level rid g (get_value (codes "level") fs) ≡ pass level
  limits_pass : check_limits kind rid g s (minutes_of end) ≡ pass tt
  result : r ≡ normalise_rule rid days start (text_of end) level vars

check_rule-Passed :
    (kind : Kind) (g : Guardrails) (rid : Text) (fs : Fields) (r : Rule)
    → check_rule kind g rid fs ≡ pass r
    → Passed kind g rid fs r
unfolding check_rule
check_rule-Passed kind g rid fs r h =
    let (days, dp, h1) = >>=-eq-pass (check_days rid (get_value (codes "days") fs)) _ h in
    let ((start, s), sp, h2) = >>=-eq-pass (check_start rid (get_value (codes "start") fs)) _ h1 in
    let (end, ep, h3) =
      >>=-eq-pass
        (check_end kind rid s (get_value (codes "end") fs) (get_value (codes "variables") fs)) _
        h2 in
    let (vars, vp, h4) =
      >>=-eq-pass (check_variables rid (get_value (codes "variables") fs)) _ h3 in
    let (level, lp, h5) = >>=-eq-pass (check_level rid g (get_value (codes "level") fs)) _ h4 in
    let (done, gp, h6) = >>=-eq-pass (check_limits kind rid g s (minutes_of end)) _ h5 in
    record {
      days = days;
      start = start;
      s = s;
      end = end;
      vars = vars;
      level = level;
      days_pass = dp;
      start_pass = sp;
      end_pass = ep;
      level_pass = lp;
      limits_pass = gp;
      result = ground (arith, h6);
    }

pub check_rule-id :
    (kind : Kind) (g : Guardrails) (rid : Text) (fs : Fields) (r : Rule)
    → check_rule kind g rid fs ≡ pass r
    → r.id ≡ rid
unfolding normalise_rule
check_rule-id kind g rid fs r h = rw (check_rule-Passed kind g rid fs r h).result

-- The window of a rule, as minutes of the day.
pub record HasWindow (allow_24 : Bool) (r : Rule) : Type 0 where
  pub starts : parse_hhmm false r.start ≡ some (start_of r)
  pub text : Text
  pub has_end : r.stop ≡ some text
  pub ends : parse_hhmm allow_24 text ≡ some (stop_of r)
  pub start_exists : dst_forbidden (start_of r) ≡ false
  pub end_exists : dst_forbidden (stop_of r) ≡ false
  pub forwards : start_of r < stop_of r

window_of :
    (allow_24 : Bool) (r : Rule) (t u : Text) (s e : ℕ)
    → r.start ≡ t
    → r.stop ≡ some u
    → parse_hhmm false t ≡ some s
    → parse_hhmm allow_24 u ≡ some e
    → parse_hhmm true u ≡ some e
    → dst_forbidden s ≡ false
    → dst_forbidden e ≡ false
    → s < e
    → HasWindow allow_24 r × (start_of r ≡ s) × (stop_of r ≡ e)
window_of allow_24 r t u s e rt ru ps pe pe' ds de l = (
  record {
    starts = rw first (rw rt ps);
    text = u;
    has_end = ru;
    ends = rw last pe;
    start_exists = rw first ds;
    end_exists = rw last de;
    forwards = rw (first, last) l;
  },
  first,
  last,
)
  where
    first : start_of r ≡ s
    first = unfold start_of in rw (rt, ps)

    last : stop_of r ≡ e
    last = unfold stop_of in ground (arith, ru, pe')

abbrev pub HasWeekdays : Rule → Type 0
HasWeekdays r = All IsWeekday r.days

-- A plug's rule: a window inside one day and outside the hours that daylight saving time moves,
-- within the guardrails.
pub record IsPlugRule (g : Guardrails) (r : Rule) : Type 0 where
  pub window : HasWindow false r
  pub within : IsWithin g (start_of r) (stop_of r)
  pub weekdays : HasWeekdays r

-- A child's rule: such a window, which may end at 24:00.
pub record IsChildRule (r : Rule) : Type 0 where
  pub window : HasWindow true r
  pub weekdays : HasWeekdays r

Passed-HasWeekdays :
    (kind : Kind) (g : Guardrails) (rid : Text) (fs : Fields) (r : Rule)
    → Passed kind g rid fs r
    → HasWeekdays r
unfolding normalise_rule
Passed-HasWeekdays kind g rid fs r p = rw p.result (
    All-sort leb IsWeekday p.days
      (check_days-pass rid (get_value (codes "days") fs) p.days p.days_pass).0)

pub check_rule-IsPlugRule :
    (g : Guardrails) (rid : Text) (fs : Fields) (r : Rule)
    → check_rule plug g rid fs ≡ pass r
    → IsPlugRule g r
check_rule-IsPlugRule g rid fs r h =
    let p = check_rule-Passed plug g rid fs r h in
    let (ps, ds) = check_start-pass rid (get_value (codes "start") fs) p.start p.s p.start_pass in
    let (u, e, oe, pe, de, l) =
      check_end-plug rid p.s (get_value (codes "end") fs) (get_value (codes "variables") fs) p.end
        p.end_pass in
    let (w, first, last) =
      window_of false r p.start u p.s e (unfold normalise_rule in rw p.result)
        (unfold normalise_rule in rw (p.result, oe)) ps pe (parse_hhmm_allowed u e pe) ds de l in
    let limits : check_guardrails rid g p.s (some e) ≡ pass tt =
      (unfold check_limits in rw oe at p.limits_pass) in
    record {
      window = w;
      within = rw (first, last) (check_guardrails-IsWithin rid g p.s e limits);
      weekdays = Passed-HasWeekdays plug g rid fs r p;
    }

pub check_rule-IsChildRule :
    (g : Guardrails) (rid : Text) (fs : Fields) (r : Rule)
    → check_rule child_window g rid fs ≡ pass r
    → IsChildRule r
check_rule-IsChildRule g rid fs r h =
    let p = check_rule-Passed child_window g rid fs r h in
    let (ps, ds) = check_start-pass rid (get_value (codes "start") fs) p.start p.s p.start_pass in
    let (u, e, oe, pe, de, l) =
      check_end-child rid p.s (get_value (codes "end") fs) (get_value (codes "variables") fs) p.end
        p.end_pass in
    let (w, first, last) =
      window_of true r p.start u p.s e (unfold normalise_rule in rw p.result)
        (unfold normalise_rule in rw (p.result, oe)) ps pe pe ds de l in
    record { window = w; weekdays = Passed-HasWeekdays child_window g rid fs r p }

-- A rule without an end.
stop_of_trigger : (r : Rule) → r.stop ≡ none → stop_of r ≡ start_of r
unfolding stop_of start_of
stop_of_trigger r e = ground (arith, e)

end_of_trigger :
    (kind : Kind) (rid : Text) (s : ℕ) (v vars : Json) (o : Option (Text × ℕ))
    → kind ≢ plug
    → kind ≢ child_window
    → check_end kind rid s v vars ≡ pass o
    → o ≡ none
end_of_trigger plug rid s v vars o np nc h = absurd (np refl)
end_of_trigger child_window rid s v vars o np nc h = absurd (nc refl)
end_of_trigger vacuum_plan rid s v vars o np nc h = check_end-vacuum rid s v vars o h
end_of_trigger dimmer rid s v vars o np nc h = unfold check_end in ground arith
end_of_trigger (unknown k) rid s v vars o np nc h = unfold check_end in ground arith

trigger-IsForward :
    (kind : Kind) (g : Guardrails) (rid : Text) (fs : Fields) (r : Rule)
    → kind ≢ plug
    → kind ≢ child_window
    → check_rule kind g rid fs ≡ pass r
    → start_of r ≤ stop_of r
trigger-IsForward kind g rid fs r np nc h =
    let p = check_rule-Passed kind g rid fs r h in
    let e =
      end_of_trigger kind rid p.s (get_value (codes "end") fs) (get_value (codes "variables") fs)
        p.end np nc p.end_pass in
    let no_end : r.stop ≡ none = (unfold normalise_rule in ground (arith, p.result, e)) in
    omega (arith, stop_of_trigger r no_end)

-- No rule ends before it starts.
pub check_rule-IsForward :
    (kind : Kind) (g : Guardrails) (rid : Text) (fs : Fields) (r : Rule)
    → check_rule kind g rid fs ≡ pass r
    → start_of r ≤ stop_of r
check_rule-IsForward plug g rid fs r h =
    let w = (check_rule-IsPlugRule g rid fs r h).window in omega (arith, w.forwards)
check_rule-IsForward child_window g rid fs r h =
    let w = (check_rule-IsChildRule g rid fs r h).window in omega (arith, w.forwards)
check_rule-IsForward vacuum_plan g rid fs r h =
    trigger-IsForward vacuum_plan g rid fs r (λ e. cc) (λ e. cc) h
check_rule-IsForward dimmer g rid fs r h = trigger-IsForward dimmer g rid fs r (λ e. cc) (λ e. cc) h
check_rule-IsForward (unknown k) g rid fs r h =
    trigger-IsForward (unknown k) g rid fs r (λ e. cc) (λ e. cc) h
