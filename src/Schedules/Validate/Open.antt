-- ===== src/Schedules/Validate/Open.antt =====
-- What a result of `validate_rules` without a problem promises of each day.
use minisserver_compose.Prelude.{
  ℕ, ◌≤◌, ◌≡◌, sym, ap, ◌∙◌, true, some, List, [], arith, All-mono, sort,
}
use minisserver_compose.Prelude.Json.{Json, items}
use minisserver_compose.Schedules.Time.RoundTrip.{parse_hhmm_bounds}
use minisserver_compose.Schedules.Types.{Kind, child_window, Guardrails, Rule, ok}
use minisserver_compose.Schedules.Weekly.{stop_of}
use minisserver_compose.Schedules.Daily.{span_of, gated_problems, gated_days, check_open_days}
use minisserver_compose.Schedules.Daily.Covered.{IsSpan, count_below, count_below-cong}
use minisserver_compose.Schedules.Daily.Triggers.{
  firing_on, firing_on-sort, check_triggers-firing_on,
}
use minisserver_compose.Schedules.Daily.OpenDays.{
  is_open_at, is_open_at-sort, check_open_days-count,
}
use minisserver_compose.Schedules.Validate.{validate_rules, check_child, rule_leb, limit_or}
use minisserver_compose.Schedules.Validate.Sound.{IsChildRule, check_rule-IsChildRule}
use minisserver_compose.Schedules.Validate.Sound.Loop.{visit_rules-All}
use minisserver_compose.Schedules.Validate.Outcome.{fresh_progress, validate_rules-Concluded}
use minisserver_compose.Schedules.Validate.Spaced.{Concluded-IsClean, append-eq-nil}

-- Where no problem is reported, no day has more rules than `max_triggers_per_day`.
pub validate_rules-firing_on :
    (kind : Kind) (g : Guardrails) (v : Json) (out : List Rule) (most d : ℕ)
    → validate_rules kind g v ≡ ok (out, [])
    → g.max_triggers_per_day ≡ some most
    → firing_on d out ≤ most
validate_rules-firing_on kind g v out most d h e =
    let c = validate_rules-Concluded kind g v out h in
    let clean = Concluded-IsClean kind g v out c in
    rw (c.out_sorted, firing_on-sort)
      (check_triggers-firing_on most c.progress.good d (rw e at clean.few_triggers))

check_child-days :
    (g : Guardrails) (good : List Rule) (most : ℕ)
    → g.max_open_minutes_per_day ≡ some most
    → check_child child_window g good ≡ []
    → check_open_days (some most) (gated_days good []) ≡ []
unfolding check_child
check_child-days g good most e h =
    ap (λ o. check_open_days o (gated_days good [])) (sym e)
    ∙ (append-eq-nil (gated_problems (limit_or 0 g.allowed_from) (limit_or 1440 g.allowed_to) good)
        _ (ground (arith, e, h))).1

IsChildRule-IsSpan : (r : Rule) → IsChildRule r → IsSpan 1440 (span_of r)
IsChildRule-IsSpan r c =
    let w = c.window in
    (omega (arith, w.forwards), (parse_hhmm_bounds true w.text (stop_of r) w.ends).0)

-- Where no problem is reported for a child, on no day are the gated services open for more
-- minutes than `max_open_minutes_per_day`, however its windows overlap.
pub validate_rules-is_open_at :
    (g : Guardrails) (v : Json) (out : List Rule) (most d : ℕ)
    → validate_rules child_window g v ≡ ok (out, [])
    → g.max_open_minutes_per_day ≡ some most
    → count_below 1440 (is_open_at d out) ≤ most
validate_rules-is_open_at g v out most d h e =
    let c = validate_rules-Concluded child_window g v out h in
    let clean = Concluded-IsClean child_window g v out c in
    let good = c.progress.good in
    let spans =
      All-mono _ (λ r. IsSpan 1440 (span_of r)) IsChildRule-IsSpan good
        (visit_rules-All child_window g IsChildRule (check_rule-IsChildRule g) 0 (items c.given)
          (fresh_progress (items c.given)) c.progress c.looped tt) in
    let bound =
      check_open_days-count most 1440 d good spans
        (check_child-days g good most e clean.child_fine) in
    rw c.out_sorted (
      omega (
        arith,
        bound,
        count_below-cong 1440 (is_open_at d (sort rule_leb good)) (is_open_at d good)
            (λ m. is_open_at-sort rule_leb d m good),
      ))
