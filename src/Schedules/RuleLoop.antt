-- ===== src/Schedules/RuleLoop.antt =====
-- The first loop of `validate_rules` in portal/schedules/sched/model.py: each rule by itself.
use minisserver_compose.Prelude.{
  ℕ, suc, ◌-◌, Bool, false, not, Option, none, some, List, [], ◌∷◌, ◌++◌, map, leb, ltb,
  if◌then◌else◌, Text, codes, member, keep_if, sort,
}
use minisserver_compose.Prelude.Json.{Json, str, object, Fields, keys, get_value}
use minisserver_compose.Schedules.Time.{parse_hhmm}
use minisserver_compose.Schedules.Types.{
  Kind, child_window, Guardrails, Code, Problem, problem, rule_at, rule_named, Rule, Result, ok,
  err, Check, pass, stop, raise, ◌>>=◌, ◌>>◌, reject_if,
}
use minisserver_compose.Schedules.Rules.{
  rule_keys, is_rule_id, check_days, check_start, check_end, check_variables, check_level,
}

-- `parse_hhmm(g[k]) if k in g else None`
abbrev pub limit_of : Option Text → Option ℕ
limit_of none = none
limit_of (some t) = parse_hhmm false t

abbrev is_below : ℕ → Option ℕ → Bool
is_below m none = false
is_below m (some limit) = ltb m limit

abbrev is_above : ℕ → Option ℕ → Bool
is_above m none = false
is_above m (some limit) = ltb limit m

-- The guardrails of one rule that starts at `s` and ends at `e`, if it has an end.
unfoldable pub check_guardrails : Text → Guardrails → ℕ → Option ℕ → Check (Unit {0})
check_guardrails rid g s none = do
  reject_if (is_below s (limit_of g.allowed_from))
      (problem Code.allowed_range (rule_named rid (codes ".start")))
  reject_if (is_above s (limit_of g.allowed_to))
      (problem Code.allowed_range (rule_named rid (codes ".start")))
check_guardrails rid g s (some e) = do
  reject_if (is_below s (limit_of g.allowed_from))
      (problem Code.allowed_range (rule_named rid (codes ".start")))
  reject_if (is_above e (limit_of g.allowed_to))
      (problem Code.allowed_range (rule_named rid (codes ".end")))
  reject_if (is_above (e - s) g.max_on_minutes) (problem Code.max_on (rule_named rid []))

abbrev pub minutes_of : Option (Text × ℕ) → Option ℕ
minutes_of none = none
minutes_of (some (t, m)) = some m

abbrev pub text_of : Option (Text × ℕ) → Option Text
text_of none = none
text_of (some (t, m)) = some t

-- `normalise_rule`
unfoldable pub normalise_rule : Text → List ℕ → Text → Option Text → Option ℕ → Option Fields → Rule
normalise_rule rid days start ends level variables = record {
  id = rid;
  days = sort leb days;
  start = start;
  stop = ends;
  level = level;
  variables = variables;
}

-- A child's windows are bounded per day, later.
unfoldable pub check_limits : Kind → Text → Guardrails → ℕ → Option ℕ → Check (Unit {0})
unfolding check_guardrails
check_limits child_window rid g s e = pass tt
check_limits kind rid g s e = check_guardrails rid g s e

-- The body of the loop behind `seen_ids.add(rid)`.
unfoldable pub check_rule : Kind → Guardrails → Text → Fields → Check Rule
unfolding check_limits normalise_rule
check_rule kind g rid r = do
  days ← check_days rid (get_value (codes "days") r)
  (start, s) ← check_start rid (get_value (codes "start") r)
  end ← check_end kind rid s (get_value (codes "end") r) (get_value (codes "variables") r)
  variables ← check_variables rid (get_value (codes "variables") r)
  level ← check_level rid g (get_value (codes "level") r)
  check_limits kind rid g s (minutes_of end)
  pass (normalise_rule rid days start (text_of end) level variables)

-- `probs`, `seen_ids` and `good`.
pub record Progress : Type 0 where
  pub probs : List Problem
  pub seen_ids : List Text
  pub good : List Rule

abbrev pub report : List Problem → Progress → Progress
report ps p = record p { probs = p.probs ++ ps }

abbrev pub unknown_keys : ℕ → Fields → List Problem
unknown_keys i r =
    map (λ k. problem Code.unknown_key (rule_at i (codes "." ++ k)))
      (keep_if (λ k. not (member k rule_keys)) (keys r))

-- What an outcome of the checks does to the lists.
unfoldable pub settle : Check Rule → Progress → Result Progress
settle (pass r) p = ok (record p { good = p.good ++ r ∷ [] })
settle (stop q) p = ok (report (q ∷ []) p)
settle (raise e) p = err e

unfoldable pub visit_named : Kind → Guardrails → ℕ → Text → Fields → Progress → Result Progress
unfolding settle
visit_named kind g i rid r p =
    if not (is_rule_id rid)
    then ok (report (problem Code.format (rule_at i (codes ".id")) ∷ []) p)
    else if member rid p.seen_ids
    then ok (report (problem Code.duplicate (rule_at i (codes ".id")) ∷ []) p)
    else settle (check_rule kind g rid r) (record p { seen_ids = rid ∷ p.seen_ids })

unfoldable pub visit_id : Kind → Guardrails → ℕ → Json → Fields → Progress → Result Progress
unfolding visit_named
visit_id kind g i (str rid) r p = visit_named kind g i rid r p
visit_id kind g i _ r p = ok (report (problem Code.format (rule_at i (codes ".id")) ∷ []) p)

unfoldable pub visit_rule : Kind → Guardrails → ℕ → Json → Progress → Result Progress
unfolding visit_id
visit_rule kind g i (object r) p =
    visit_id kind g i (get_value (codes "id") r) r (report (unknown_keys i r) p)
visit_rule kind g i _ p = ok (report (problem Code.type (rule_at i []) ∷ []) p)

unfoldable pub visit_rules : Kind → Guardrails → ℕ → List Json → Progress → Result Progress
unfolding visit_rule
visit_rules kind g i [] p = ok p
visit_rules kind g i (r ∷ rules) p = elim (visit_rule kind g i r p) [
  | err e ↦ err e
  | ok p' ↦ visit_rules kind g (suc i) rules p'
]
