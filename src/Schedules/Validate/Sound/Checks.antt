-- ===== src/Schedules/Validate/Sound/Checks.antt =====
-- What each check of a rule shows when it passes.
use minisserver_compose.Prelude.{
  ℕ, zero, suc, ◌-◌, ◌≤◌, ◌<◌, ◌≡◌, refl, Bool, true, false, Option, none, some, List, [], ◌∷◌,
  Text, codes, text_eq, text_eq→eq, arith, Bool-cases, Option-cases, inl, inr, All, subst,
}
use minisserver_compose.Prelude.Int.{pos, negsuc}
use minisserver_compose.Prelude.Json.{Json, null, int, str, array, nil, cons, items}
use minisserver_compose.Schedules.Time.{parse_hhmm}
use minisserver_compose.Schedules.Types.{
  plug, vacuum_plan, child_window, Guardrails, pass, >>=-eq-pass,
}
use minisserver_compose.Schedules.Rules.{
  parse_value, weekday, weekdays, check_days, check_start, check_window, check_end, check_opens,
  check_level, dst_forbidden, distinct,
}
use minisserver_compose.Schedules.RuleLoop.{check_guardrails, limit_of}

parse_value-parse_hhmm :
    (allow_24 : Bool) (v : Json) (t : Text) (m : ℕ)
    → parse_value allow_24 v ≡ some (t, m)
    → parse_hhmm allow_24 t ≡ some m
unfolding parse_value
parse_value-parse_hhmm allow_24 (str s) t m e = elim (Option-cases (parse_hhmm allow_24 s)) [
  | inl n ↦ ground (arith, n)
  | inr (k, n) ↦ ground (arith, n)
]
parse_value-parse_hhmm allow_24 null t m e = absurd (cc)
parse_value-parse_hhmm allow_24 _ t m e = absurd (cc)

-- "24:00" aside, allowing it changes nothing.
pub parse_hhmm_allowed :
    (t : Text) (m : ℕ) → parse_hhmm false t ≡ some m → parse_hhmm true t ≡ some m
parse_hhmm_allowed t m e = elim (Bool-cases (text_eq t (codes "24:00"))) [
  | inl same ↦
      let n : parse_hhmm false (codes "24:00") ≡ none = (unfold parse_hhmm in refl) in
      absurd (cc (text_eq→eq t (codes "24:00") same, n))
  | inr f ↦ unfold parse_hhmm in rw f (unfold parse_hhmm in e)
]

-- The start of a rule.
pub check_start-pass :
    (rid : Text) (v : Json) (t : Text) (s : ℕ)
    → check_start rid v ≡ pass (t, s)
    → (parse_hhmm false t ≡ some s) × (dst_forbidden s ≡ false)
unfolding check_start
check_start-pass rid v t s e = elim (Option-cases (parse_value false v)) [
  | inl n ↦ ground (arith, n)
  | inr ((t', s'), n) ↦ let p = parse_value-parse_hhmm false v t' s' n in ground (arith, n, p)
]

pub check_window-pass :
    (rid : Text) (allow_24 : Bool) (s : ℕ) (v : Json) (t : Text) (e : ℕ)
    → check_window rid allow_24 s v ≡ pass (t, e)
    → (parse_hhmm allow_24 t ≡ some e) × (dst_forbidden e ≡ false) × (s < e)
unfolding check_window
check_window-pass rid allow_24 s v t e h = elim (Option-cases (parse_value allow_24 v)) [
  | inl n ↦ ground (arith, n)
  | inr ((t', e'), n) ↦ let p = parse_value-parse_hhmm allow_24 v t' e' n in ground (arith, n, p)
]

-- The end of a plug's window.
pub check_end-plug :
    (rid : Text) (s : ℕ) (v vars : Json) (o : Option (Text × ℕ))
    → check_end plug rid s v vars ≡ pass o
    → (t : Text) × (e : ℕ) × (o ≡ some (t, e))
      × (parse_hhmm false t ≡ some e)
      × (dst_forbidden e ≡ false)
      × (s < e)
unfolding check_end
check_end-plug rid s v vars o h =
    let ((t, e), p, q) = >>=-eq-pass (check_window rid false s v) _ h in
    let c = check_window-pass rid false s v t e p in (t, e, ground (arith, q), c.0, c.1, c.2)

-- The end of a child's window, which may be 24:00.
pub check_end-child :
    (rid : Text) (s : ℕ) (v vars : Json) (o : Option (Text × ℕ))
    → check_end child_window rid s v vars ≡ pass o
    → (t : Text) × (e : ℕ) × (o ≡ some (t, e))
      × (parse_hhmm true t ≡ some e)
      × (dst_forbidden e ≡ false)
      × (s < e)
unfolding check_end
check_end-child rid s v vars o h =
    let ((t, e), p, q) = >>=-eq-pass (check_window rid true s v) _ h in
    let (u, _, q') = >>=-eq-pass (check_opens rid vars) _ q in
    let c = check_window-pass rid true s v t e p in (t, e, ground (arith, q'), c.0, c.1, c.2)

pub check_end-vacuum :
    (rid : Text) (s : ℕ) (v vars : Json) (o : Option (Text × ℕ))
    → check_end vacuum_plan rid s v vars ≡ pass o
    → o ≡ none
unfolding check_end
check_end-vacuum rid s null vars o h = ground (arith, h)
check_end-vacuum rid s _ vars o h = absurd (cc)

abbrev pub IsWeekday : ℕ → Type 0
IsWeekday d = (1 ≤ d) × (d ≤ 7)

weekday-IsWeekday : (v : Json) (d : ℕ) → weekday v ≡ some d → IsWeekday d
unfolding weekday
weekday-IsWeekday (int (pos n)) d e = ground arith
weekday-IsWeekday (int (negsuc n)) d e = absurd (cc)
weekday-IsWeekday _ d e = absurd (cc)

weekdays-IsWeekday : (vs : List Json) (ds : List ℕ) → weekdays vs ≡ some ds → All IsWeekday ds
unfolding weekdays
weekdays-IsWeekday [] [] e = tt
weekdays-IsWeekday [] (d ∷ ds) e = absurd (cc)
weekdays-IsWeekday (v ∷ vs) ds e = elim (Option-cases (weekday v)) [
  | inl n ↦ ground (arith, n)
  | inr (d, p) ↦ elim (Option-cases (weekdays vs)) [
    | inl n ↦ ground (arith, n, p)
    | inr (rest, q) ↦
        let same : (d ∷ rest) ≡ ds = ground (arith, p, q) in
        subst (λ l. All IsWeekday l) same (weekday-IsWeekday v d p, weekdays-IsWeekday vs rest q)
  ]
]

-- The days of a rule.
pub check_days-pass :
    (rid : Text) (v : Json) (ds : List ℕ)
    → check_days rid v ≡ pass ds
    → All IsWeekday ds × (distinct ds ≡ true)
unfolding check_days
check_days-pass rid (array (cons x xs)) ds h = elim (Option-cases (weekdays (x ∷ items xs))) [
  | inl n ↦ ground (arith, n)
  | inr (ds', n) ↦
      let all_days = weekdays-IsWeekday (x ∷ items xs) ds' n in
      let same : ds' ≡ ds = ground (arith, n) in
      (subst (λ l. All IsWeekday l) same all_days, ground (arith, n))
]
check_days-pass rid (array nil) ds h = absurd (cc)
check_days-pass rid _ ds h = absurd (cc)

-- The guardrails hold of a window from `s` to `e`.
pub record IsWithin (g : Guardrails) (s e : ℕ) : Type 0 where
  pub from_allowed : (lo : ℕ) → limit_of g.allowed_from ≡ some lo → lo ≤ s
  pub to_allowed : (hi : ℕ) → limit_of g.allowed_to ≡ some hi → e ≤ hi
  pub on_at_most : (most : ℕ) → g.max_on_minutes ≡ some most → e - s ≤ most

pub check_guardrails-IsWithin :
    (rid : Text) (g : Guardrails) (s e : ℕ)
    → check_guardrails rid g s (some e) ≡ pass tt
    → IsWithin g s e
unfolding check_guardrails
check_guardrails-IsWithin rid g s e h = record {
  from_allowed = λ lo p. ground (arith, p);
  to_allowed = λ hi p. ground (arith, p);
  on_at_most = λ most p. ground (arith, p);
}

-- A trigger, which has no end.
pub check_guardrails_trigger :
    (rid : Text) (g : Guardrails) (s : ℕ)
    → check_guardrails rid g s none ≡ pass tt
    → ((lo : ℕ) → limit_of g.allowed_from ≡ some lo → lo ≤ s)
      × ((hi : ℕ) → limit_of g.allowed_to ≡ some hi → s ≤ hi)
unfolding check_guardrails
check_guardrails_trigger rid g s h = (λ lo p. ground (arith, p), λ hi p. ground (arith, p))

pub check_level-pass :
    (rid : Text) (g : Guardrails) (v : Json) (l : ℕ)
    → check_level rid g v ≡ pass (some l)
    → (top : ℕ) × (g.max_level ≡ some top) × (1 ≤ l) × (l ≤ top)
unfolding check_level
check_level-pass rid g (int (pos (suc n))) l h = elim (Option-cases g.max_level) [
  | inl e ↦ ground (arith, e)
  | inr (top, e) ↦ (top, e, ground (arith, e), ground (arith, e))
]
check_level-pass rid g (int (pos zero)) l h = absurd (cc)
check_level-pass rid g (int (negsuc n)) l h = absurd (cc)
check_level-pass rid g null l h = absurd (cc)
check_level-pass rid g _ l h = absurd (cc)
