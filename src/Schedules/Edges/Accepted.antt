-- ===== src/Schedules/Edges/Accepted.antt =====
-- Rules that `validate_rules` accepts meet what the replay of a day needs.
use minisserver_compose.Prelude.{
  ℕ, ◌≡◌, true, false, inl, inr, some, List, [], ◌∷◌, map, arith, Text, text_eq, All, All-mono,
  All-append_left, Pairwise, elem, ==_iff, Bool-cases, ◌==◌,
}
use minisserver_compose.Prelude.Json.{Json}
use minisserver_compose.Schedules.Types.{plug, Guardrails, Rule, ok}
use minisserver_compose.Schedules.Weekly.{Window, stop_of, or_zero, window_on, groups_of}
use minisserver_compose.Schedules.Weekly.Apart.{IsApart}
use minisserver_compose.Schedules.Weekly.Grouping.{for_each}
use minisserver_compose.Schedules.Validate.{validate_rules}
use minisserver_compose.Schedules.Validate.Sound.{IsPlugRule, HasWindow}
use minisserver_compose.Schedules.Validate.Rules.{validate_rules-IsPlugRule}
use minisserver_compose.Schedules.Validate.Spaced.{windows_of, RulesApart, validate_rules-IsSpaced}
use minisserver_compose.Schedules.Edges.{Day, end_of, day_edges, target_state}
use minisserver_compose.Schedules.Edges.Fired.{last_fired, is_on}
use minisserver_compose.Schedules.Edges.Replay.{DayApart, IsOpenWindow, day_edges-target_state}

end_of-stop_of : (r : Rule) → HasWindow false r → end_of r ≡ stop_of r
unfolding end_of
end_of-stop_of r w = ground (arith, w.has_end, w.ends)

IsPlugRule-IsOpenWindow : (g : Guardrails) (r : Rule) → IsPlugRule g r → IsOpenWindow r
IsPlugRule-IsOpenWindow g r p = let w = p.window in omega (arith, w.forwards, end_of-stop_of r w)

All-window_on :
    (P : Window → Type 0) (r : Rule) (ds : List ℕ) (d : ℕ)
    → All P (map (window_on r) ds)
    → elem d ds ≡ true
    → P (window_on r d)
All-window_on P r [] d h e = absurd (cc)
All-window_on P r (k ∷ ds) d h e = elim (Bool-cases (d == k)) [
  | inl t ↦ let same : d ≡ k = (==_iff d k).0 t in rw same h.0
  | inr f ↦ All-window_on P r ds d h.1 (ground (arith, f))
]

-- Of a plug, the one group is that of the empty name.
All-windows_of :
    (P : Window → Type 0) (r : Rule) (d : ℕ)
    → All P (windows_of plug [] r)
    → elem d r.days ≡ true
    → P (window_on r d)
unfolding for_each groups_of text_eq
All-windows_of P r d h e =
    All-window_on P r r.days d (All-append_left P (map (window_on r) r.days) [] h) e

RulesApart-DayApart :
    (gap d : ℕ) (a b : Rule)
    → HasWindow false a
    → HasWindow false b
    → RulesApart plug gap [] a b
    → DayApart d a b
RulesApart-DayApart gap d a b wa wb h ea eb =
    let apart : IsApart gap (window_on a d) (window_on b d) =
      All-windows_of (IsApart gap (window_on a d)) b d
        (All-windows_of (λ w. All (IsApart gap w) (windows_of plug [] b)) a d h ea) eb in
    elim apart.ordered [
      | inl k ↦ inl (unfold window_on in omega (arith, k, end_of-stop_of a wa))
      | inr k ↦ inr (unfold window_on in omega (arith, k, end_of-stop_of b wb))
    ]

Pairwise-DayApart :
    (g : Guardrails) (gap d : ℕ) (rs : List Rule)
    → All (IsPlugRule g) rs
    → Pairwise (RulesApart plug gap []) rs
    → Pairwise (DayApart d) rs
Pairwise-DayApart g gap d [] p h = tt
Pairwise-DayApart g gap d (r ∷ rs) p h = (row rs p.1 h.0, Pairwise-DayApart g gap d rs p.1 h.1)
  where
    row :
        (ss : List Rule)
        → All (IsPlugRule g) ss
        → All (RulesApart plug gap [] r) ss
        → All (DayApart d r) ss
    row [] q k = tt
    row (s ∷ ss) q k = (RulesApart-DayApart gap d r s p.0.window q.0.window k.0, row ss q.1 k.1)

-- When Home Assistant fires the edges of a day of an accepted plug schedule in their order, the
-- plug is at every minute in the state that the schedule asks for, as the reconcile script
-- computes it; on a skipped date it is off.
pub accepted-target_state :
    (g : Guardrails) (v : Json) (rules : List Rule) (day : Day) (t : ℕ) (skips : List Text)
    → validate_rules plug g v ≡ ok (rules, [])
    → target_state plug rules day t skips
      ≡ some (is_on (last_fired t (day_edges plug rules day skips)))
accepted-target_state g v rules day t skips h =
    let sound = validate_rules-IsPlugRule g v rules [] h in
    let spaced = validate_rules-IsSpaced plug g v rules h in
    day_edges-target_state rules day t skips
      (All-mono (IsPlugRule g) IsOpenWindow (IsPlugRule-IsOpenWindow g) rules sound)
      (Pairwise-DayApart g (or_zero g.min_gap_minutes) day.weekday rules sound (spaced.between []))
