-- ===== src/Schedules/Daily/Triggers.antt =====
-- How often rules fire on one day, and how long a child's windows are open on it.
use minisserver_compose.Prelude.{
  ℕ, ◌+◌, ◌≤◌, ◌≡◌, refl, Bool, some, List, [], ◌∷◌, ◌==◌, if◌then◌else◌, arith, sort,
  insert_sorted,
}
use minisserver_compose.Schedules.Types.{Rule}
use minisserver_compose.Schedules.Daily.{bump_day, bump_days, triggers, worst_day, check_triggers}

-- How often a day stands in a list.
unfoldable pub times : ℕ → List ℕ → ℕ
times d [] = 0
times d (k ∷ ks) = (if k == d then 1 else 0) + times d ks

-- How many rules fire on the day.
unfoldable pub firing_on : ℕ → List Rule → ℕ
unfolding times
firing_on d [] = 0
firing_on d (r ∷ rs) = times d r.days + firing_on d rs

unfoldable pub count_of : ℕ → List (ℕ × ℕ) → ℕ
count_of d [] = 0
count_of d ((k, n) ∷ m) = if k == d then n else count_of d m

count_of-bump_day :
    (d k : ℕ) (m : List (ℕ × ℕ))
    → count_of d (bump_day k m) ≡ count_of d m + (if k == d then 1 else 0)
unfolding count_of bump_day
count_of-bump_day d k [] = ground arith
count_of-bump_day d k ((j, n) ∷ m) = ground (arith, count_of-bump_day d k m)

count_of-bump_days :
    (d : ℕ) (ks : List ℕ) (m : List (ℕ × ℕ))
    → count_of d (bump_days ks m) ≡ count_of d m + times d ks
unfolding bump_days times
count_of-bump_days d [] m = omega arith
count_of-bump_days d (k ∷ ks) m =
    omega (arith, count_of-bump_days d ks (bump_day k m), count_of-bump_day d k m)

count_of-triggers :
    (d : ℕ) (rs : List Rule) (m : List (ℕ × ℕ))
    → count_of d (triggers rs m) ≡ count_of d m + firing_on d rs
unfolding triggers firing_on
count_of-triggers d [] m = omega arith
count_of-triggers d (r ∷ rs) m =
    omega (arith, count_of-triggers d rs (bump_days r.days m), count_of-bump_days d r.days m)

count_of-le-worst_day : (d : ℕ) (m : List (ℕ × ℕ)) → count_of d m ≤ worst_day m
unfolding count_of worst_day
count_of-le-worst_day d [] = omega arith
count_of-le-worst_day d ((k, n) ∷ m) = ground (arith, count_of-le-worst_day d m)

-- Where no problem is found, no day has more rules than the guardrail allows.
pub check_triggers-firing_on :
    (most : ℕ) (rs : List Rule) (d : ℕ) → check_triggers (some most) rs ≡ [] → firing_on d rs ≤ most
unfolding check_triggers
check_triggers-firing_on most rs d h =
    ground (arith, count_of-triggers d rs [], count_of-le-worst_day d (triggers rs []), start)
  where
    start : count_of d [] ≡ 0
    start = unfold count_of in refl

firing_on-insert_sorted :
    (le : Rule → Rule → Bool) (d : ℕ) (r : Rule) (rs : List Rule)
    → firing_on d (insert_sorted le r rs) ≡ times d r.days + firing_on d rs
unfolding insert_sorted firing_on
firing_on-insert_sorted le d r [] = refl
firing_on-insert_sorted le d r (s ∷ rs) = ground (arith, firing_on-insert_sorted le d r rs)

pub firing_on-sort :
    (le : Rule → Rule → Bool) (d : ℕ) (rs : List Rule) → firing_on d (sort le rs) ≡ firing_on d rs
unfolding sort firing_on
firing_on-sort le d [] = refl
firing_on-sort le d (r ∷ rs) =
    omega (arith, firing_on-insert_sorted le d r (sort le rs), firing_on-sort le d rs)
