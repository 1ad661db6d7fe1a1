-- ===== src/Schedules/Daily/Covered.antt =====
-- Merging sorted intervals counts the minutes that at least one interval covers.
use minisserver_compose.Prelude.{
  ℕ, zero, suc, ◌+◌, ◌-◌, ◌≤◌, ◌<◌, max, min, ◌≡◌, refl, sym, ap, ◌∙◌, Bool, true, false, ◌&&◌,
  ◌||◌, List, [], ◌∷◌, leb, ltb, if◌then◌else◌, arith, any, All, Bool-cases, sort, IsSorted,
  sort-IsSorted, All-sort, insert_sorted, ltb→lt, ltb→le, inl, inr,
}
use minisserver_compose.Schedules.Daily.{Span, span_leb, merge_from, open_minutes}

-- How many of the numbers below `n` pass the test.
unfoldable pub count_below : ℕ → (ℕ → Bool) → ℕ
count_below zero p = 0
count_below (suc n) p = (if p n then 1 else 0) + count_below n p

abbrev pub contains : Span → ℕ → Bool
contains v m = leb v.from m && ltb m v.to

-- Whether an interval of the list contains the minute.
abbrev pub is_open : List Span → ℕ → Bool
is_open vs m = any (λ v. contains v m) vs

pub count_below-cong :
    (n : ℕ) (p q : ℕ → Bool) → ((m : ℕ) → p m ≡ q m) → count_below n p ≡ count_below n q
unfolding count_below
count_below-cong zero p q h = refl
count_below-cong (suc n) p q h = rw (h n, count_below-cong n p q h)

count_below-or :
    (n : ℕ) (p q : ℕ → Bool)
    → ((m : ℕ) → (p m && q m) ≡ false)
    → count_below n (λ m. p m || q m) ≡ count_below n p + count_below n q
unfolding count_below
count_below-or zero p q h = omega arith
count_below-or (suc n) p q h = ground (arith, h n, count_below-or n p q h)

count_below-false : (n : ℕ) → count_below n (λ m. false) ≡ 0
unfolding count_below
count_below-false zero = refl
count_below-false (suc n) = omega (arith, count_below-false n)

count_below-range_min :
    (n a b : ℕ) → a ≤ b → count_below n (λ m. leb a m && ltb m b) + min n a ≡ min n b
unfolding count_below
count_below-range_min zero a b h = omega arith
count_below-range_min (suc n) a b h = ground (arith, count_below-range_min n a b h)

count_below-range : (n a b : ℕ) → a ≤ b → b ≤ n → count_below n (λ m. leb a m && ltb m b) ≡ b - a
count_below-range n a b h l = omega (arith, count_below-range_min n a b h)

-- The interval goes forwards and ends in the first `n` minutes.
abbrev pub IsSpan : ℕ → Span → Type 0
IsSpan n v = (v.from ≤ v.to) × (v.to ≤ n)

abbrev StartsFrom : ℕ → Span → Type 0
StartsFrom s v = s ≤ v.from

-- No interval that starts later contains an earlier minute.
is_open_later : (s m : ℕ) (vs : List Span) → All (StartsFrom s) vs → m < s → is_open vs m ≡ false
is_open_later s m [] h l = refl
is_open_later s m (v ∷ vs) h l = ground (arith, is_open_later s m vs h.1 l)

StartsFrom-of_leb :
    (v : Span) (vs : List Span) → All (λ w. span_leb v w ≡ true) vs → All (StartsFrom v.from) vs
StartsFrom-of_leb v [] h = tt
StartsFrom-of_leb v (w ∷ vs) h = (ground (arith, h.0), StartsFrom-of_leb v vs h.1)

-- Whether the interval from `s` to `e`, or one of the list, contains the minute.
abbrev open_with : ℕ → ℕ → List Span → ℕ → Bool
open_with s e vs m = (leb s m && ltb m e) || is_open vs m

open_with-apart :
    (n s e : ℕ) (w : Span) (vs : List Span)
    → s ≤ e
    → e ≤ n
    → e < w.from
    → All (StartsFrom w.from) vs
    → count_below n (open_with s e (w ∷ vs)) ≡ (e - s) + count_below n (open_with w.from w.to vs)
open_with-apart n s e w vs h l a st =
    count_below-or n (λ m. leb s m && ltb m e) (is_open (w ∷ vs))
      (λ m. ground (arith, is_open_later w.from m (w ∷ vs) (omega arith, st)))
    ∙ ap (λ (c : ℕ). c + count_below n (is_open (w ∷ vs))) (count_below-range n s e h l)

open_with-joined :
    (n s e : ℕ) (w : Span) (vs : List Span)
    → s ≤ w.from
    → w.from ≤ e
    → w.from ≤ w.to
    → count_below n (open_with s e (w ∷ vs)) ≡ count_below n (open_with s (max e w.to) vs)
open_with-joined n s e w vs h l f = count_below-cong n _ _ (λ m. ground arith)

module _ (total s e : ℕ) (w : Span) (vs : List Span) where
  merge_from-apart :
      ltb e w.from ≡ true
      → merge_from total s e (w ∷ vs) ≡ merge_from (total + (e - s)) w.from w.to vs
  merge_from-apart h = unfold merge_from in rw (h, merge_from)

  merge_from-joined :
      ltb e w.from ≡ false → merge_from total s e (w ∷ vs) ≡ merge_from total s (max e w.to) vs
  merge_from-joined h = unfold merge_from in rw (h, merge_from)

merge_from-count :
    (n total s e : ℕ) (vs : List Span)
    → s ≤ e
    → e ≤ n
    → All (StartsFrom s) vs
    → IsSorted span_leb vs
    → All (IsSpan n) vs
    → merge_from total s e vs ≡ total + count_below n (open_with s e vs)
merge_from-count n total s e [] h l st so v =
    unfold merge_from in
    omega (
      arith,
      count_below-range n s e h l,
      count_below-cong n (open_with s e []) (λ m. leb s m && ltb m e) (λ m. ground arith),
    )
merge_from-count n total s e (w ∷ vs) h l st so v =
    let later = StartsFrom-of_leb w vs so.0 in
    elim (Bool-cases (ltb e w.from)) [
      | inl apart ↦ omega (
        arith,
        merge_from-apart total s e w vs apart,
        merge_from-count n (total + (e - s)) w.from w.to vs v.0.0 v.0.1 later so.1 v.1,
        open_with-apart n s e w vs h l (ltb→lt e w.from apart) later,
      )
      | inr joined ↦ omega (
        arith,
        merge_from-joined total s e w vs joined,
        merge_from-count n total s (max e w.to) vs (omega arith) (omega arith) st.1 so.1 v.1,
        open_with-joined n s e w vs st.0 (ltb→le e w.from joined) v.0.0,
      )
    ]

span_leb-total : (a b : Span) → span_leb a b ≡ false → span_leb b a ≡ true
span_leb-total a b h = ground arith

span_leb_trans : (a b c : Span) → span_leb a b ≡ true → span_leb b c ≡ true → span_leb a c ≡ true
span_leb_trans a b c h k = ground arith

open_minutes-count :
    (n : ℕ) (vs : List Span)
    → IsSorted span_leb vs
    → All (IsSpan n) vs
    → open_minutes vs ≡ count_below n (is_open vs)
unfolding open_minutes
open_minutes-count n [] so v = sym (count_below-false n)
open_minutes-count n (w ∷ vs) so v =
    merge_from-count n 0 w.from w.to vs v.0.0 v.0.1 (StartsFrom-of_leb w vs so.0) so.1 v.1
    ∙ omega arith

-- The order of the intervals does not change which minutes are open.
is_open-insert :
    (m : ℕ) (v : Span) (vs : List Span)
    → is_open (insert_sorted span_leb v vs) m ≡ is_open (v ∷ vs) m
unfolding insert_sorted
is_open-insert m v [] = refl
is_open-insert m v (w ∷ vs) = ground (arith, is_open-insert m v vs)

is_open-sort : (m : ℕ) (vs : List Span) → is_open (sort span_leb vs) m ≡ is_open vs m
unfolding sort
is_open-sort m [] = refl
is_open-sort m (v ∷ vs) =
    is_open-insert m v (sort span_leb vs) ∙ ap (λ b. contains v m || b) (is_open-sort m vs)

-- What the code computes for a day, by sorting and merging its intervals, is the number of the
-- minutes that at least one of them contains.
pub open_minutes-sort :
    (n : ℕ) (vs : List Span)
    → All (IsSpan n) vs
    → open_minutes (sort span_leb vs) ≡ count_below n (is_open vs)
open_minutes-sort n vs v =
    open_minutes-count n (sort span_leb vs)
      (sort-IsSorted span_leb span_leb-total span_leb_trans vs) (All-sort span_leb (IsSpan n) vs v)
    ∙ count_below-cong n _ _ (λ m. is_open-sort m vs)
