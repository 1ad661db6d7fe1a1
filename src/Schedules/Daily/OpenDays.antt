-- ===== src/Schedules/Daily/OpenDays.antt =====
-- How long a child's windows are open on one day, from the loop that collects them per day.
use mathlib.Core.List.{append-nil, append_assoc}
use minisserver_compose.Prelude.{
  ℕ, ◌≤◌, ◌≡◌, refl, sym, Bool, true, ◌&&◌, ◌||◌, some, inl, inr, List, [], ◌∷◌, ◌++◌, ltb, ◌==◌,
  if◌then◌else◌, arith, All, All-of_sort, All-append, Bool-cases, ltb→le, sort, any, any-sort, elem,
  subst,
}
use minisserver_compose.Schedules.Types.{Rule}
use minisserver_compose.Schedules.Daily.{
  Span, span_leb, open_minutes, is_gated, add_span, add_spans, span_of, gated_days, check_open,
  check_open_days, day_leb, gated_problems, range_problems,
}
use minisserver_compose.Schedules.Daily.Covered.{
  IsSpan, is_open, contains, count_below, count_below-cong, open_minutes-sort,
}
use minisserver_compose.Schedules.Weekly.{start_of, stop_of}

unfoldable pub spans_on : ℕ → List (ℕ × List Span) → List Span
spans_on d [] = []
spans_on d ((k, vs) ∷ m) = if k == d then vs else spans_on d m

unfoldable pub repeat_on : ℕ → Span → List ℕ → List Span
repeat_on d v [] = []
repeat_on d v (k ∷ ks) = let rest = repeat_on d v ks in if k == d then v ∷ rest else rest

-- The intervals of the gated rules of a day.
unfoldable pub gated_on : ℕ → List Rule → List Span
unfolding repeat_on
gated_on d [] = []
gated_on d (r ∷ rs) = (if is_gated r then repeat_on d (span_of r) r.days else []) ++ gated_on d rs

spans_on-add_span :
    (d k : ℕ) (v : Span) (m : List (ℕ × List Span))
    → spans_on d (add_span v k m) ≡ (if k == d then spans_on d m ++ v ∷ [] else spans_on d m)
unfolding spans_on add_span
spans_on-add_span d k v [] = ground arith
spans_on-add_span d k v ((j, vs) ∷ m) = ground (arith, spans_on-add_span d k v m)

spans_on-add_spans :
    (d : ℕ) (v : Span) (ks : List ℕ) (m : List (ℕ × List Span))
    → spans_on d (add_spans v ks m) ≡ spans_on d m ++ repeat_on d v ks
unfolding add_spans repeat_on
spans_on-add_spans d v [] m = sym (append-nil (spans_on d m))
spans_on-add_spans d v (k ∷ ks) m = elim (Bool-cases (k == d)) [
  | inl t ↦ simp (spans_on-add_spans d v ks (add_span v k m), spans_on-add_span, t, append_assoc)
  | inr f ↦ simp (spans_on-add_spans d v ks (add_span v k m), spans_on-add_span, f)
]

spans_on-gated_days :
    (d : ℕ) (rs : List Rule) (m : List (ℕ × List Span))
    → spans_on d (gated_days rs m) ≡ spans_on d m ++ gated_on d rs
unfolding gated_days gated_on
spans_on-gated_days d [] m = sym (append-nil (spans_on d m))
spans_on-gated_days d (r ∷ rs) m = elim (Bool-cases (is_gated r)) [
  | inl t ↦ simp (
    t,
    spans_on-gated_days d rs (add_spans (span_of r) r.days m),
    spans_on-add_spans,
    append_assoc,
  )
  | inr f ↦ simp (f, spans_on-gated_days d rs m)
]

abbrev Fits : ℕ → ℕ × List Span → Type 0
Fits most e = open_minutes (sort span_leb e.1) ≤ most

check_open-Fits : (most : ℕ) (m : List (ℕ × List Span)) → check_open most m ≡ [] → All (Fits most) m
unfolding check_open
check_open-Fits most [] h = tt
check_open-Fits most ((d, vs) ∷ m) h =
    elim (Bool-cases (ltb most (open_minutes (sort span_leb vs)))) [
      | inl t ↦ absurd (ground (arith, t))
      | inr f ↦ (ltb→le _ _ f, check_open-Fits most m (ground (arith, f)))
    ]

spans_on-Fits :
    (most d : ℕ) (m : List (ℕ × List Span))
    → All (Fits most) m
    → open_minutes (sort span_leb (spans_on d m)) ≤ most
unfolding spans_on
spans_on-Fits most d [] h = unfold sort open_minutes in omega arith
spans_on-Fits most d ((k, vs) ∷ m) h = elim (Bool-cases (k == d)) [
  | inl t ↦ rw t h.0
  | inr f ↦ rw f (spans_on-Fits most d m h.1)
]

-- Whether a gated rule is open at a minute of a day.
abbrev pub is_open_at : ℕ → List Rule → ℕ → Bool
is_open_at d rs m = any (λ r. is_gated r && (elem d r.days && contains (span_of r) m)) rs

is_open-append : (m : ℕ) (xs ys : List Span) → is_open (xs ++ ys) m ≡ (is_open xs m || is_open ys m)
is_open-append m [] ys = refl
is_open-append m (x ∷ xs) ys = ground (arith, is_open-append m xs ys)

is_open-repeat_on :
    (d m : ℕ) (v : Span) (ks : List ℕ) → is_open (repeat_on d v ks) m ≡ (elem d ks && contains v m)
unfolding repeat_on
is_open-repeat_on d m v [] = refl
is_open-repeat_on d m v (k ∷ ks) = ground (arith, is_open-repeat_on d m v ks)

is_open-gated_on : (d m : ℕ) (rs : List Rule) → is_open (gated_on d rs) m ≡ is_open_at d rs m
unfolding gated_on
is_open-gated_on d m [] = refl
is_open-gated_on d m (r ∷ rs) = elim (Bool-cases (is_gated r)) [
  | inl t ↦ simp (t, is_open-append, is_open-repeat_on, is_open-gated_on d m rs)
  | inr f ↦ simp (f, is_open-gated_on d m rs)
]

All-repeat_on : (n d : ℕ) (v : Span) (ks : List ℕ) → IsSpan n v → All (IsSpan n) (repeat_on d v ks)
unfolding repeat_on
All-repeat_on n d v [] h = tt
All-repeat_on n d v (k ∷ ks) h = elim (Bool-cases (k == d)) [
  | inl t ↦ rw t (h, All-repeat_on n d v ks h)
  | inr f ↦ rw f (All-repeat_on n d v ks h)
]

gated_on-IsSpan :
    (n d : ℕ) (rs : List Rule) → All (λ r. IsSpan n (span_of r)) rs → All (IsSpan n) (gated_on d rs)
unfolding gated_on
gated_on-IsSpan n d [] h = tt
gated_on-IsSpan n d (r ∷ rs) h = elim (Bool-cases (is_gated r)) [
  | inl t ↦ rw t (
      All-append (IsSpan n) (repeat_on d (span_of r) r.days) (gated_on d rs)
        (All-repeat_on n d (span_of r) r.days h.0) (gated_on-IsSpan n d rs h.1))
  | inr f ↦ rw f (gated_on-IsSpan n d rs h.1)
]

-- Where no problem is found, the minutes of a day at which a gated rule is open are at most as
-- many as the guardrail allows.
pub check_open_days-count :
    (most n d : ℕ) (rs : List Rule)
    → All (λ r. IsSpan n (span_of r)) rs
    → check_open_days (some most) (gated_days rs []) ≡ []
    → count_below n (is_open_at d rs) ≤ most
unfolding check_open_days
check_open_days-count most n d rs v h =
    let fits = spans_on-Fits most d (gated_days rs []) (
      All-of_sort day_leb (Fits most) (gated_days rs [])
        (check_open-Fits most (sort day_leb (gated_days rs [])) h)) in
    let same : spans_on d (gated_days rs []) ≡ gated_on d rs =
      (unfold spans_on in spans_on-gated_days d rs []) in
    let bound : open_minutes (sort span_leb (gated_on d rs)) ≤ most =
      subst (λ vs. open_minutes (sort span_leb vs) ≤ most) same fits in
    omega (
      arith,
      bound,
      open_minutes-sort n (gated_on d rs) (gated_on-IsSpan n d rs v),
      count_below-cong n (is_open (gated_on d rs)) (is_open_at d rs) (λ m. is_open-gated_on d m rs),
    )

-- A gated rule lies in the range from `lo` to `hi`.
abbrev pub IsInRange : ℕ → ℕ → Rule → Type 0
IsInRange lo hi r = is_gated r ≡ true → (lo ≤ start_of r) × (stop_of r ≤ hi)

pub gated_problems-IsInRange :
    (lo hi : ℕ) (rs : List Rule) → gated_problems lo hi rs ≡ [] → All (IsInRange lo hi) rs
unfolding gated_problems range_problems
gated_problems-IsInRange lo hi [] h = tt
gated_problems-IsInRange lo hi (r ∷ rs) h =
    (λ e. ground (arith, e), gated_problems-IsInRange lo hi rs (ground arith))

pub is_open_at-sort :
    (le : Rule → Rule → Bool) (d m : ℕ) (rs : List Rule)
    → is_open_at d (sort le rs) m ≡ is_open_at d rs m
is_open_at-sort le d m rs =
    any-sort le (λ r. is_gated r && (elem d r.days && contains (span_of r) m)) rs
