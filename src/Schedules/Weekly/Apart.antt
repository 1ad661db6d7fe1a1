-- ===== src/Schedules/Weekly/Apart.antt =====
-- What the loop over neighbours in a sorted group shows of all pairs of windows of the group.
use minisserver_compose.Prelude.{
  ℕ, ◌+◌, ◌≤◌, ◌≡◌, refl, ◌∙◌, Bool, true, false, ◌⊎◌, inl, inr, List, [], ◌∷◌, ◌++◌, arith,
  Bool-cases, sort, All, All-sort, All-mono, Pairwise, Pairwise-of_sort,
}
use minisserver_compose.Schedules.Weekly.{
  week, Window, window_leb, Findings, report_once, is_reported, key_of, check_next, check_from,
  check_sorted, Groups, check_groups,
}

-- The first window ends at least `gap` minutes before the second starts.
abbrev pub Before : ℕ → Window → Window → Type 0
Before gap a b = a.stop + gap ≤ b.start

-- On the circle of a week: one of the two comes first, and from the end of either it is at least
-- `gap` minutes to the next start of the other, a week later at the latest.
pub record IsApart (gap : ℕ) (a b : Window) : Type 0 where
  pub ordered : (a.stop + gap ≤ b.start) ⊎ (b.stop + gap ≤ a.start)
  pub wraps : a.stop + gap ≤ b.start + week
  pub wraps_back : b.stop + gap ≤ a.start + week

abbrev pub IsWindow : Window → Type 0
IsWindow w = w.start ≤ w.stop

-- Nothing was reported while there is no problem.
abbrev pub IsFresh : Findings → Type 0
IsFresh f = f.probs ≡ [] → f.reported ≡ []

snoc-ne-nil {ℓ} : {A : Type ℓ} (xs : List A) (x : A) → (xs ++ x ∷ []) ≡ [] → ⊥
snoc-ne-nil [] x e = cc
snoc-ne-nil (y ∷ xs) x e = cc

report_once-ne-nil :
    (o : Bool) (a b : Window) (f : Findings) → IsFresh f → (report_once o a b f).probs ≡ [] → ⊥
unfolding report_once
report_once-ne-nil o a b f fresh e =
    elim (Bool-cases (is_reported (key_of o a.id b.id) f.reported)) [
      | inl t ↦
          let e' : f.probs ≡ [] = (rw t at e) in
          let t' : is_reported (key_of o a.id b.id) [] ≡ true = (rw (fresh e') at t) in
          unfold is_reported in cc
      | inr q ↦ snoc-ne-nil f.probs _ (rw q at e)
    ]

check_next-Before :
    (gap : ℕ) (a : Window) (n : ℕ) (b : Window) (f : Findings)
    → IsFresh f
    → (check_next gap a n b f).probs ≡ []
    → (check_next gap a n b f ≡ f) × (a.stop + gap ≤ n)
unfolding check_next
check_next-Before gap a n b f fresh e =
    ground (arith, report_once-ne-nil true a b f fresh, report_once-ne-nil false a b f fresh)

-- What a clean pass over the rest of a group shows of `cur` and the windows behind it.
record IsChain (gap : ℕ) (first cur : Window) (ws : List Window) : Type 0 where
  behind : All (λ w. cur.stop + gap ≤ w.start) ws
  pairs : Pairwise (Before gap) ws
  last : All (λ w. w.stop + gap ≤ first.start + week) (cur ∷ ws)

check_next-IsFresh :
    (gap : ℕ) (a : Window) (n : ℕ) (b : Window) (f : Findings)
    → IsFresh f
    → IsFresh (check_next gap a n b f)
check_next-IsFresh gap a n b f fresh e =
    rw ((check_next-Before gap a n b f fresh e).0)
      (fresh (rw ((check_next-Before gap a n b f fresh e).0) at e))

check_from-IsChain :
    (gap : ℕ) (first cur : Window) (ws : List Window) (f : Findings)
    → All IsWindow (cur ∷ ws)
    → IsFresh f
    → (check_from gap first cur ws f).probs ≡ []
    → (check_from gap first cur ws f ≡ f) × IsChain gap first cur ws
unfolding check_from
check_from-IsChain gap first cur [] f v fresh e =
    let c = check_next-Before gap cur (first.start + week) first f fresh e in
    (c.0, record { behind = tt; pairs = tt; last = (c.1, tt) })
check_from-IsChain gap first cur (nxt ∷ ws) f (vc, vs) fresh e =
    let f' = check_next gap cur nxt.start nxt f in
    let (same, rest) =
      check_from-IsChain gap first nxt ws f' vs (check_next-IsFresh gap cur nxt.start nxt f fresh)
        e in
    let (same', now) = check_next-Before gap cur nxt.start nxt f fresh (rw same at e) in
    (
      same ∙ same',
      record {
        behind = (now, All-mono _ _ (λ w h. omega arith) ws rest.behind);
        pairs = (rest.behind, rest.pairs);
        last = (omega (arith, rest.last.0), rest.last);
      },
    )

module _ (gap first : ℕ) where
  abbrev EndsBy : Window → Type 0
  EndsBy w = w.stop + gap ≤ first + week

  abbrev StartsFrom : Window → Type 0
  StartsFrom w = first ≤ w.start

  All-IsApart :
      (a : Window) (ws : List Window)
      → StartsFrom a
      → All (Before gap a) ws
      → All EndsBy ws
      → All (IsApart gap a) ws
  All-IsApart a [] s b l = tt
  All-IsApart a (w ∷ ws) s b l = (
    record { ordered = inl b.0; wraps = omega arith; wraps_back = omega arith },
    All-IsApart a ws s b.1 l.1,
  )

  Pairwise-IsApart :
      (ws : List Window)
      → All StartsFrom ws
      → Pairwise (Before gap) ws
      → All EndsBy ws
      → Pairwise (IsApart gap) ws
  Pairwise-IsApart [] s b l = tt
  Pairwise-IsApart (w ∷ ws) s b l = (All-IsApart w ws s.0 b.0 l.1, Pairwise-IsApart ws s.1 b.1 l.1)

check_sorted-Pairwise :
    (gap : ℕ) (ws : List Window) (f : Findings)
    → All IsWindow ws
    → IsFresh f
    → (check_sorted gap ws f).probs ≡ []
    → (check_sorted gap ws f ≡ f) × Pairwise (IsApart gap) ws
unfolding check_sorted
check_sorted-Pairwise gap [] f v fresh e = (refl, tt)
check_sorted-Pairwise gap (w ∷ ws) f v fresh e =
    let (same, chain) = check_from-IsChain gap w w ws f v fresh e in
    (
      same,
      Pairwise-IsApart gap w.start (w ∷ ws)
          (omega arith, All-mono _ _ (λ u h. omega arith) ws chain.behind)
          (chain.behind, chain.pairs) chain.last,
    )

pub IsApart-symm : (gap : ℕ) (a b : Window) → IsApart gap a b → IsApart gap b a
IsApart-symm gap a b h = ground arith

-- A group in which the loop finds nothing has its windows apart, in whatever order they came.
pub check_group-Pairwise :
    (gap : ℕ) (ws : List Window) (f : Findings)
    → All IsWindow ws
    → IsFresh f
    → (check_sorted gap (sort window_leb ws) f).probs ≡ []
    → (check_sorted gap (sort window_leb ws) f ≡ f) × Pairwise (IsApart gap) ws
check_group-Pairwise gap ws f v fresh e =
    let (same, apart) =
      check_sorted-Pairwise gap (sort window_leb ws) f (All-sort window_leb IsWindow ws v) fresh
        e in
    (same, Pairwise-of_sort window_leb (IsApart gap) (IsApart-symm gap) ws apart)

check_sorted-IsFresh :
    (gap : ℕ) (ws : List Window) (f : Findings)
    → All IsWindow ws
    → IsFresh f
    → IsFresh (check_sorted gap ws f)
check_sorted-IsFresh gap ws f v fresh e =
    let (same, _) = check_sorted-Pairwise gap ws f v fresh e in rw same (fresh (rw same at e))

-- All groups.
pub check_groups-Pairwise :
    (gap : ℕ) (groups : Groups) (f : Findings)
    → All (λ g. All IsWindow g.1) groups
    → IsFresh f
    → (check_groups gap groups f).probs ≡ []
    → (check_groups gap groups f ≡ f) × All (λ g. Pairwise (IsApart gap) g.1) groups
unfolding check_groups
check_groups-Pairwise gap [] f v fresh e = (refl, tt)
check_groups-Pairwise gap ((k, ws) ∷ groups) f (vw, vg) fresh e =
    let f' = check_sorted gap (sort window_leb ws) f in
    let fresh' =
      check_sorted-IsFresh gap (sort window_leb ws) f (All-sort window_leb IsWindow ws vw) fresh in
    let (same, rest) = check_groups-Pairwise gap groups f' vg fresh' e in
    let (same', here') = check_group-Pairwise gap ws f vw fresh (rw same at e) in
    (same ∙ same', (here', rest))
