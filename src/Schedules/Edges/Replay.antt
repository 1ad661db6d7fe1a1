-- ===== src/Schedules/Edges/Replay.antt =====
-- Firing the edges of a day in their order leads at every minute to the state that the schedule
-- asks for.
use minisserver_compose.Prelude.{
  ℕ, ◌≤◌, ◌<◌, ◌≡◌, refl, sym, ◌∙◌, ap, Bool, true, false, Option, none, some, List, [], ◌∷◌, ltb,
  arith, Text, member, elem, any, sort, All, All-In, All-of_sort, Pairwise, In, here, there,
  In-of_sort, sort-IsSorted, Bool-cases, ltb→le, Option-cases, ◌⊎◌, inl, inr,
}
use minisserver_compose.Schedules.Types.{plug, Rule}
use minisserver_compose.Schedules.Weekly.{start_of}
use minisserver_compose.Schedules.Edges.{
  Day, off, on, Edge, edge, edge_leb, end_of, collect_edges, day_edges, covers, target_state,
}
use minisserver_compose.Schedules.Edges.Fired.{
  last_fired, is_on, last_fired-le, last_fired-none, edge_leb-total, edge_leb_trans, FiredBefore,
  last_fired-In, last_fired-FiredBefore,
}
use minisserver_compose.Schedules.Edges.Origin.{All-collect_edges, Origin, collect_edges-Origin}

-- Two rules of one weekday: the window of one ends before the other's starts.
abbrev pub DayApart : ℕ → Rule → Rule → Type 0
DayApart weekday a b =
    elem weekday a.days ≡ true
    → elem weekday b.days ≡ true
    → (end_of a ≤ start_of b) ⊎ (end_of b ≤ start_of a)

abbrev pub IsOpenWindow : Rule → Type 0
IsOpenWindow r = start_of r < end_of r

Pairwise-In {ℓ κ} :
    {A : Type ℓ} (R : A → A → Type κ) (xs : List A) (a b : A)
    → ((x y : A) → R x y → R y x)
    → Pairwise R xs
    → In a xs
    → In b xs
    → (a ≡ b) ⊎ R a b
Pairwise-In R [] a b symm h i j = elim i [ ]
Pairwise-In R (x ∷ xs) a b symm h (here e) (here e') = inl (e ∙ sym e')
Pairwise-In R (x ∷ xs) a b symm h (here e) (there j) = inr (rw e (All-In (R x) xs h.0 j))
Pairwise-In R (x ∷ xs) a b symm h (there i) (here e) = inr (rw e (symm x a (All-In (R x) xs h.0 i)))
Pairwise-In R (x ∷ xs) a b symm h (there i) (there j) = Pairwise-In R xs a b symm h.1 i j

any-In {ℓ} :
    {A : Type ℓ} (p : A → Bool) (a : A) (xs : List A) → In a xs → p a ≡ true → any p xs ≡ true
any-In p a (x ∷ xs) (here e) h = let h' : p x ≡ true = ap p (sym e) ∙ h in rw h'
any-In p a (x ∷ xs) (there i) h = ground (arith, any-In p a xs i h)
any-In p a [] i h = elim i [ ]

In-of_any {ℓ} :
    {A : Type ℓ} (p : A → Bool) (xs : List A) → any p xs ≡ true → (a : A) × In a xs × (p a ≡ true)
In-of_any p [] h = absurd (cc)
In-of_any p (x ∷ xs) h = elim (Bool-cases (p x)) [
  | inl t ↦ (x, here refl, t)
  | inr f ↦ let (a, i, q) = In-of_any p xs (ground (arith, f)) in (a, there i, q)
]

swap {ℓ κ} : {A : Type ℓ} {B : Type κ} → A ⊎ B → B ⊎ A
swap (inl a) = inr a
swap (inr b) = inl b

is_on-some : (e : Edge) → e.action ≡ on → is_on (some e) ≡ true
is_on-some e h = rw h

is_on_else : (e : Edge) → (e.action ≡ on → ⊥) → is_on (some e) ≡ false
is_on_else e h = ground arith

module _ (weekday t : ℕ) (e : Edge) (r : Rule) where
  on_covers :
      (e ≡ edge (end_of r) off r) ⊎ ((false ≡ false) × (e ≡ edge (start_of r) on r))
      → e.action ≡ on
      → e.minute ≤ t
      → FiredBefore t e (edge (end_of r) off r)
      → IsOpenWindow r
      → elem weekday r.days ≡ true
      → covers weekday t r ≡ true
  on_covers (inl q) o m f w d = absurd (cc)
  on_covers (inr (_, q)) o m f w d = elim (Bool-cases (ltb t (end_of r))) [
    | inl l ↦ ground (arith, q)
    | inr l ↦ let f' = f (ltb→le t (end_of r) l) in ground (arith, q, f')
  ]

  off_refuted :
      (s : Rule)
      → (e ≡ edge (end_of r) off r) ⊎ ((false ≡ false) × (e ≡ edge (start_of r) on r))
      → e.minute ≤ t
      → covers weekday t s ≡ true
      → FiredBefore t e (edge (start_of s) on s)
      → IsOpenWindow r
      → (end_of r ≡ end_of s) ⊎ ((end_of r ≤ start_of s) ⊎ (end_of s ≤ start_of r))
      → e.action ≡ on
  off_refuted s (inr (_, q)) m c f w a = ap (λ (x : Edge). x.action) q
  off_refuted s (inl q) m c f w a =
      let begun : start_of s ≤ t = ground arith in
      let f' = f begun in absurd (ground (arith, q, f'))

module _ (weekday t : ℕ) (rules : List Rule) (opens : All IsOpenWindow rules)
    (apart : Pairwise (DayApart weekday) rules) where
  abbrev pub fired : Option Edge
  fired = last_fired t (sort edge_leb (collect_edges plug false weekday rules))

  fired-Origin : (e : Edge) → fired ≡ some e → Origin weekday false rules e
  fired-Origin e h =
      collect_edges-Origin weekday false rules e
        (In-of_sort edge_leb e (collect_edges plug false weekday rules) (last_fired-In t _ e h))

  fired-before :
      (e : Edge) (r : Rule)
      → fired ≡ some e
      → In r rules
      → elem weekday r.days ≡ true
      → FiredBefore t e (edge (end_of r) off r) × FiredBefore t e (edge (start_of r) on r)
  fired-before e r h i d =
      let (p, q) =
        All-collect_edges weekday false (FiredBefore t e) rules r
          (All-of_sort edge_leb (FiredBefore t e) (collect_edges plug false weekday rules) (
            last_fired-FiredBefore t _ e (sort-IsSorted edge_leb edge_leb-total edge_leb_trans _)
              h))
          i d in
      (p, q refl)

  -- The last edge switched on: its window still runs.
  covers-of_on : (e : Edge) → fired ≡ some e → e.action ≡ on → any (covers weekday t) rules ≡ true
  covers-of_on e h o =
      let origin = fired-Origin e h in
      any-In (covers weekday t) origin.rule rules origin.stands (
        on_covers weekday t e origin.rule origin.which o (last_fired-le t _ e h)
          (fired-before e origin.rule h origin.stands origin.on_day).0
          (All-In IsOpenWindow rules opens origin.stands) origin.on_day)

  -- A window runs: the last edge is no other rule's end.
  not_off :
      (e : Edge) (r : Rule)
      → fired ≡ some e
      → In r rules
      → covers weekday t r ≡ true
      → e.action ≡ on
  not_off e r h i c =
      let origin = fired-Origin e h in
      let d : elem weekday r.days ≡ true = ground arith in
      off_refuted weekday t e origin.rule r origin.which (last_fired-le t _ e h) c
        (fired-before e r h i d).1 (All-In IsOpenWindow rules opens origin.stands)
        (elim (Pairwise-In (DayApart weekday) rules origin.rule r (λ x y k a b. swap (k b a)) apart
          origin.stands i) [
            | inl same ↦ inl (ap (λ (x : Rule). end_of x) same)
            | inr k ↦ inr (k origin.on_day d)
          ])

  some_fired : (r : Rule) → In r rules → covers weekday t r ≡ true → fired ≡ none → ⊥
  some_fired r i c n =
      let d : elem weekday r.days ≡ true = ground arith in
      let late =
        All-collect_edges weekday false (λ f. t < f.minute) rules r
          (All-of_sort edge_leb (λ f. t < f.minute) (collect_edges plug false weekday rules)
            (last_fired-none t _ n))
          i d in
      let later : t < start_of r = late.1 refl in ground arith

  pub fired-covers : is_on fired ≡ any (covers weekday t) rules
  fired-covers = elim (Bool-cases (any (covers weekday t) rules)) [
    | inl yes_on ↦
        let (r, i, c) = In-of_any (covers weekday t) rules yes_on in
        elim (Option-cases fired) [
          | inl n ↦ absurd (some_fired r i c n)
          | inr (e, h) ↦ rw h (is_on-some e (not_off e r h i c) ∙ sym yes_on)
        ]
    | inr no_on ↦ elim (Option-cases fired) [
      | inl n ↦ rw n (sym no_on)
      | inr (e, h) ↦ rw h (is_on_else e (λ o. cc (no_on, covers-of_on e h o)) ∙ sym no_on)
    ]
  ]

-- On a skipped date only ends are fired.
fired_skipped :
    (weekday t : ℕ) (rules : List Rule)
    → is_on (last_fired t (sort edge_leb (collect_edges plug true weekday rules))) ≡ false
fired_skipped weekday t rules =
    elim (Option-cases (last_fired t (sort edge_leb (collect_edges plug true weekday rules)))) [
      | inl n ↦ rw n
      | inr (e, h) ↦
          let origin = collect_edges-Origin weekday true rules e (
            In-of_sort edge_leb e (collect_edges plug true weekday rules)
              (last_fired-In t _ e h)) in
          rw h (is_on_else e (λ o. ends_only e origin.rule origin.which o))
    ]
  where
    ends_only :
        (e : Edge) (r : Rule)
        → (e ≡ edge (end_of r) off r) ⊎ ((true ≡ false) × (e ≡ edge (start_of r) on r))
        → e.action ≡ on
        → ⊥
    ends_only e r (inl q) o = cc
    ends_only e r (inr (x, q)) o = cc

-- For windows that do not overlap on a weekday, the last edge that has fired by a minute of such a
-- day leaves the plug in the state that the schedule asks for; on a skipped date it stays off.
pub day_edges-target_state :
    (rules : List Rule) (day : Day) (t : ℕ) (skips : List Text)
    → All IsOpenWindow rules
    → Pairwise (DayApart day.weekday) rules
    → target_state plug rules day t skips
      ≡ some (is_on (last_fired t (day_edges plug rules day skips)))
unfolding target_state day_edges
day_edges-target_state rules day t skips opens apart = elim (Bool-cases (member day.date skips)) [
  | inl t' ↦ rw (t', fired_skipped day.weekday t rules)
  | inr f ↦ rw (f, fired-covers day.weekday t rules opens apart)
]
