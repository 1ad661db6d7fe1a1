-- ===== src/Schedules/Edges/Fired.antt =====
-- The last edge of a day that has fired, and the order of edges.
use minisserver_compose.Prelude.{
  ℕ, ◌≤◌, ◌<◌, ◌≡◌, ◌∙◌, ap, Bool, true, false, Option, none, some, List, [], ◌∷◌, leb,
  if◌then◌else◌, arith, text_leb-total, text_leb_trans, All, All-In, In, here, there, All-mono,
  IsSorted, Option-cases, inl, inr, subst,
}
use minisserver_compose.Schedules.Edges.{on, Edge, edge_leb}

-- The last edge that has fired by minute `t`.
unfoldable pub last_fired : ℕ → List Edge → Option Edge
last_fired t [] = none
last_fired t (e ∷ es) = elim (last_fired t es) [
  | some f ↦ some f
  | none ↦ if leb e.minute t then some e else none
]

-- What the last edge has set: a plug is off before its first edge of the day.
abbrev pub is_on : Option Edge → Bool
is_on none = false
is_on (some e) = elim e.action [ on ↦ true | _ ↦ false ]

pub last_fired-le : (t : ℕ) (es : List Edge) (e : Edge) → last_fired t es ≡ some e → e.minute ≤ t
unfolding last_fired
last_fired-le t [] e h = absurd (cc)
last_fired-le t (x ∷ es) e h = ground (arith, last_fired-le t es e)

-- No edge has fired.
pub last_fired-none : (t : ℕ) (es : List Edge) → last_fired t es ≡ none → All (λ f. t < f.minute) es
unfolding last_fired
last_fired-none t [] h = tt
last_fired-none t (x ∷ es) h = (ground arith, last_fired-none t es (ground arith))

pub edge_leb_refl : (e : Edge) → edge_leb e e ≡ true
edge_leb_refl e = ground (arith, text_leb-total e.id e.id)

pub edge_leb-total : (a b : Edge) → edge_leb a b ≡ false → edge_leb b a ≡ true
edge_leb-total a b h = ground (arith, text_leb-total a.id b.id)

pub edge_leb_trans :
    (a b c : Edge) → edge_leb a b ≡ true → edge_leb b c ≡ true → edge_leb a c ≡ true
edge_leb_trans a b c h k = ground (arith, text_leb_trans a.id b.id c.id)

-- Whatever has fired stands before the last one in the order, or is it.
abbrev pub FiredBefore : ℕ → Edge → Edge → Type 0
FiredBefore t e f = f.minute ≤ t → edge_leb f e ≡ true

pub last_fired-In : (t : ℕ) (es : List Edge) (e : Edge) → last_fired t es ≡ some e → In e es
unfolding last_fired
last_fired-In t [] e h = absurd (cc)
last_fired-In t (x ∷ es) e h = elim (Option-cases (last_fired t es)) [
  | inl n ↦ let same : e ≡ x = ground (arith, n) in here same
  | inr (f, n) ↦
      let same : f ≡ e = ground (arith, n) in there (last_fired-In t es e (n ∙ ap some same))
]

pub last_fired-FiredBefore :
    (t : ℕ) (es : List Edge) (e : Edge)
    → IsSorted edge_leb es
    → last_fired t es ≡ some e
    → All (FiredBefore t e) es
unfolding last_fired
last_fired-FiredBefore t [] e so h = tt
last_fired-FiredBefore t (x ∷ es) e so h = elim (Option-cases (last_fired t es)) [
  | inl n ↦
      let same : x ≡ e = ground (arith, n) in
      (
        λ _. subst (λ y. edge_leb x y ≡ true) same (edge_leb_refl x),
        All-mono _ (FiredBefore t e) (λ f l m. absurd (omega arith)) es (last_fired-none t es n),
      )
  | inr (f, n) ↦
      let same : f ≡ e = ground (arith, n) in
      let n' : last_fired t es ≡ some e = n ∙ ap some same in
      (
        λ _. All-In (λ y. edge_leb x y ≡ true) es so.0 (last_fired-In t es e n'),
        last_fired-FiredBefore t es e so.1 n',
      )
]
