-- ===== src/Schedules/Edges/Origin.antt =====
-- Where the edges of a day come from: each one from a rule.
use minisserver_compose.Prelude.{
  ℕ, ◌≡◌, refl, Bool, true, false, List, [], ◌∷◌, ◌++◌, if◌then◌else◌, elem, All, All-append_left,
  All-append_right, In, here, there, ◌⊎◌, inl, inr, subst,
}
use minisserver_compose.Schedules.Types.{plug, Rule}
use minisserver_compose.Schedules.Weekly.{start_of}
use minisserver_compose.Schedules.Edges.{off, on, Edge, edge, end_of, rule_edges, collect_edges}

-- The rules of a plug, whose windows are read.
module _ (weekday : ℕ) (skipped : Bool) where
  -- Where an edge comes from.
  pub record Origin (rs : List Rule) (e : Edge) : Type 0 where
    pub rule : Rule
    pub stands : In rule rs
    pub on_day : elem weekday rule.days ≡ true
    pub which :
        (e ≡ edge (end_of rule) off rule) ⊎ ((skipped ≡ false) × (e ≡ edge (start_of rule) on rule))

  pub Origin-later : (r : Rule) (rs : List Rule) (e : Edge) → Origin rs e → Origin (r ∷ rs) e
  Origin-later r rs e o = record {
    rule = o.rule;
    stands = there o.stands;
    on_day = o.on_day;
    which = o.which;
  }

  pub In-append {ℓ} : {A : Type ℓ} (a : A) (xs ys : List A) → In a (xs ++ ys) → In a xs ⊎ In a ys
  In-append a [] ys i = inr i
  In-append a (x ∷ xs) ys (here h) = inl (here h)
  In-append a (x ∷ xs) ys (there i) = elim (In-append a xs ys i) [
    | inl j ↦ inl (there j)
    | inr j ↦ inr j
  ]

  pub In-rule_edges :
      (r : Rule) (e : Edge)
      → In e (rule_edges plug skipped r)
      → (e ≡ edge (end_of r) off r) ⊎ ((skipped ≡ false) × (e ≡ edge (start_of r) on r))
  In-rule_edges r e i = from skipped refl (unfold rule_edges in i)
    where
      from :
          (b : Bool)
          → skipped ≡ b
          → In e ((if b then [] else edge (start_of r) on r ∷ []) ++ edge (end_of r) off r ∷ [])
          → (e ≡ edge (end_of r) off r) ⊎ ((skipped ≡ false) × (e ≡ edge (start_of r) on r))
      from true q (here h) = inl h
      from true q (there j) = elim j [ ]
      from false q (here h) = inr (q, h)
      from false q (there (here h)) = inl h
      from false q (there (there j)) = elim j [ ]

  pub In-if :
      (b : Bool) (e : Edge) (es : List Edge) → In e (if b then es else []) → (b ≡ true) × In e es
  In-if true e es i = (refl, i)
  In-if false e es i = elim i [ ]

  pub collect_edges-Origin :
      (rs : List Rule) (e : Edge) → In e (collect_edges plug skipped weekday rs) → Origin rs e
  unfolding collect_edges
  collect_edges-Origin [] e i = elim i [ ]
  collect_edges-Origin (r ∷ rs) e i =
      elim (In-append e (if elem weekday r.days then rule_edges plug skipped r else []) _ i) [
        | inl j ↦
            let (d, k) = In-if (elem weekday r.days) e (rule_edges plug skipped r) j in
            record { rule = r; stands = here refl; on_day = d; which = In-rule_edges r e k }
        | inr j ↦ Origin-later r rs e (collect_edges-Origin rs e j)
      ]

  -- What holds of all edges holds of the edges of each rule of the day.
  module _ (P : Edge → Type 0) where
    pub All-rule_edges :
        (r : Rule)
        → All P (rule_edges plug skipped r)
        → P (edge (end_of r) off r) × (skipped ≡ false → P (edge (start_of r) on r))
    All-rule_edges r h = from skipped refl (unfold rule_edges in h)
      where
        from :
            (b : Bool)
            → skipped ≡ b
            → All P ((if b then [] else edge (start_of r) on r ∷ []) ++ edge (end_of r) off r ∷ [])
            → P (edge (end_of r) off r) × (skipped ≡ false → P (edge (start_of r) on r))
        from true q k = (k.0, λ e. absurd (cc))
        from false q k = (k.1.0, λ e. k.0)

    pub All-collect_edges :
        (rs : List Rule) (r : Rule)
        → All P (collect_edges plug skipped weekday rs)
        → In r rs
        → elem weekday r.days ≡ true
        → P (edge (end_of r) off r) × (skipped ≡ false → P (edge (start_of r) on r))
    unfolding collect_edges
    All-collect_edges [] r h i d = elim i [ ]
    All-collect_edges (x ∷ rs) r h (here e) d =
        let first =
          All-append_left P (if elem weekday x.days then rule_edges plug skipped x else []) _ h in
        let d' : elem weekday x.days ≡ true =
          subst (λ (y : Rule). elem weekday y.days ≡ true) e d in
        rw e (All-rule_edges x (rw d' at first))
    All-collect_edges (x ∷ rs) r h (there i) d =
        All-collect_edges rs r
          (All-append_right P (if elem weekday x.days then rule_edges plug skipped x else []) _ h) i
          d
