-- ===== src/Schedules/Validate/Spaced.antt =====
-- What the checks across the rules show when they find nothing.
use minisserver_compose.Prelude.{
  ℕ, ◌≡◌, refl, sym, ap, ◌∙◌, List, [], ◌∷◌, ◌++◌, map, All, All-mono, All-append_left,
  All-append_right, Pairwise, Pairwise-sort, All-sort, Text, subst,
}
use minisserver_compose.Prelude.Json.{Json, items}
use minisserver_compose.Schedules.Types.{Kind, Guardrails, Rule, Problem, ok}
use minisserver_compose.Schedules.Weekly.{
  Window, Findings, check_groups, group_rules, or_zero, groups_of, window_on,
}
use minisserver_compose.Schedules.Weekly.Apart.{IsApart, IsApart-symm, check_groups-Pairwise}
use minisserver_compose.Schedules.Weekly.Grouping.{
  IsForward, windows_opening, for_each, group_rules_lem, All-get_group, group_rules-IsWindow,
}
use minisserver_compose.Schedules.Daily.{check_triggers}
use minisserver_compose.Schedules.Validate.{validate_rules, check_across, check_child, rule_leb}
use minisserver_compose.Schedules.Validate.Outcome.{
  Concluded, fresh_progress, validate_rules-Concluded,
}
use minisserver_compose.Schedules.Validate.Sound.{check_rule-IsForward}
use minisserver_compose.Schedules.Validate.Sound.Loop.{visit_rules-All}

pub append-eq-nil {ℓ} : {A : Type ℓ} (xs ys : List A) → (xs ++ ys) ≡ [] → (xs ≡ []) × (ys ≡ [])
append-eq-nil [] ys e = (refl, e)
append-eq-nil (x ∷ xs) ys e = absurd (cc)

-- Nothing was found by any of the checks.
pub record IsClean (kind : Kind) (g : Guardrails) (rules : List Rule) (probs : List Problem)
    : Type 0 where
  pub no_probs : probs ≡ []
  pub groups_apart :
      (grp : Text) → Pairwise (IsApart (or_zero g.min_gap_minutes)) (windows_opening kind grp rules)
  pub few_triggers : check_triggers g.max_triggers_per_day rules ≡ []
  pub child_fine : check_child kind g rules ≡ []

pub check_across-IsClean :
    (kind : Kind) (g : Guardrails) (rules : List Rule) (probs : List Problem)
    → All IsForward rules
    → check_across kind g rules probs ≡ []
    → IsClean kind g rules probs
unfolding check_across
check_across-IsClean kind g rules probs forward h =
    let f : Findings = record { reported = []; probs = probs } in
    let gap = or_zero g.min_gap_minutes in
    let (h1, h2) = append-eq-nil (check_groups gap (group_rules kind rules []) f).probs _ h in
    let (h3, h4) = append-eq-nil (check_triggers g.max_triggers_per_day rules) _ h2 in
    let (same, apart) =
      check_groups-Pairwise gap (group_rules kind rules []) f
        (group_rules-IsWindow kind rules [] forward tt) (λ _. refl) h1 in
    record {
      no_probs = ap (λ (x : Findings). x.probs) (sym same) ∙ h1;
      groups_apart = λ grp.
          subst (λ ws. Pairwise (IsApart gap) ws) (group_rules_lem kind grp rules)
            (All-get_group (λ ws. Pairwise (IsApart gap) ws) grp (group_rules kind rules []) tt
              apart);
      few_triggers = h3;
      child_fine = h4;
    }

-- The windows of one rule under a name.
abbrev pub windows_of : Kind → Text → Rule → List Window
windows_of kind grp r = for_each grp (groups_of kind r) (map (window_on r) r.days)

-- Each window of one rule is apart from each of the other.
abbrev pub RulesApart : Kind → ℕ → Text → Rule → Rule → Type 0
RulesApart kind gap grp r s =
    All (λ w. All (IsApart gap w) (windows_of kind grp s)) (windows_of kind grp r)

Pairwise-append {ℓ κ} :
    {A : Type ℓ} (R : A → A → Type κ) (xs ys : List A)
    → Pairwise R (xs ++ ys)
    → Pairwise R xs × Pairwise R ys × All (λ x. All (R x) ys) xs
Pairwise-append R [] ys h = (tt, h, tt)
Pairwise-append R (x ∷ xs) ys h =
    let (p, q, r) = Pairwise-append R xs ys h.1 in
    ((All-append_left (R x) xs ys h.0, p), q, (All-append_right (R x) xs ys h.0, r))

All-All-append {ℓ κ} :
    {A : Type ℓ} (R : A → A → Type κ) (xs ys zs : List A)
    → All (λ x. All (R x) (ys ++ zs)) xs
    → All (λ x. All (R x) ys) xs × All (λ x. All (R x) zs) xs
All-All-append R [] ys zs h = (tt, tt)
All-All-append R (x ∷ xs) ys zs h =
    let (p, q) = All-All-append R xs ys zs h.1 in
    ((All-append_left (R x) ys zs h.0, p), (All-append_right (R x) ys zs h.0, q))

All-All-nil {ℓ κ} : {A : Type ℓ} (R : A → A → Type κ) (xs : List A) → All (λ x. All (R x) []) xs
All-All-nil R [] = tt
All-All-nil R (x ∷ xs) = (tt, All-All-nil R xs)

-- An `All` of an `All` does not depend on the order of the two.
All-All-flip {ℓ κ} :
    {A : Type ℓ} (R : A → A → Type κ)
    → ((x y : A) → R x y → R y x)
    → (xs ys : List A) → All (λ x. All (R x) ys) xs
    → All (λ y. All (R y) xs) ys
All-All-flip R symm xs [] h = tt
All-All-flip R symm xs (y ∷ ys) h = (
  All-mono _ (R y) (λ x k. symm x y k.0) xs h,
  All-All-flip R symm xs ys (All-mono _ (λ x. All (R x) ys) (λ x k. k.1) xs h),
)

module _ (kind : Kind) (gap : ℕ) (grp : Text) where
  RulesApart-of_windows :
      (r : Rule) (rs : List Rule)
      → All (λ w. All (IsApart gap w) (windows_opening kind grp rs)) (windows_of kind grp r)
      → All (RulesApart kind gap grp r) rs
  unfolding windows_opening
  RulesApart-of_windows r [] h = tt
  RulesApart-of_windows r (s ∷ rs) h =
      let (p, q) =
        All-All-append (IsApart gap) (windows_of kind grp r) (windows_of kind grp s)
          (windows_opening kind grp rs) h in
      (p, RulesApart-of_windows r rs q)

  Pairwise-RulesApart :
      (rs : List Rule)
      → Pairwise (IsApart gap) (windows_opening kind grp rs)
      → Pairwise (RulesApart kind gap grp) rs
        × All (λ r. Pairwise (IsApart gap) (windows_of kind grp r)) rs
  unfolding windows_opening
  Pairwise-RulesApart [] h = (tt, tt)
  Pairwise-RulesApart (r ∷ rs) h =
      let (p, q, c) =
        Pairwise-append (IsApart gap) (windows_of kind grp r) (windows_opening kind grp rs) h in
      let (ps, ws) = Pairwise-RulesApart rs q in ((RulesApart-of_windows r rs c, ps), (p, ws))

  RulesApart-symm : (r s : Rule) → RulesApart kind gap grp r s → RulesApart kind gap grp s r
  RulesApart-symm r s h =
      All-All-flip (IsApart gap) (IsApart-symm gap) (windows_of kind grp r) (windows_of kind grp s)
        h

-- For each thing that windows open, the windows of different rules are apart, and so are those
-- of one rule on its days.
pub record IsSpaced (kind : Kind) (gap : ℕ) (rules : List Rule) : Type 0 where
  pub between : (grp : Text) → Pairwise (RulesApart kind gap grp) rules
  pub within : (grp : Text) → All (λ r. Pairwise (IsApart gap) (windows_of kind grp r)) rules

pub Concluded-IsClean :
    (kind : Kind) (g : Guardrails) (v : Json) (out : List Rule) (c : Concluded kind g v out [])
    → IsClean kind g c.progress.good c.progress.probs
Concluded-IsClean kind g v out c =
    check_across-IsClean kind g c.progress.good c.progress.probs
      (visit_rules-All kind g IsForward (check_rule-IsForward kind g) 0 (items c.given)
        (fresh_progress (items c.given)) c.progress c.looped tt)
      (sym c.all_probs)

-- Where no problem is reported, the windows of any two rules that open the same thing do not
-- overlap and keep the entity's gap, across the end of the week too, and so do the windows of one
-- rule on two of its days.
pub validate_rules-IsSpaced :
    (kind : Kind) (g : Guardrails) (v : Json) (out : List Rule)
    → validate_rules kind g v ≡ ok (out, [])
    → IsSpaced kind (or_zero g.min_gap_minutes) out
validate_rules-IsSpaced kind g v out h =
    let c = validate_rules-Concluded kind g v out h in
    let clean = Concluded-IsClean kind g v out c in
    let gap = or_zero g.min_gap_minutes in
    rw c.out_sorted (record {
      between = λ grp.
          Pairwise-sort rule_leb (RulesApart kind gap grp) (RulesApart-symm kind gap grp)
            c.progress.good
            (Pairwise-RulesApart kind gap grp c.progress.good (clean.groups_apart grp)).0;
      within = λ grp.
          All-sort rule_leb _ c.progress.good
            (Pairwise-RulesApart kind gap grp c.progress.good (clean.groups_apart grp)).1;
    })
