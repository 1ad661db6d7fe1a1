-- ===== src/Schedules/Weekly/Grouping.antt =====
-- What the groups hold: for each thing that windows open, the windows of all rules that open it.
use mathlib.Core.List.{append-nil, append_assoc}
use minisserver_compose.Prelude.{
  ℕ, ◌≤◌, ◌≡◌, sym, inl, inr, List, [], ◌∷◌, ◌++◌, map, if◌then◌else◌, arith, Text, text_eq,
  text_eq_iff, Bool-cases, All, All-append,
}
use minisserver_compose.Schedules.Types.{Kind, Rule}
use minisserver_compose.Schedules.Weekly.{
  Window, Groups, add_window, add_windows, add_to_groups, group_rules, groups_of, window_on,
  start_of, stop_of,
}
use minisserver_compose.Schedules.Weekly.Apart.{IsWindow}

unfoldable pub get_group : Text → Groups → List Window
get_group k [] = []
get_group k ((j, ws) ∷ groups) = if text_eq j k then ws else get_group k groups

-- `ws` once for each time that `grp` stands in the list.
unfoldable pub for_each : Text → List Text → List Window → List Window
for_each grp [] ws = []
for_each grp (g ∷ gs) ws =
    let rest = for_each grp gs ws in if text_eq g grp then ws ++ rest else rest

-- The windows of the rules that open `grp`, rule by rule.
unfoldable pub windows_opening : Kind → Text → List Rule → List Window
unfolding for_each
windows_opening kind grp [] = []
windows_opening kind grp (r ∷ rs) =
    for_each grp (groups_of kind r) (map (window_on r) r.days) ++ windows_opening kind grp rs

get_group-add_window :
    (k g : Text) (w : Window) (groups : Groups)
    → get_group k (add_window g w groups)
      ≡ (if text_eq g k then get_group k groups ++ w ∷ [] else get_group k groups)
unfolding get_group add_window
get_group-add_window k g w [] = ground arith
get_group-add_window k g w ((j, ws) ∷ groups) =
    ground
      (arith, text_eq_iff j g, text_eq_iff j k, text_eq_iff g k, get_group-add_window k g w groups)

get_group-add_windows :
    (k g : Text) (ws : List Window) (groups : Groups)
    → get_group k (add_windows g ws groups)
      ≡ (if text_eq g k then get_group k groups ++ ws else get_group k groups)
unfolding add_windows
get_group-add_windows k g [] groups = elim (Bool-cases (text_eq g k)) [
  | inl t ↦ rw t (sym (append-nil (get_group k groups)))
  | inr f ↦ rw f
]
get_group-add_windows k g (w ∷ ws) groups = elim (Bool-cases (text_eq g k)) [
  | inl t ↦
      simp (
        get_group-add_windows k g ws (add_window g w groups),
        get_group-add_window,
        t,
        append_assoc,
      )
  | inr f ↦ simp (get_group-add_windows k g ws (add_window g w groups), get_group-add_window, f)
]

get_group-add_to_groups :
    (k : Text) (ws : List Window) (gs : List Text) (groups : Groups)
    → get_group k (add_to_groups ws gs groups) ≡ get_group k groups ++ for_each k gs ws
unfolding add_to_groups for_each
get_group-add_to_groups k ws [] groups = sym (append-nil (get_group k groups))
get_group-add_to_groups k ws (g ∷ gs) groups = elim (Bool-cases (text_eq g k)) [
  | inl t ↦ simp (
    get_group-add_to_groups k ws gs (add_windows g ws groups),
    get_group-add_windows,
    t,
    append_assoc,
  )
  | inr f ↦
      simp (get_group-add_to_groups k ws gs (add_windows g ws groups), get_group-add_windows, f)
]

get_group-group_rules :
    (kind : Kind) (k : Text) (rs : List Rule) (groups : Groups)
    → get_group k (group_rules kind rs groups) ≡ get_group k groups ++ windows_opening kind k rs
unfolding group_rules windows_opening
get_group-group_rules kind k [] groups = sym (append-nil (get_group k groups))
get_group-group_rules kind k (r ∷ rs) groups = simp (
  get_group-group_rules kind k rs
      (add_to_groups (map (window_on r) r.days) (groups_of kind r) groups),
  get_group-add_to_groups,
  append_assoc,
)

-- The groups of a list of rules hold, under each name, the windows that open it.
pub group_rules_lem :
    (kind : Kind) (k : Text) (rs : List Rule)
    → get_group k (group_rules kind rs []) ≡ windows_opening kind k rs
unfolding get_group
group_rules_lem kind k rs = get_group-group_rules kind k rs []

pub All-get_group {ℓ} :
    (P : List Window → Type ℓ) (k : Text) (groups : Groups)
    → P []
    → All (λ g. P g.1) groups
    → P (get_group k groups)
unfolding get_group
All-get_group P k [] empty h = empty
All-get_group P k ((j, ws) ∷ groups) empty h = elim (Bool-cases (text_eq j k)) [
  | inl t ↦ rw t h.0
  | inr f ↦ rw f (All-get_group P k groups empty h.1)
]

module _ (P : Window → Type 0) where
  All-add_window :
      (g : Text) (w : Window) (groups : Groups)
      → P w
      → All (λ e. All P e.1) groups
      → All (λ e. All P e.1) (add_window g w groups)
  unfolding add_window
  All-add_window g w [] p h = ((p, tt), tt)
  All-add_window g w ((j, ws) ∷ groups) p h = elim (Bool-cases (text_eq j g)) [
    | inl t ↦ rw t (All-append P ws (w ∷ []) h.0 (p, tt), h.1)
    | inr f ↦ rw f (h.0, All-add_window g w groups p h.1)
  ]

  All-add_windows :
      (g : Text) (ws : List Window) (groups : Groups)
      → All P ws
      → All (λ e. All P e.1) groups
      → All (λ e. All P e.1) (add_windows g ws groups)
  unfolding add_windows
  All-add_windows g [] groups p h = h
  All-add_windows g (w ∷ ws) groups p h =
      All-add_windows g ws (add_window g w groups) p.1 (All-add_window g w groups p.0 h)

  All-add_to_groups :
      (ws : List Window) (gs : List Text) (groups : Groups)
      → All P ws
      → All (λ e. All P e.1) groups
      → All (λ e. All P e.1) (add_to_groups ws gs groups)
  unfolding add_to_groups
  All-add_to_groups ws [] groups p h = h
  All-add_to_groups ws (g ∷ gs) groups p h =
      All-add_to_groups ws gs (add_windows g ws groups) p (All-add_windows g ws groups p h)

-- A rule whose end is not before its start.
abbrev pub IsForward : Rule → Type 0
IsForward r = start_of r ≤ stop_of r

All-window_on : (r : Rule) (days : List ℕ) → IsForward r → All IsWindow (map (window_on r) days)
unfolding window_on
All-window_on r [] h = tt
All-window_on r (d ∷ ds) h = (omega arith, All-window_on r ds h)

pub group_rules-IsWindow :
    (kind : Kind) (rs : List Rule) (groups : Groups)
    → All IsForward rs
    → All (λ e. All IsWindow e.1) groups
    → All (λ e. All IsWindow e.1) (group_rules kind rs groups)
unfolding group_rules
group_rules-IsWindow kind [] groups f h = h
group_rules-IsWindow kind (r ∷ rs) groups f h = group_rules-IsWindow kind rs _ f.1 (
    All-add_to_groups IsWindow (map (window_on r) r.days) (groups_of kind r) groups
      (All-window_on r r.days f.0) h)
