-- ===== src/People/Admins/Kept.antt =====
-- `create` and `patch` of portal/gateway/gw/people.py keep an active admin.
use minisserver_compose.Prelude.{
  ℕ, ◌≤◌, ◌≡◌, refl, sym, ap, ◌∙◌, subst, inl, inr, Bool, true, false, Option, none, some, List, [],
  ◌∷◌, ◌++◌, Bool-cases, Option-cases, arith, Text, text_eq, text_eq→eq, text_eq_refl, Table,
  first_of, change_if, count_if, count_if-append, count_if-change_if, All, All-append, Pairwise,
}
use minisserver_compose.Prelude.Json.{Json}
use minisserver_compose.People.{
  Person, Db, Outcome, returned, raised, Role, Actor, Lib, has_id, person_of,
}
use minisserver_compose.People.Admins.{
  create, patch, patched, commit, is_manager, is_other_manager, other_managers, with_values,
  is_last, patch_to, patch_row, create_row, new_person, get, text_of,
}
use minisserver_compose.People.Names.{name_of, role_of, slug}

unfoldable pub managers : List Person → ℕ
unfolding count_if
managers ps = count_if is_manager ps

abbrev pub HaveOtherIds : Person → Person → Type 0
HaveOtherIds p q = text_eq p.id q.id ≡ false

-- The ids are a key, and somebody can manage the system.
pub record IsManaged (ps : List Person) : Type 0 where
  pub keyed : Pairwise HaveOtherIds ps
  pub managed : 1 ≤ managers ps

-- Who has no row of this id counts as before without it.
others_absent :
    (pid : Text) (ps : List Person)
    → All (λ (q : Person). text_eq pid q.id ≡ false) ps
    → count_if is_manager ps ≡ count_if (is_other_manager pid) ps
unfolding count_if
others_absent pid [] h = refl
others_absent pid (p ∷ ps) h = ground (arith, others_absent pid ps h.1, h.0)

others-le :
    (pid : Text) (ps : List Person) → count_if (is_other_manager pid) ps ≤ count_if is_manager ps
unfolding count_if
others-le pid [] = omega arith
others-le pid (p ∷ ps) = ground (arith, others-le pid ps)

-- A row that cannot manage does not count.
others_but_one :
    (pid : Text) (cur : Person) (ps : List Person)
    → Pairwise HaveOtherIds ps
    → first_of (has_id pid) ps ≡ some cur
    → is_manager cur ≡ false
    → count_if is_manager ps ≡ count_if (is_other_manager pid) ps
unfolding count_if first_of
others_but_one pid cur [] k h n = refl
others_but_one pid cur (p ∷ ps) k h n = elim (Bool-cases (text_eq pid p.id)) [
  | inl y ↦
      let same : p ≡ cur = ground (arith, y) in
      let plain : is_manager p ≡ false = ap is_manager same ∙ n in
      let no_other =
        subst (λ (x : Text). All (λ (q : Person). text_eq x q.id ≡ false) ps)
          (sym (text_eq→eq pid p.id y)) k.0 in
      ground (arith, plain, y, others_absent pid ps no_other)
  | inr z ↦
      let rest = others_but_one pid cur ps k.1 (ground (arith, z)) n in ground (arith, z, rest)
]

-- A row that is found and becomes a manager's counts.
changed_one :
    (pid : Text) (new : Person) (ps : List Person) (cur : Person)
    → first_of (has_id pid) ps ≡ some cur
    → is_manager new ≡ true
    → 1 ≤ count_if is_manager (change_if (has_id pid) (with_values new) ps)
unfolding count_if first_of change_if
changed_one pid new [] cur h y = absurd (cc)
changed_one pid new (p ∷ ps) cur h y = elim (Bool-cases (text_eq pid p.id)) [
  | inl z ↦ ground (arith, z, y)
  | inr n ↦ let ih = changed_one pid new ps cur (ground (arith, n)) y in ground (arith, n, ih)
]

others_changed :
    (pid : Text) (new : Person) (ps : List Person)
    → count_if (is_other_manager pid) (change_if (has_id pid) (with_values new) ps)
      ≡ count_if (is_other_manager pid) ps
others_changed pid new ps =
    count_if-change_if (has_id pid) (is_other_manager pid) (with_values new) ps
      (λ x y. ground (arith, y))

other_ids-change_if :
    (p : Person) (pid : Text) (new : Person) (ps : List Person)
    → All (HaveOtherIds p) ps
    → All (HaveOtherIds p) (change_if (has_id pid) (with_values new) ps)
unfolding change_if
other_ids-change_if p pid new [] h = tt
other_ids-change_if p pid new (q ∷ qs) h =
    (ground (arith, h.0), other_ids-change_if p pid new qs h.1)

keyed-change_if :
    (pid : Text) (new : Person) (ps : List Person)
    → Pairwise HaveOtherIds ps
    → Pairwise HaveOtherIds (change_if (has_id pid) (with_values new) ps)
unfolding change_if
keyed-change_if pid new [] h = tt
keyed-change_if pid new (p ∷ ps) h = elim (Bool-cases (text_eq pid p.id)) [
  | inl y ↦ rw y (other_ids-change_if p pid new ps h.0, keyed-change_if pid new ps h.1)
  | inr n ↦ rw n (other_ids-change_if p pid new ps h.0, keyed-change_if pid new ps h.1)
]

-- The update keeps a manager where `patch` does not refuse it.
commit-IsManaged :
    (pid : Text) (cur new : Person) (db : Db)
    → person_of pid db ≡ some cur
    → is_last pid cur new db ≡ false
    → IsManaged db.people
    → IsManaged (commit pid new db).people
unfolding commit other_managers person_of managers
commit-IsManaged pid cur new db found allowed h = record {
  keyed = keyed-change_if pid new db.people h.keyed;
  managed = elim (Bool-cases (is_manager new)) [
    | inl y ↦ changed_one pid new db.people cur found y
    | inr n ↦
        let low = others-le pid (change_if (has_id pid) (with_values new) db.people) in
        let same = others_changed pid new db.people in
        elim (Bool-cases (is_manager cur)) [
          | inl m ↦ ground (arith, low, same, n, m, allowed)
          | inr m ↦
              let all_others = others_but_one pid cur db.people h.keyed found m in
              omega (arith, low, same, all_others, h.managed)
        ]
  ];
}

patch_to-IsManaged :
    (actor : Actor) (pid : Text) (cur : Person) (now : ℕ) (o : Outcome Person) (db : Db)
    → person_of pid db ≡ some cur
    → IsManaged db.people
    → IsManaged (patch_to actor pid cur now o db).0.people
unfolding get
patch_to-IsManaged actor pid cur now (raised e) db found h = h
patch_to-IsManaged actor pid cur now (returned new) db found h =
    elim (Bool-cases (is_last pid cur new db)) [
      | inl y ↦ rw y h
      | inr n ↦ rw n (commit-IsManaged pid cur new db found n h)
    ]

patch_row-IsManaged :
    (lib : Lib) (actor : Actor) (pid : Text) (fields : Table Json) (now : ℕ) (o : Option Person)
    (db : Db)
    → person_of pid db ≡ o
    → IsManaged db.people
    → IsManaged (patch_row lib actor pid fields now o db).0.people
patch_row-IsManaged lib actor pid fields now none db found h = h
patch_row-IsManaged lib actor pid fields now (some cur) db found h =
    patch_to-IsManaged actor pid cur now (patched lib fields cur) db found h

pub patch-IsManaged :
    (lib : Lib) (actor : Actor) (pid : Text) (fields : Table Json) (now : ℕ) (db : Db)
    → IsManaged db.people
    → IsManaged (patch lib actor pid fields now db).0.people
unfolding patch
patch-IsManaged lib actor pid fields now db h =
    patch_row-IsManaged lib actor pid fields now (person_of pid db) db refl h

-- A row with an id that nobody has.
none_has :
    (pid : Text) (ps : List Person)
    → first_of (has_id pid) ps ≡ none
    → All (λ (q : Person). text_eq pid q.id ≡ false) ps
unfolding first_of
none_has pid [] h = tt
none_has pid (p ∷ ps) h = elim (Bool-cases (text_eq pid p.id)) [
  | inl y ↦ absurd (ground (arith, y))
  | inr n ↦ (n, none_has pid ps (ground (arith, n)))
]

text_eq_sym : (s t : Text) → text_eq s t ≡ false → text_eq t s ≡ false
text_eq_sym s t h = elim (Bool-cases (text_eq t s)) [
  | inl y ↦
      absurd (cc (subst (λ (x : Text). text_eq s x ≡ false) (text_eq→eq t s y) h, text_eq_refl s))
  | inr n ↦ n
]

keyed-append :
    (p : Person) (ps : List Person)
    → Pairwise HaveOtherIds ps
    → All (λ (q : Person). text_eq p.id q.id ≡ false) ps
    → Pairwise HaveOtherIds (ps ++ (p ∷ []))
keyed-append p [] k h = (tt, tt)
keyed-append p (q ∷ qs) k h = (
  All-append (HaveOtherIds q) qs (p ∷ []) k.0 (text_eq_sym p.id q.id h.0, tt),
  keyed-append p qs k.1 h.1,
)

enter-IsManaged :
    (p : Person) (ps : List Person)
    → first_of (has_id p.id) ps ≡ none
    → IsManaged ps
    → IsManaged (ps ++ (p ∷ []))
unfolding managers
enter-IsManaged p ps free h = record {
  keyed = keyed-append p ps h.keyed (none_has p.id ps free);
  managed = omega (arith, count_if-append is_manager ps (p ∷ []), h.managed);
}

create_row-IsManaged :
    (lib : Lib) (actor : Actor) (pid name : Text) (parent : Bool) (web : Option Bool) (role : Role)
    (now : ℕ) (db : Db)
    → IsManaged db.people
    → IsManaged (create_row lib actor pid name parent web role now db).0.people
unfolding person_of get
create_row-IsManaged lib actor pid name parent web role now db h =
    elim (Option-cases (person_of pid db)) [
      | inl free ↦
          rw (free, create_row)
            (enter-IsManaged (new_person lib pid name role parent web) db.people free h)
      | inr (p, taken) ↦ rw (taken, create_row) h
    ]

pub create-IsManaged :
    (lib : Lib) (actor : Actor) (name role : Json) (parent : Bool) (web : Option Bool) (now : ℕ)
    (db : Db)
    → IsManaged db.people
    → IsManaged (create lib actor name role parent web now db).0.people
unfolding create
create-IsManaged lib actor name role parent web now db h = elim (Option-cases (name_of lib name)) [
  | inl bad ↦ rw (bad, create) h
  | inr (stripped, good) ↦ elim (Option-cases (role_of role)) [
    | inl bad ↦ rw (good, bad, create) h
    | inr (r, known) ↦
        rw (good, known, create)
          (create_row-IsManaged lib actor (slug lib (text_of name)) stripped parent web r now db h)
  ]
]
