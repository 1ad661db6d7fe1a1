-- ===== src/People/Enrol/Bound.antt =====
-- The limits on the devices of portal/gateway/gw/people.py.
use minisserver_compose.Prelude.{
  ℕ, ◌≤◌, ◌≡◌, refl, sym, ap, subst, inl, inr, Bool, false, ◌&&◌, Option, none, some, [], ◌∷◌, ◌++◌,
  leb, Text, Bool-cases, arith, if-both, count_if, count_if-append, first_of,
}
use minisserver_compose.People.{
  Lib, Db, Person, Phone, Ticket, Outcome, returned, at_limit, active_phones, active_phones_of,
  is_live, owns, person_of,
}
use minisserver_compose.People.Totp.{norm_code}
use minisserver_compose.People.Login.{Device}
use minisserver_compose.People.Phones.{label_of, if_active}
use minisserver_compose.People.Enrol.{
  enrol_fail_limit, enrol_fails, enrol_unused, is_unused, Enrolling, enrol_with, enrol_labelled,
  enrol_ticket, add_enrolled, enrol_person, if_open, ticket_of,
}

-- Both limits hold at a time.
abbrev pub IsWithin : Text → ℕ → Db → Type 0
IsWithin pid now db = (active_phones_of pid now db ≤ 5) × (active_phones now db ≤ 20)

abbrev IsRoom : Text → ℕ → Db → Type 0
IsRoom pid now db = (active_phones_of pid now db ≤ 4) × (active_phones now db ≤ 19)

at_limit-IsRoom : (pid : Text) (now : ℕ) (db : Db) → at_limit pid now db ≡ false → IsRoom pid now db
at_limit-IsRoom pid now db h = (ground arith, ground arith)

at_most_one : (p : Phone → Bool) (ph : Phone) → count_if p (ph ∷ []) ≤ 1
unfolding count_if
at_most_one p ph = ground arith

-- One phone more.
added-IsWithin :
    (pid : Text) (now : ℕ) (ph : Phone) (old new : Db)
    → new.phones ≡ old.phones ++ (ph ∷ [])
    → IsRoom pid now old
    → IsWithin pid now new
unfolding active_phones_of active_phones count_if
added-IsWithin pid now ph old new e (a, b) =
    let mine = λ (x : Phone). owns pid x && is_live now x in
    (
      omega (
        arith,
        a,
        ap (count_if mine) e,
        count_if-append mine old.phones (ph ∷ []),
        at_most_one mine ph,
      ),
      omega (
        arith,
        b,
        ap (count_if (is_live now)) e,
        count_if-append (is_live now) old.phones (ph ∷ []),
        at_most_one (is_live now) ph,
      ),
    )

-- What a method that enrolled a device leaves behind.
abbrev Keeps : ℕ → Db × Outcome Device → Type 0
Keeps now (db, o) = (d : Device) → o ≡ returned d → IsWithin d.person.id now db

for_person :
    (p : Person) (now : ℕ) (new : Db) (d e : Device)
    → IsWithin p.id now new
    → e.person ≡ p
    → ◌≡◌ {A = Outcome Device} (returned e) (returned d)
    → IsWithin d.person.id now new
for_person p now new d e within whose same =
    let it : d.person ≡ p = cc in subst (λ (x : Person). IsWithin x.id now new) (sym it) within

module _ (lib : Lib) (q : Enrolling) (now : ℕ) (db : Db) where
  enrol_unused-Keeps :
      (label : Text) (t : Ticket) (p : Person) (o : Option Ticket)
      → at_limit p.id now db ≡ false
      → Keeps now (enrol_unused lib q label now db t p o)
  enrol_unused-Keeps label t p none room = λ d e. absurd (cc)
  enrol_unused-Keeps label t p (some v) room = λ d e.
      for_person p now (add_enrolled lib q label now db t p) d _
        (added-IsWithin p.id now _ db (add_enrolled lib q label now db t p) refl
          (at_limit-IsRoom p.id now db room))
        refl e

  enrol_person-Keeps :
      (label : Text) (t : Ticket) (o : Option Person)
      → Keeps now (enrol_person lib q label now db t o)
  enrol_person-Keeps label t none = λ d e. absurd (cc)
  enrol_person-Keeps label t (some p) = elim (Bool-cases (at_limit p.id now db)) [
    | inl full ↦ rw full (λ d e. absurd (cc))
    | inr room ↦
        rw room (enrol_unused-Keeps label t p (first_of (is_unused t.id) db.enrol_codes) room)
  ]

  enrol_ticket-Keeps :
      (label : Text) (o : Option Ticket) → Keeps now (enrol_ticket lib q label now db o)
  enrol_ticket-Keeps label none = λ d e. absurd (cc)
  enrol_ticket-Keeps label (some t) =
      enrol_person-Keeps label t (if_active (person_of t.person_id db))

  enrol_labelled-Keeps : (o : Option Text) → Keeps now (enrol_labelled lib q now db o)
  enrol_labelled-Keeps none = λ d e. absurd (cc)
  enrol_labelled-Keeps (some label) =
      enrol_ticket-Keeps label (if_open now (ticket_of lib (norm_code lib q.typed) db))

-- A device that is enrolled leaves its person with at most five live phones and the system with at
-- most twenty.
pub enrol_with-IsWithin :
    (lib : Lib) (q : Enrolling) (now : ℕ) (db : Db) (d : Device)
    → (enrol_with lib q now db).1 ≡ returned d
    → IsWithin d.person.id now (enrol_with lib q now db).0
unfolding enrol_with
enrol_with-IsWithin lib q now db =
    if-both (Keeps now) (leb enrol_fail_limit (enrol_fails q.ip now db)) (λ d e. absurd (cc))
      (enrol_labelled-Keeps lib q now db (label_of lib q.label))
