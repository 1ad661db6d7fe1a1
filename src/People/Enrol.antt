-- ===== src/People/Enrol.antt =====
-- Enrolling a phone with a code: `create_enrolment_code` and `enrol` of
-- portal/gateway/gw/people.py.
pub mod Bound
use minisserver_compose.Prelude.{
  ℕ, suc, ◌+◌, ◌≡◌, refl, inl, inr, Bool, true, false, not, ◌&&◌, ◌||◌, Option, none, some, List,
  [], ◌∷◌, ◌++◌, ltb, leb, ◌==◌, if◌then◌else◌, arith, Text, codes, text_eq, length, take, first_of,
  change_if, count_if,
}
use minisserver_compose.Prelude.Json.{Json}
use minisserver_compose.People.{
  Code, person_inactive, device_limit, too_many_attempts, invalid_device, invalid_code, Outcome,
  returned, raised, raise, Person, Ticket, Phone, Attempt, Action, enrol_code_create, enrol_failed,
  enrol, Db, Method, after, Actor, Lib, enrol_ttl, person_of, note, at_limit, active_phones_of,
  active_phones,
}
use minisserver_compose.People.Totp.{norm_code}
use minisserver_compose.People.Admins.{get}
use minisserver_compose.People.Setup.{is_open_of, use_up, has_hash}
use minisserver_compose.People.Phones.{phone_id_of, label_of, new_phone, if_active}
use minisserver_compose.People.Login.{is_recent_fail, count_attempt, Device, device_for}

abbrev new_ticket : Lib → Text → Text → Text → ℕ → Ticket
new_ticket lib pid raw cid now = record {
  id = cid;
  person_id = pid;
  hash = lib.sha raw;
  expires = now + enrol_ttl;
  used = false;
}

abbrev pub give_code : Lib → Actor → Text → Text → Text → ℕ → Person → Method (Text × ℕ)
give_code lib actor pid raw cid now p db =
    if not p.active
    then (db, raise 409 person_inactive)
    else if at_limit pid now db
    then (db, raise 409 device_limit)
    else (
      note enrol_code_create actor.person_id actor.phone_id (some pid) true (record db {
        enrol_codes =
            change_if (is_open_of pid) use_up db.enrol_codes
            ++ (new_ticket lib pid raw cid now ∷ []);
      }),
      returned (raw, now + enrol_ttl),
    )

-- `create_enrolment_code`, with the code and the id that it draws: one open code per person.
unfoldable pub create_enrolment_code : Lib → Actor → Text → Text → Text → ℕ → Method (Text × ℕ)
unfolding get change_if text_eq active_phones_of active_phones
create_enrolment_code lib actor pid raw cid now db =
    after (get pid now db) λ same row. give_code lib actor pid raw cid now row.person same

abbrev pub enrol_fail_limit : ℕ
enrol_fail_limit = 10

unfoldable pub enrol_fails : Text → ℕ → Db → ℕ
unfolding count_if text_eq
enrol_fails ip now db =
    count_if
      (λ (a : Attempt).
        text_eq a.account (codes "enrol") && (text_eq ip a.ip && is_recent_fail now a))
      db.attempts

-- The row of a code of twelve characters.
unfoldable pub ticket_of : Lib → Text → Db → Option Ticket
unfolding first_of text_eq
ticket_of lib norm db =
    if length norm == 12 then first_of (has_hash (lib.sha norm)) db.enrol_codes else none

-- The row, unless it is used or expired.
abbrev pub if_open : ℕ → Option Ticket → Option Ticket
if_open now none = none
if_open now (some t) = if t.used || ltb t.expires now then none else some t

-- `SELECT 1 FROM enrol_codes WHERE id=? AND used=0`
abbrev pub is_unused : Text → Ticket → Bool
is_unused cid t = text_eq cid t.id && not t.used

abbrev pub spend : Text → List Ticket → List Ticket
spend cid ts = change_if (λ (t : Ticket). text_eq cid t.id) use_up ts

-- What the request carries: the code, the device's label, the address, and the token and the id
-- that are drawn.
pub record Enrolling : Type 0 where
  pub typed : Text
  pub label : Json
  pub ip : Text
  pub token : Text
  pub phone : Text

abbrev pub add_enrolled : Lib → Enrolling → Text → ℕ → Db → Ticket → Person → Db
add_enrolled lib q label now db t p =
    let phid = phone_id_of lib q.phone in
    note enrol (some p.id) (some phid) (some (take 60 label)) true (record db {
      enrol_codes = spend t.id db.enrol_codes;
      phones = db.phones ++ (new_phone lib p.id phid label q.token now ∷ []);
    })

abbrev pub enrol_unused :
    Lib → Enrolling → Text → ℕ → Db → Ticket → Person → Option Ticket → Db × Outcome Device
enrol_unused lib q label now db t p none = (db, raise 403 invalid_code)
enrol_unused lib q label now db t p (some u) = (
  add_enrolled lib q label now db t p,
  returned (device_for (phone_id_of lib q.phone) q.token none p now),
)

abbrev pub enrol_person :
    Lib → Enrolling → Text → ℕ → Db → Ticket → Option Person → Db × Outcome Device
enrol_person lib q label now db t none = (db, raise 403 invalid_code)
enrol_person lib q label now db t (some p) =
    if at_limit p.id now db
    then (db, raise 409 device_limit)
    else enrol_unused lib q label now db t p (first_of (is_unused t.id) db.enrol_codes)

abbrev pub enrol_ticket : Lib → Enrolling → Text → ℕ → Db → Option Ticket → Db × Outcome Device
enrol_ticket lib q label now db none = (
  note enrol_failed none none none false (count_attempt (codes "enrol") q.ip false now db),
  raise 403 invalid_code,
)
enrol_ticket lib q label now db (some t) =
    enrol_person lib q label now db t (if_active (person_of t.person_id db))

abbrev pub enrol_labelled : Lib → Enrolling → ℕ → Db → Option Text → Db × Outcome Device
enrol_labelled lib q now db none = (db, raise 400 invalid_device)
enrol_labelled lib q now db (some label) =
    enrol_ticket lib q label now db (if_open now (ticket_of lib (norm_code lib q.typed) db))

-- `enrol`
unfoldable pub enrol_with : Lib → Enrolling → ℕ → Method Device
unfolding enrol_fails label_of ticket_of norm_code person_of active_phones_of active_phones first_of
    change_if phone_id_of text_eq
enrol_with lib q now db =
    if leb enrol_fail_limit (enrol_fails q.ip now db)
    then (db, raise 429 too_many_attempts)
    else enrol_labelled lib q now db (label_of lib q.label)
