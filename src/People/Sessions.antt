-- ===== src/People/Sessions.antt =====
-- The web sessions of portal/gateway/gw/people.py.
pub mod Timed
use minisserver_compose.Prelude.{
  ℕ, ◌+◌, Bool, true, false, not, ◌&&◌, ◌||◌, Option, none, some, [], ◌∷◌, ◌++◌, ltb, min,
  if◌then◌else◌, Text, text_eq, first_of, change_if, drop_if,
}
use minisserver_compose.People.{
  internal, Outcome, returned, raised, raise, Person, Session, Phone, app_session, logout, Db,
  Method, Lib, seconds, session_idle, session_abs, person_of, note,
}
use minisserver_compose.People.Phones.{Principal, phone_of, phone_ok, is_by, is_some, if_active}

abbrev pub is_session : Text → Session → Bool
is_session sid s = text_eq sid s.id

unfoldable pub session_of : Text → Db → Option Session
unfolding first_of text_eq
session_of sid db = first_of (is_session sid) db.sessions

-- What `session_view` shows, with times for their texts.
pub record View : Type 0 where
  pub person : Person
  pub csrf : Text
  pub expires_at : ℕ
  pub idle_expires_at : ℕ
  pub app : Bool

abbrev view_from : Db → Option Session → Outcome View
view_from db none = raise 500 internal
view_from db (some s) = elim (person_of s.person_id db) [
  | none ↦ raise 500 internal
  | some p ↦ returned (record {
    person = p;
    csrf = s.csrf;
    expires_at = s.abs_exp;
    idle_expires_at = min s.abs_exp (s.last + session_idle);
    app = is_some s.phone_id;
  })
]

unfoldable pub session_view : Text → Db → Outcome View
unfolding session_of person_of
session_view sid db = view_from db (session_of sid db)

-- A dead session of this phone.
abbrev is_dead : Text → ℕ → Session → Bool
is_dead phid now s = is_by phid s && (ltb s.abs_exp now || ltb (s.last + session_idle) now)

abbrev open_session : Lib → Text → Text → Text → ℕ → Option Phone → Db → Db
open_session lib pid raw csrf now none db = db
open_session lib pid raw csrf now (some ph) db =
    note app_session (some pid) (some ph.id) none true (record db {
      sessions =
          drop_if (is_dead ph.id now) db.sessions
          ++ (record {
            id = lib.sha raw;
            person_id = pid;
            csrf = csrf;
            last = now;
            abs_exp = min (now + session_abs) ph.expires;
            phone_id = some ph.id;
          }
              ∷ []);
    })

abbrev shown : Lib → Text → Option Phone → Db → Outcome (Text × View)
shown lib raw none db = raise 500 internal
shown lib raw (some ph) db = elim (session_view (lib.sha raw) db) [
  | raised e ↦ raised e
  | returned v ↦ returned (raw, v)
]

-- `create_app_session`, with the tokens that it draws.
unfoldable pub create_app_session : Lib → Text → Text → Text → Text → ℕ → Method (Text × View)
unfolding phone_of drop_if text_eq session_view
create_app_session lib pid phid raw csrf now db =
    let opened = open_session lib pid raw csrf now (phone_of phid db) db in
    (opened, shown lib raw (phone_of phid db) opened)

abbrev pub is_over : ℕ → Session → Bool
is_over now s = ltb s.abs_exp now || ltb (s.last + session_idle) now

abbrev pub if_web : Option Person → Option Person
if_web none = none
if_web (some p) = if p.web_login then some p else none

-- An app's session is as good as its phone; the others need web login.
abbrev pub bearer : ℕ → Db → Session → Option Text → Option Person
bearer now db s (some phid) = if phone_ok phid now db then person_of s.person_id db else none
bearer now db s none = if_web (if_active (person_of s.person_id db))

unfoldable pub end_session : Text → Db → Db
unfolding drop_if text_eq
end_session sid db = record db { sessions = drop_if (is_session sid) db.sessions }

abbrev pub touch : ℕ → Session → Session
touch now s = record s { last = now }

unfoldable pub touch_if : Text → ℕ → Session → Db → Db
unfolding change_if text_eq
touch_if sid now s db =
    if ltb (s.last + seconds 60) now
    then record db { sessions = change_if (is_session sid) (touch now) db.sessions }
    else db

abbrev pub admit : Text → ℕ → Db → Session → Option Person → Db × Option Principal
admit sid now db s none = (end_session sid db, none)
admit sid now db s (some p) =
    (touch_if sid now s db, some (record { person = p; phone_id = s.phone_id }))

abbrev pub resume : Text → ℕ → Db → Option Session → Db × Option Principal
resume sid now db none = (db, none)
resume sid now db (some s) =
    if is_over now s
    then (end_session sid db, none)
    else admit sid now db s (bearer now db s s.phone_id)

-- `session_principal`
unfoldable pub session_principal : Lib → Text → ℕ → Db → Db × Option Principal
unfolding session_of person_of phone_ok end_session touch_if text_eq
session_principal lib raw now db =
    if text_eq raw []
    then (db, none)
    else let sid = lib.sha raw in resume sid now db (session_of sid db)

-- `session_principal_raw_valid`
abbrev phone_stands : ℕ → Db → Option Text → Bool
phone_stands now db none = true
phone_stands now db (some phid) = phone_ok phid now db

unfoldable pub session_valid : Text → ℕ → Db → Bool
unfolding session_of phone_ok
session_valid sid now db = elim (session_of sid db) [
  | none ↦ false
  | some s ↦ not (is_over now s) && phone_stands now db s.phone_id
]

-- `logout` of a principal that has a session.
unfoldable pub logout_of : Text → Text → Db → Db
unfolding end_session
logout_of pid sid db = note logout (some pid) none none true (end_session sid db)
