-- ===== src/People/Requests/Frame.antt =====
-- What the methods of portal/gateway/gw/people.py leave alone: the people, the enrolment codes
-- and the phones, as far as a method writes none of them.
use minisserver_compose.Prelude.Json.{Json}
use minisserver_compose.Prelude.{Bool, Option, Table, ℕ, ◌≡◌, Text, arith}
use minisserver_compose.People.{Actor, Db, Lib}
use minisserver_compose.People.Setup.{create_setup_link, setup_begin, setup_complete_with, link}
use minisserver_compose.People.Admins.{create, patch, reset_credentials, get, commit}
use minisserver_compose.People.Login.{
  Typed, Drawn, login_with, app_login_with, check_login, set_step,
}
use minisserver_compose.People.Enrol.{Enrolling, create_enrolment_code, enrol_with}
use minisserver_compose.People.Phones.{
  new_update_key, phone_principal, slide_if, close_phone, revoke_phone,
}
use minisserver_compose.People.Sessions.{
  create_app_session, session_principal, end_session, touch_if,
}

abbrev pub SamePeople : Db → Db → Type 0
SamePeople old new = new.people ≡ old.people

abbrev pub SameCodes : Db → Db → Type 0
SameCodes old new = new.enrol_codes ≡ old.enrol_codes

abbrev pub SamePhones : Db → Db → Type 0
SamePhones old new = new.phones ≡ old.phones

pub reset_credentials-Same :
    (actor : Actor) (pid : Text) (db : Db)
    → SamePeople db (reset_credentials actor pid db).0
      × SameCodes db (reset_credentials actor pid db).0
      × SamePhones db (reset_credentials actor pid db).0
unfolding reset_credentials
reset_credentials-Same actor pid db = (ground arith, ground arith, ground arith)

pub create_setup_link-Same :
    (lib : Lib) (actor : Actor) (pid raw lid : Text) (now : ℕ) (db : Db)
    → SamePeople db (create_setup_link lib actor pid raw lid now db).0
      × SameCodes db (create_setup_link lib actor pid raw lid now db).0
      × SamePhones db (create_setup_link lib actor pid raw lid now db).0
unfolding create_setup_link get
create_setup_link-Same lib actor pid raw lid now db = (ground arith, ground arith, ground arith)

pub setup_begin-Same :
    (lib : Lib) (raw fresh : Text) (now : ℕ) (db : Db)
    → SamePeople db (setup_begin lib raw fresh now db).0
      × SameCodes db (setup_begin lib raw fresh now db).0
      × SamePhones db (setup_begin lib raw fresh now db).0
unfolding setup_begin link get
setup_begin-Same lib raw fresh now db = (ground arith, ground arith, ground arith)

pub setup_complete_with-Same :
    (lib : Lib) (salt raw password code : Text) (now : ℕ) (db : Db)
    → SamePeople db (setup_complete_with lib salt raw password code now db).0
      × SameCodes db (setup_complete_with lib salt raw password code now db).0
      × SamePhones db (setup_complete_with lib salt raw password code now db).0
unfolding setup_complete_with link
setup_complete_with-Same lib salt raw password code now db =
    (ground arith, ground arith, ground arith)

pub check_login-Same :
    (lib : Lib) (t : Typed) (now : ℕ) (db : Db)
    → SamePeople db (check_login lib t now db).0
      × SameCodes db (check_login lib t now db).0
      × SamePhones db (check_login lib t now db).0
unfolding check_login set_step
check_login-Same lib t now db = (ground arith, ground arith, ground arith)

pub login_with-Same :
    (lib : Lib) (raw csrf : Text) (t : Typed) (now : ℕ) (db : Db)
    → SamePeople db (login_with lib raw csrf t now db).0
      × SameCodes db (login_with lib raw csrf t now db).0
      × SamePhones db (login_with lib raw csrf t now db).0
unfolding login_with
login_with-Same lib raw csrf t now db = (
  ground (arith, (check_login-Same lib t now db).0),
  ground (arith, (check_login-Same lib t now db).1),
  ground (arith, (check_login-Same lib t now db).2),
)

pub create_app_session-Same :
    (lib : Lib) (pid phid raw csrf : Text) (now : ℕ) (db : Db)
    → SamePeople db (create_app_session lib pid phid raw csrf now db).0
      × SameCodes db (create_app_session lib pid phid raw csrf now db).0
      × SamePhones db (create_app_session lib pid phid raw csrf now db).0
unfolding create_app_session
create_app_session-Same lib pid phid raw csrf now db = (ground arith, ground arith, ground arith)

pub session_principal-Same :
    (lib : Lib) (raw : Text) (now : ℕ) (db : Db)
    → SamePeople db (session_principal lib raw now db).0
      × SameCodes db (session_principal lib raw now db).0
      × SamePhones db (session_principal lib raw now db).0
unfolding session_principal end_session touch_if
session_principal-Same lib raw now db = (ground arith, ground arith, ground arith)

pub create_enrolment_code-Same :
    (lib : Lib) (actor : Actor) (pid raw cid : Text) (now : ℕ) (db : Db)
    → SamePeople db (create_enrolment_code lib actor pid raw cid now db).0
      × SamePhones db (create_enrolment_code lib actor pid raw cid now db).0
unfolding create_enrolment_code get
create_enrolment_code-Same lib actor pid raw cid now db = (ground arith, ground arith)

pub create-Same :
    (lib : Lib) (actor : Actor) (name role : Json) (parent : Bool) (web : Option Bool) (now : ℕ)
    (db : Db)
    → SameCodes db (create lib actor name role parent web now db).0
      × SamePhones db (create lib actor name role parent web now db).0
unfolding create get
create-Same lib actor name role parent web now db = (ground arith, ground arith)

pub patch-Same :
    (lib : Lib) (actor : Actor) (pid : Text) (fields : Table Json) (now : ℕ) (db : Db)
    → SameCodes db (patch lib actor pid fields now db).0
unfolding patch commit get
patch-Same lib actor pid fields now db = ground arith

pub app_login_with-Same :
    (lib : Lib) (drawn : Drawn) (t : Typed) (device : Json) (now : ℕ) (db : Db)
    → SamePeople db (app_login_with lib drawn t device now db).0
      × SameCodes db (app_login_with lib drawn t device now db).0
unfolding app_login_with new_update_key
app_login_with-Same lib drawn t device now db = (
  ground (arith, (check_login-Same lib t now db).0),
  ground (arith, (check_login-Same lib t now db).1),
)

pub enrol_with-Same :
    (lib : Lib) (q : Enrolling) (now : ℕ) (db : Db) → SamePeople db (enrol_with lib q now db).0
unfolding enrol_with
enrol_with-Same lib q now db = ground arith

pub phone_principal-Same :
    (lib : Lib) (raw : Text) (now : ℕ) (db : Db)
    → SamePeople db (phone_principal lib raw now db).0
      × SameCodes db (phone_principal lib raw now db).0
unfolding phone_principal slide_if
phone_principal-Same lib raw now db = (ground arith, ground arith)

pub revoke_phone-Same :
    (actor : Actor) (phid : Text) (db : Db)
    → SamePeople db (revoke_phone actor phid db).0 × SameCodes db (revoke_phone actor phid db).0
unfolding revoke_phone close_phone
revoke_phone-Same actor phid db = (ground arith, ground arith)
