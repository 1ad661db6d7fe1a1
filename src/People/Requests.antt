-- ===== src/People/Requests.antt =====
-- The methods of `People` that write, as requests that come one after the other.
pub mod Frame
pub mod Managers
pub mod Codes
pub mod Tokens
use minisserver_compose.Prelude.{
  ℕ, ◌≡◌, refl, Bool, true, false, Option, none, some, List, [], ◌∷◌, Text, Table, lookup, put,
  first_of, change_if, drop_if,
}
use minisserver_compose.Prelude.Json.{Json}
use minisserver_compose.People.{Actor, Lib, Db, Outcome, returned, raised}
use minisserver_compose.People.Admins.{create, patch, reset_credentials}
use minisserver_compose.People.Setup.{create_setup_link, setup_begin, setup_complete_with}
use minisserver_compose.People.Login.{Typed, Drawn, login_with, app_login_with}
use minisserver_compose.People.Enrol.{Enrolling, create_enrolment_code, enrol_with}
use minisserver_compose.People.Phones.{
  Principal, mint_update_key, phone_principal, app_logout_of, revoke_phone,
}
use minisserver_compose.People.Sessions.{create_app_session, session_principal, logout_of}

pub data Request : Type 0 where
  creates : Actor → Json → Json → Bool → Option Bool → Request
  patches : Actor → Text → Table Json → Request
  resets : Actor → Text → Request
  gives_link : Actor → Text → Text → Text → Request
  begins_setup : Text → Text → Request
  completes_setup : Text → Text → Text → Text → Request
  logs_in : Text → Text → Typed → Request
  app_logs_in : Drawn → Typed → Json → Request
  opens_app_session : Text → Text → Text → Text → Request
  shows_session : Text → Request
  logs_out : Text → Text → Request
  gives_code : Actor → Text → Text → Text → Request
  enrols : Enrolling → Request
  shows_token : Text → Request
  mints_key : Principal → Text → Text → Request
  app_logs_out : Text → Text → Request
  revokes : Actor → Text → Request

-- What a request leaves behind.
unfoldable pub serve : Lib → ℕ → Request → Db → Db
unfolding create patch reset_credentials create_setup_link setup_begin setup_complete_with
    login_with app_login_with create_app_session session_principal logout_of create_enrolment_code
    enrol_with phone_principal mint_update_key app_logout_of revoke_phone
serve lib now (creates actor name role parent web) db =
    (create lib actor name role parent web now db).0
serve lib now (patches actor pid fields) db = (patch lib actor pid fields now db).0
serve lib now (resets actor pid) db = (reset_credentials actor pid db).0
serve lib now (gives_link actor pid raw lid) db = (create_setup_link lib actor pid raw lid now db).0
serve lib now (begins_setup raw fresh) db = (setup_begin lib raw fresh now db).0
serve lib now (completes_setup salt raw password code) db =
    (setup_complete_with lib salt raw password code now db).0
serve lib now (logs_in raw csrf typed) db = (login_with lib raw csrf typed now db).0
serve lib now (app_logs_in drawn typed device) db = (app_login_with lib drawn typed device now db).0
serve lib now (opens_app_session pid phid raw csrf) db =
    (create_app_session lib pid phid raw csrf now db).0
serve lib now (shows_session raw) db = (session_principal lib raw now db).0
serve lib now (logs_out pid sid) db = logout_of pid sid db
serve lib now (gives_code actor pid raw cid) db =
    (create_enrolment_code lib actor pid raw cid now db).0
serve lib now (enrols q) db = (enrol_with lib q now db).0
serve lib now (shows_token raw) db = (phone_principal lib raw now db).0
serve lib now (mints_key who phid drawn) db = (mint_update_key lib who phid drawn db).0
serve lib now (app_logs_out pid phid) db = app_logout_of pid phid db
serve lib now (revokes actor phid) db = (revoke_phone actor phid db).0

unfoldable pub serve_all : Lib → List (ℕ × Request) → Db → Db
unfolding serve
serve_all lib [] db = db
serve_all lib ((now, r) ∷ rs) db = serve_all lib rs (serve lib now r db)
