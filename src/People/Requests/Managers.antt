-- ===== src/People/Requests/Managers.antt =====
-- An active admin remains, whatever is asked of portal/gateway/gw/people.py.
use minisserver_compose.Prelude.{ℕ, sym, subst, List, [], ◌∷◌}
use minisserver_compose.People.{Db, Lib}
use minisserver_compose.People.Admins.Kept.{IsManaged, create-IsManaged, patch-IsManaged}
use minisserver_compose.People.Phones.{mint_update_key, new_update_key, app_logout_of, close_phone}
use minisserver_compose.People.Sessions.{end_session, logout_of}
use minisserver_compose.People.Requests.{
  Request, creates, patches, resets, gives_link, begins_setup, completes_setup, logs_in,
  app_logs_in, opens_app_session, shows_session, logs_out, gives_code, enrols, shows_token,
  mints_key, app_logs_out, revokes, serve, serve_all,
}
use minisserver_compose.People.Requests.Frame.{
  reset_credentials-Same, create_setup_link-Same, setup_begin-Same, setup_complete_with-Same,
  login_with-Same, create_app_session-Same, session_principal-Same, create_enrolment_code-Same,
  app_login_with-Same, enrol_with-Same, phone_principal-Same, revoke_phone-Same,
}

serve-IsManaged :
    (lib : Lib) (now : ℕ) (r : Request) (db : Db)
    → IsManaged db.people
    → IsManaged (serve lib now r db).people
unfolding serve mint_update_key new_update_key app_logout_of close_phone logout_of end_session
serve-IsManaged lib now (creates actor name role parent web) db h =
    create-IsManaged lib actor name role parent web now db h
serve-IsManaged lib now (patches actor pid fields) db h =
    patch-IsManaged lib actor pid fields now db h
serve-IsManaged lib now (resets actor pid) db h =
    subst IsManaged (sym ((reset_credentials-Same actor pid db).0)) h
serve-IsManaged lib now (gives_link actor pid raw lid) db h =
    subst IsManaged (sym ((create_setup_link-Same lib actor pid raw lid now db).0)) h
serve-IsManaged lib now (begins_setup raw fresh) db h =
    subst IsManaged (sym ((setup_begin-Same lib raw fresh now db).0)) h
serve-IsManaged lib now (completes_setup salt raw password code) db h =
    subst IsManaged (sym ((setup_complete_with-Same lib salt raw password code now db).0)) h
serve-IsManaged lib now (logs_in raw csrf typed) db h =
    subst IsManaged (sym ((login_with-Same lib raw csrf typed now db).0)) h
serve-IsManaged lib now (app_logs_in drawn typed device) db h =
    subst IsManaged (sym ((app_login_with-Same lib drawn typed device now db).0)) h
serve-IsManaged lib now (opens_app_session pid phid raw csrf) db h =
    subst IsManaged (sym ((create_app_session-Same lib pid phid raw csrf now db).0)) h
serve-IsManaged lib now (shows_session raw) db h =
    subst IsManaged (sym ((session_principal-Same lib raw now db).0)) h
serve-IsManaged lib now (logs_out pid sid) db h = h
serve-IsManaged lib now (gives_code actor pid raw cid) db h =
    subst IsManaged (sym ((create_enrolment_code-Same lib actor pid raw cid now db).0)) h
serve-IsManaged lib now (enrols q) db h = subst IsManaged (sym (enrol_with-Same lib q now db)) h
serve-IsManaged lib now (shows_token raw) db h =
    subst IsManaged (sym ((phone_principal-Same lib raw now db).0)) h
serve-IsManaged lib now (mints_key who phid drawn) db h = h
serve-IsManaged lib now (app_logs_out pid phid) db h = h
serve-IsManaged lib now (revokes actor phid) db h =
    subst IsManaged (sym ((revoke_phone-Same actor phid db).0)) h

-- Where the ids of the people are distinct and one of them is an active admin, both stay so through
-- every sequence of requests to the methods that write, whatever they ask and whenever they come.
pub serve_all-IsManaged :
    (lib : Lib) (rs : List (ℕ × Request)) (db : Db)
    → IsManaged db.people
    → IsManaged (serve_all lib rs db).people
unfolding serve_all
serve_all-IsManaged lib [] db h = h
serve_all-IsManaged lib ((now, r) ∷ rs) db h =
    serve_all-IsManaged lib rs (serve lib now r db) (serve-IsManaged lib now r db h)
