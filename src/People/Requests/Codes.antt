-- ===== src/People/Requests/Codes.antt =====
-- An enrolment code of portal/gateway/gw/people.py that is used stays used.
use minisserver_compose.Prelude.{
  ℕ, ◌≡◌, ◌≢◌, refl, sym, ap, ◌∙◌, subst, Bool, not, Option, none, some, List, [], ◌∷◌, Text,
  text_eq_refl, first_of, change_if, first_of-change_if_same, FirstIs, FirstIs-append,
  FirstIs-change_if, arith, if-both, leb, if◌then◌else◌,
}
use minisserver_compose.People.{
  Actor, Db, Lib, Ticket, Person, Outcome, returned, raised, after, person_of, at_limit,
}
use minisserver_compose.People.Admins.{Row, row_or, get}
use minisserver_compose.People.Setup.{is_open_of, use_up, has_hash}
use minisserver_compose.People.Login.{Device}
use minisserver_compose.People.Enrol.{
  enrol_fail_limit, enrol_fails, create_enrolment_code, give_code, enrol_unused, is_unused,
  Enrolling, enrol_with, enrol_labelled, enrol_ticket, enrol_person, spend, if_open, ticket_of,
}
use minisserver_compose.People.Phones.{
  mint_update_key, new_update_key, app_logout_of, close_phone, if_active, label_of,
}
use minisserver_compose.People.Totp.{norm_code}
use minisserver_compose.People.Sessions.{end_session, logout_of}
use minisserver_compose.People.Requests.{
  Request, creates, patches, resets, gives_link, begins_setup, completes_setup, logs_in,
  app_logs_in, opens_app_session, shows_session, logs_out, gives_code, enrols, shows_token,
  mints_key, app_logs_out, revokes, serve, serve_all,
}
use minisserver_compose.People.Requests.Frame.{
  reset_credentials-Same, create_setup_link-Same, setup_begin-Same, setup_complete_with-Same,
  login_with-Same, create_app_session-Same, session_principal-Same, create-Same, patch-Same,
  app_login_with-Same, phone_principal-Same, revoke_phone-Same,
}

-- The first ticket with this hash is used.
abbrev pub IsUsed : Text → List Ticket → Type 0
IsUsed h ts = FirstIs (has_hash h) (λ (t : Ticket). t.used) ts

change-IsUsed :
    (h : Text) (p : Ticket → Bool) (ts : List Ticket)
    → IsUsed h ts
    → IsUsed h (change_if p use_up ts)
change-IsUsed h p ts u =
    FirstIs-change_if (has_hash h) (λ (t : Ticket). t.used) p use_up ts (λ t. refl) (λ t e. refl) u

-- What a method that ended so leaves behind.
abbrev Leaves {ℓ} : {A : Type ℓ} → Text → Db × Outcome A → Type 0
Leaves h (db, o) = IsUsed h db.enrol_codes

give_code-IsUsed :
    (h : Text) (lib : Lib) (actor : Actor) (pid raw cid : Text) (now : ℕ) (p : Person) (db : Db)
    → IsUsed h db.enrol_codes
    → Leaves h (give_code lib actor pid raw cid now p db)
give_code-IsUsed h lib actor pid raw cid now p db u =
    let spent = change-IsUsed h (is_open_of pid) db.enrol_codes u in
    if-both (Leaves h) (not p.active) u
      (if-both (Leaves h) (at_limit pid now db) u (FirstIs-append _ _ _ _ spent))

create_enrolment_code-IsUsed :
    (h : Text) (lib : Lib) (actor : Actor) (pid raw cid : Text) (now : ℕ) (db : Db)
    → IsUsed h db.enrol_codes
    → Leaves h (create_enrolment_code lib actor pid raw cid now db)
unfolding create_enrolment_code get
create_enrolment_code-IsUsed h lib actor pid raw cid now db u =
    go (row_or now db (person_of pid db))
  where
    go :
        (o : Outcome Row)
        → Leaves h (after (db, o) λ same row. give_code lib actor pid raw cid now row.person same)
    go (raised e) = u
    go (returned row) = give_code-IsUsed h lib actor pid raw cid now row.person db u

module _ (h : Text) (lib : Lib) (q : Enrolling) (now : ℕ) (db : Db)
    (u : IsUsed h db.enrol_codes) where
  enrol_unused-IsUsed :
      (label : Text) (t : Ticket) (p : Person) (o : Option Ticket)
      → Leaves h (enrol_unused lib q label now db t p o)
  enrol_unused-IsUsed label t p none = u
  enrol_unused-IsUsed label t p (some v) = change-IsUsed h _ db.enrol_codes u

  enrol_ticket-IsUsed :
      (label : Text) (o : Option Ticket) → Leaves h (enrol_ticket lib q label now db o)
  enrol_ticket-IsUsed label none = u
  enrol_ticket-IsUsed label (some t) = go (if_active (person_of t.person_id db))
    where
      go : (o : Option Person) → Leaves h (enrol_person lib q label now db t o)
      go none = u
      go (some p) =
          if-both (Leaves h) (at_limit p.id now db) u
            (enrol_unused-IsUsed label t p (first_of (is_unused t.id) db.enrol_codes))

  enrol_labelled-IsUsed : (o : Option Text) → Leaves h (enrol_labelled lib q now db o)
  enrol_labelled-IsUsed none = u
  enrol_labelled-IsUsed (some label) =
      enrol_ticket-IsUsed label (if_open now (ticket_of lib (norm_code lib q.typed) db))

  enrol_with-IsUsed : Leaves h (enrol_with lib q now db)
  unfolding enrol_with
  enrol_with-IsUsed =
      if-both (Leaves h) (leb enrol_fail_limit (enrol_fails q.ip now db)) u
        (enrol_labelled-IsUsed (label_of lib q.label))

serve-IsUsed :
    (k : Text) (lib : Lib) (now : ℕ) (r : Request) (db : Db)
    → IsUsed k db.enrol_codes
    → IsUsed k (serve lib now r db).enrol_codes
unfolding serve mint_update_key new_update_key app_logout_of close_phone logout_of end_session
serve-IsUsed k lib now (creates actor name role parent web) db h =
    subst (IsUsed k) (sym ((create-Same lib actor name role parent web now db).0)) h
serve-IsUsed k lib now (patches actor pid fields) db h =
    subst (IsUsed k) (sym (patch-Same lib actor pid fields now db)) h
serve-IsUsed k lib now (resets actor pid) db h =
    subst (IsUsed k) (sym ((reset_credentials-Same actor pid db).1)) h
serve-IsUsed k lib now (gives_link actor pid raw lid) db h =
    subst (IsUsed k) (sym ((create_setup_link-Same lib actor pid raw lid now db).1)) h
serve-IsUsed k lib now (begins_setup raw fresh) db h =
    subst (IsUsed k) (sym ((setup_begin-Same lib raw fresh now db).1)) h
serve-IsUsed k lib now (completes_setup salt raw password code) db h =
    subst (IsUsed k) (sym ((setup_complete_with-Same lib salt raw password code now db).1)) h
serve-IsUsed k lib now (logs_in raw csrf typed) db h =
    subst (IsUsed k) (sym ((login_with-Same lib raw csrf typed now db).1)) h
serve-IsUsed k lib now (app_logs_in drawn typed device) db h =
    subst (IsUsed k) (sym ((app_login_with-Same lib drawn typed device now db).1)) h
serve-IsUsed k lib now (opens_app_session pid phid raw csrf) db h =
    subst (IsUsed k) (sym ((create_app_session-Same lib pid phid raw csrf now db).1)) h
serve-IsUsed k lib now (shows_session raw) db h =
    subst (IsUsed k) (sym ((session_principal-Same lib raw now db).1)) h
serve-IsUsed k lib now (logs_out pid sid) db h = h
serve-IsUsed k lib now (gives_code actor pid raw cid) db h =
    create_enrolment_code-IsUsed k lib actor pid raw cid now db h
serve-IsUsed k lib now (enrols q) db h = enrol_with-IsUsed k lib q now db h
serve-IsUsed k lib now (shows_token raw) db h =
    subst (IsUsed k) (sym ((phone_principal-Same lib raw now db).1)) h
serve-IsUsed k lib now (mints_key who phid drawn) db h = h
serve-IsUsed k lib now (app_logs_out pid phid) db h = h
serve-IsUsed k lib now (revokes actor phid) db h =
    subst (IsUsed k) (sym ((revoke_phone-Same actor phid db).1)) h

serve_all-IsUsed :
    (k : Text) (lib : Lib) (rs : List (ℕ × Request)) (db : Db)
    → IsUsed k db.enrol_codes
    → IsUsed k (serve_all lib rs db).enrol_codes
unfolding serve_all
serve_all-IsUsed k lib [] db h = h
serve_all-IsUsed k lib ((now, r) ∷ rs) db h =
    serve_all-IsUsed k lib rs (serve lib now r db) (serve-IsUsed k lib now r db h)

spend-IsUsed :
    (h : Text) (t : Ticket) (ts : List Ticket)
    → first_of (has_hash h) ts ≡ some t
    → IsUsed h (spend t.id ts)
spend-IsUsed h t ts found =
    let kept = first_of-change_if_same _ (has_hash h) use_up ts (λ x. refl) found in
    (use_up t, kept ∙ ap (λ (b : Bool). some (if b then use_up t else t)) (text_eq_refl t.id), refl)

ticket_of-first_of :
    (lib : Lib) (norm : Text) (db : Db) (t : Ticket)
    → ticket_of lib norm db ≡ some t
    → first_of (has_hash (lib.sha norm)) db.enrol_codes ≡ some t
unfolding ticket_of
ticket_of-first_of lib norm db t h = ground arith

if_open-eq : (now : ℕ) (o : Option Ticket) (t : Ticket) → if_open now o ≡ some t → o ≡ some t
if_open-eq now none t h = absurd (cc)
if_open-eq now (some u) t h = ground arith

-- Whoever is enrolled has spent the code.
abbrev Spends : {A : Type 0} → Text → Db × Outcome A → Type 0
Spends {A} h (db, o) = (d : A) → o ≡ returned d → IsUsed h db.enrol_codes

module _ (lib : Lib) (q : Enrolling) (now : ℕ) (db : Db) (h : Text) where
  enrol_unused-Spends :
      (label : Text) (t : Ticket) (p : Person) (o : Option Ticket)
      → first_of (has_hash h) db.enrol_codes ≡ some t
      → Spends h (enrol_unused lib q label now db t p o)
  enrol_unused-Spends label t p none found = λ d e. absurd (cc)
  enrol_unused-Spends label t p (some v) found = λ d e. spend-IsUsed h t db.enrol_codes found

  enrol_ticket-Spends :
      (label : Text) (o : Option Ticket)
      → ((t : Ticket) → o ≡ some t → first_of (has_hash h) db.enrol_codes ≡ some t)
      → Spends h (enrol_ticket lib q label now db o)
  enrol_ticket-Spends label none found = λ d e. absurd (cc)
  enrol_ticket-Spends label (some t) found = go (if_active (person_of t.person_id db))
    where
      go : (o : Option Person) → Spends h (enrol_person lib q label now db t o)
      go none = λ d e. absurd (cc)
      go (some p) =
          if-both (Spends h) (at_limit p.id now db) (λ d e. absurd (cc))
            (enrol_unused-Spends label t p (first_of (is_unused t.id) db.enrol_codes)
              (found t refl))

enrol_with-Spends :
    (lib : Lib) (q : Enrolling) (now : ℕ) (db : Db)
    → Spends (lib.sha (norm_code lib q.typed)) (enrol_with lib q now db)
unfolding enrol_with
enrol_with-Spends lib q now db =
    if-both (Spends h) (leb enrol_fail_limit (enrol_fails q.ip now db)) (λ d e. absurd (cc))
      (go (label_of lib q.label))
  where
    h : Text
    h = lib.sha (norm_code lib q.typed)

    go : (o : Option Text) → Spends h (enrol_labelled lib q now db o)
    go none = λ d e. absurd (cc)
    go (some label) =
        enrol_ticket-Spends lib q now db h label _
          λ t e. ticket_of-first_of lib (norm_code lib q.typed) db t (if_open-eq now _ t e)

used_closed :
    (lib : Lib) (norm : Text) (now : ℕ) (db : Db)
    → IsUsed (lib.sha norm) db.enrol_codes
    → if_open now (ticket_of lib norm db) ≡ none
unfolding ticket_of
used_closed lib norm now db (t, found, used) = ground (arith, found, used)

closed_refused :
    (lib : Lib) (q : Enrolling) (now : ℕ) (db : Db) (d : Device)
    → if_open now (ticket_of lib (norm_code lib q.typed) db) ≡ none
    → (enrol_with lib q now db).1 ≢ returned d
unfolding enrol_with
closed_refused lib q now db d closed h = absurd (ground (arith, closed))

-- An enrolment code works once: after an enrolment that succeeded, whatever requests come in
-- between, no later enrolment with the same code succeeds, from whatever address and at whatever
-- time.
pub enrol_with_once :
    (lib : Lib) (q : Enrolling) (now : ℕ) (db : Db) (d : Device)
    → (enrol_with lib q now db).1 ≡ returned d
    → (rs : List (ℕ × Request)) (again : Enrolling) (later : ℕ) (e : Device)
    → norm_code lib again.typed ≡ norm_code lib q.typed
    → (enrol_with lib again later (serve_all lib rs (enrol_with lib q now db).0)).1 ≢ returned e
enrol_with_once lib q now db d done rs again later e same =
    let h = lib.sha (norm_code lib q.typed) in
    let used =
      serve_all-IsUsed h lib rs (enrol_with lib q now db).0
        (enrol_with-Spends lib q now db d done) in
    let db2 = serve_all lib rs (enrol_with lib q now db).0 in
    let used_again = subst (λ (x : Text). IsUsed (lib.sha x) db2.enrol_codes) (sym same) used in
    closed_refused lib again later db2 e
      (used_closed lib (norm_code lib again.typed) later db2 used_again)
