-- ===== src/People/Requests/Tokens.antt =====
-- A phone of portal/gateway/gw/people.py that is revoked stays revoked.
use minisserver_compose.Prelude.{
  ℕ, ◌≡◌, refl, sym, ap, ◌∙◌, subst, Bool, true, false, ◌||◌, Option, none, some, List, [], ◌∷◌,
  ◌++◌, Text, text_eq, text_eq_refl, first_of, first_of-true, change_if, first_of-change_if_same,
  FirstIs, FirstIs-append, FirstIs-change_if, arith, Table, if-both, leb, if◌then◌else◌, ◌==◌, ltb,
  ◌+◌,
}
use minisserver_compose.Prelude.Json.{Json}
use minisserver_compose.People.{
  Actor, Db, Lib, Phone, Person, Outcome, returned, raised, after, person_of, at_limit, seconds,
  Ticket,
}
use minisserver_compose.People.Admins.{
  get, patch, patched, patch_to, patch_row, commit, revoke, is_last,
}
use minisserver_compose.People.Login.{
  Typed, Drawn, app_login_with, check_login, register, app_login_as,
}
use minisserver_compose.People.Enrol.{
  Enrolling, enrol_with, enrol_fail_limit, enrol_fails, enrol_unused, is_unused, enrol_labelled,
  enrol_ticket, enrol_person, if_open, ticket_of,
}
use minisserver_compose.People.Totp.{norm_code}
use minisserver_compose.People.Phones.{
  mint_update_key, new_update_key, app_logout_of, close_phone, label_of, phone_principal, slide_if,
  is_phone, has_token, revoke_phone, phone_of, phone_ok, slide, let_in, revoke_row, holder,
  if_active,
}
use minisserver_compose.People.Sessions.{end_session, logout_of}
use minisserver_compose.People.Requests.{
  Request, creates, patches, resets, gives_link, begins_setup, completes_setup, logs_in,
  app_logs_in, opens_app_session, shows_session, logs_out, gives_code, enrols, shows_token,
  mints_key, app_logs_out, revokes, serve, serve_all,
}
use minisserver_compose.People.Requests.Frame.{
  SamePhones, check_login-Same, reset_credentials-Same, create_setup_link-Same, setup_begin-Same,
  setup_complete_with-Same, login_with-Same, create_app_session-Same, session_principal-Same,
  create_enrolment_code-Same, create-Same,
}

abbrev is_revoked : Phone → Bool
is_revoked ph = ph.revoked

-- A test that looks only at what no method changes: the id, or the token's hash.
abbrev IsStable : (Phone → Bool) → Type 0
IsStable q = (x y : Phone) → x.id ≡ y.id → x.token_hash ≡ y.token_hash → q x ≡ q y

module _ (q : Phone → Bool) (stable : IsStable q) where
  abbrev IsRevoked : List Phone → Type 0
  IsRevoked phs = FirstIs q is_revoked phs

  revoke_if-IsRevoked :
      (p : Phone → Bool) (phs : List Phone) → IsRevoked phs → IsRevoked (change_if p revoke phs)
  revoke_if-IsRevoked p phs r =
      FirstIs-change_if q is_revoked p revoke phs (λ y. stable (revoke y) y refl refl) (λ y e. refl)
        r

  close_phone-IsRevoked :
      (phid : Text) (db : Db) → IsRevoked db.phones → IsRevoked (close_phone phid db).phones
  unfolding close_phone
  close_phone-IsRevoked phid db r = revoke_if-IsRevoked (is_phone phid) db.phones r

  new_update_key-IsRevoked :
      (lib : Lib) (phid drawn : Text) (db : Db)
      → IsRevoked db.phones
      → IsRevoked (new_update_key lib phid drawn db).0.phones
  unfolding new_update_key
  new_update_key-IsRevoked lib phid drawn db r =
      FirstIs-change_if q is_revoked (is_phone phid) _ db.phones (λ y. stable _ y refl refl)
        (λ y e. e) r

  slide_if-IsRevoked :
      (now : ℕ) (ph : Phone) (db : Db) → IsRevoked db.phones → IsRevoked (slide_if now ph db).phones
  unfolding slide_if
  slide_if-IsRevoked now ph db r =
      if-both (λ (new : Db). IsRevoked new.phones)
        ((ph.last_seen == 0) || ltb (ph.last_seen + seconds 60) now)
        (FirstIs-change_if q is_revoked (is_phone ph.id) (slide now) db.phones
          (λ y. stable (slide now y) y refl refl) (λ y e. e) r)
        r

  -- What a method that ended so leaves behind.
  abbrev Leaves {ℓ} : {A : Type ℓ} → Db × A → Type 0
  Leaves (db, o) = IsRevoked db.phones

  phone_principal-IsRevoked :
      (lib : Lib) (raw : Text) (now : ℕ) (db : Db)
      → IsRevoked db.phones
      → Leaves (phone_principal lib raw now db)
  unfolding phone_principal
  phone_principal-IsRevoked lib raw now db r =
      if-both Leaves (text_eq raw []) r
        (go (holder now db (first_of (has_token (lib.sha raw)) db.phones)))
    where
      go : (o : Option (Phone × Person)) → Leaves (let_in now db o)
      go none = r
      go (some (ph, p)) = slide_if-IsRevoked now ph db r

  revoke_phone-IsRevoked :
      (actor : Actor) (phid : Text) (db : Db)
      → IsRevoked db.phones
      → Leaves (revoke_phone actor phid db)
  unfolding revoke_phone
  revoke_phone-IsRevoked actor phid db r = go (phone_of phid db)
    where
      go : (o : Option Phone) → Leaves (revoke_row actor phid db o)
      go none = r
      go (some ph) = if-both Leaves _ (close_phone-IsRevoked phid db r) r

  module _ (lib : Lib) (e : Enrolling) (now : ℕ) (db : Db) (r : IsRevoked db.phones) where
    enrol_unused-IsRevoked :
        (label : Text) (t : Ticket) (p : Person) (o : Option Ticket)
        → Leaves (enrol_unused lib e label now db t p o)
    enrol_unused-IsRevoked label t p none = r
    enrol_unused-IsRevoked label t p (some v) = FirstIs-append q is_revoked db.phones _ r

    enrol_ticket-IsRevoked :
        (label : Text) (o : Option Ticket) → Leaves (enrol_ticket lib e label now db o)
    enrol_ticket-IsRevoked label none = r
    enrol_ticket-IsRevoked label (some t) = go (if_active (person_of t.person_id db))
      where
        go : (o : Option Person) → Leaves (enrol_person lib e label now db t o)
        go none = r
        go (some p) =
            if-both Leaves (at_limit p.id now db) r
              (enrol_unused-IsRevoked label t p (first_of (is_unused t.id) db.enrol_codes))

    enrol_labelled-IsRevoked : (o : Option Text) → Leaves (enrol_labelled lib e now db o)
    enrol_labelled-IsRevoked none = r
    enrol_labelled-IsRevoked (some label) =
        enrol_ticket-IsRevoked label (if_open now (ticket_of lib (norm_code lib e.typed) db))

    enrol_with-IsRevoked : Leaves (enrol_with lib e now db)
    unfolding enrol_with
    enrol_with-IsRevoked =
        if-both Leaves (leb enrol_fail_limit (enrol_fails e.ip now db)) r
          (enrol_labelled-IsRevoked (label_of lib e.label))

  register-IsRevoked :
      (lib : Lib) (drawn : Drawn) (label : Text) (now : ℕ) (db : Db) (p : Person)
      → IsRevoked db.phones
      → Leaves (register lib drawn label now db p)
  unfolding new_update_key
  register-IsRevoked lib drawn label now db p r = if-both Leaves (at_limit p.id now db) r (
      new_update_key-IsRevoked lib _ drawn.key (record db { phones = db.phones ++ _ })
        (FirstIs-append q is_revoked db.phones _ r))

  app_login_with-IsRevoked :
      (lib : Lib) (drawn : Drawn) (t : Typed) (device : Json) (now : ℕ) (db : Db)
      → IsRevoked db.phones
      → Leaves (app_login_with lib drawn t device now db)
  unfolding app_login_with
  app_login_with-IsRevoked lib drawn t device now db r = go (label_of lib device)
    where
      signed_in :
          (label : Text) (x : Db × Outcome (Person × Option ℕ))
          → SamePhones db x.0
          → Leaves (after x λ same found. register lib drawn label now same found.0)
      signed_in label (same, raised e) eq = subst IsRevoked (sym eq) r
      signed_in label (same, returned found) eq =
          register-IsRevoked lib drawn label now same found.0 (subst IsRevoked (sym eq) r)

      go : (o : Option Text) → Leaves (app_login_as lib drawn t now db o)
      go none = r
      go (some label) = signed_in label (check_login lib t now db) (check_login-Same lib t now db).2

  patch_to-IsRevoked :
      (actor : Actor) (pid : Text) (cur : Person) (now : ℕ) (o : Outcome Person) (db : Db)
      → IsRevoked db.phones
      → Leaves (patch_to actor pid cur now o db)
  unfolding get commit
  patch_to-IsRevoked actor pid cur now (raised e) db r = r
  patch_to-IsRevoked actor pid cur now (returned new) db r =
      if-both Leaves (is_last pid cur new db) r
        (if-both IsRevoked new.active r (revoke_if-IsRevoked _ db.phones r))

  patch-IsRevoked :
      (lib : Lib) (actor : Actor) (pid : Text) (fields : Table Json) (now : ℕ) (db : Db)
      → IsRevoked db.phones
      → Leaves (patch lib actor pid fields now db)
  unfolding patch
  patch-IsRevoked lib actor pid fields now db r = go (person_of pid db)
    where
      go : (o : Option Person) → Leaves (patch_row lib actor pid fields now o db)
      go none = r
      go (some cur) = patch_to-IsRevoked actor pid cur now (patched lib fields cur) db r

  serve-IsRevoked :
      (lib : Lib) (now : ℕ) (r : Request) (db : Db)
      → IsRevoked db.phones
      → IsRevoked (serve lib now r db).phones
  unfolding serve mint_update_key app_logout_of logout_of end_session
  serve-IsRevoked lib now (creates actor name role parent web) db h =
      subst IsRevoked (sym ((create-Same lib actor name role parent web now db).1)) h
  serve-IsRevoked lib now (patches actor pid fields) db h =
      patch-IsRevoked lib actor pid fields now db h
  serve-IsRevoked lib now (resets actor pid) db h =
      subst IsRevoked (sym ((reset_credentials-Same actor pid db).2)) h
  serve-IsRevoked lib now (gives_link actor pid raw lid) db h =
      subst IsRevoked (sym ((create_setup_link-Same lib actor pid raw lid now db).2)) h
  serve-IsRevoked lib now (begins_setup raw fresh) db h =
      subst IsRevoked (sym ((setup_begin-Same lib raw fresh now db).2)) h
  serve-IsRevoked lib now (completes_setup salt raw password code) db h =
      subst IsRevoked (sym ((setup_complete_with-Same lib salt raw password code now db).2)) h
  serve-IsRevoked lib now (logs_in raw csrf typed) db h =
      subst IsRevoked (sym ((login_with-Same lib raw csrf typed now db).2)) h
  serve-IsRevoked lib now (app_logs_in drawn typed device) db h =
      app_login_with-IsRevoked lib drawn typed device now db h
  serve-IsRevoked lib now (opens_app_session pid phid raw csrf) db h =
      subst IsRevoked (sym ((create_app_session-Same lib pid phid raw csrf now db).2)) h
  serve-IsRevoked lib now (shows_session raw) db h =
      subst IsRevoked (sym ((session_principal-Same lib raw now db).2)) h
  serve-IsRevoked lib now (logs_out pid sid) db h = h
  serve-IsRevoked lib now (gives_code actor pid raw cid) db h =
      subst IsRevoked (sym ((create_enrolment_code-Same lib actor pid raw cid now db).1)) h
  serve-IsRevoked lib now (enrols q') db h = enrol_with-IsRevoked lib q' now db h
  serve-IsRevoked lib now (shows_token raw) db h = phone_principal-IsRevoked lib raw now db h
  serve-IsRevoked lib now (mints_key who phid drawn) db h =
      new_update_key-IsRevoked lib phid drawn db h
  serve-IsRevoked lib now (app_logs_out pid phid) db h = close_phone-IsRevoked phid db h
  serve-IsRevoked lib now (revokes actor phid) db h = revoke_phone-IsRevoked actor phid db h

  serve_all-IsRevoked :
      (lib : Lib) (rs : List (ℕ × Request)) (db : Db)
      → IsRevoked db.phones
      → IsRevoked (serve_all lib rs db).phones
  unfolding serve_all
  serve_all-IsRevoked lib [] db h = h
  serve_all-IsRevoked lib ((now, r) ∷ rs) db h =
      serve_all-IsRevoked lib rs (serve lib now r db) (serve-IsRevoked lib now r db h)

id_stable : (phid : Text) → IsStable (is_phone phid)
id_stable phid x y same _ = ap (text_eq phid) same

token_stable : (h : Text) → IsStable (has_token h)
token_stable h x y _ same = ap (text_eq h) same

-- Both tests see a revoked phone, and refuse it.
revoked_refused :
    (lib : Lib) (raw : Text) (now : ℕ) (db : Db)
    → IsRevoked (has_token (lib.sha raw)) (token_stable (lib.sha raw)) db.phones
    → (phone_principal lib raw now db).1 ≡ none
unfolding phone_principal
revoked_refused lib raw now db (ph, found, gone) = ground (arith, found, gone)

revoked_not_ok :
    (phid : Text) (now : ℕ) (db : Db)
    → IsRevoked (is_phone phid) (id_stable phid) db.phones
    → phone_ok phid now db ≡ false
unfolding phone_ok phone_of
revoked_not_ok phid now db (ph, found, gone) = ground (arith, found, gone)

-- Where the phone is found, `revoke_phone` marks it.
closed-IsRevoked :
    (q : Phone → Bool) (stable : IsStable q) (ph : Phone) (phid : Text) (db : Db)
    → first_of q db.phones ≡ some ph
    → is_phone phid ph ≡ true
    → IsRevoked q stable (close_phone phid db).phones
unfolding close_phone
closed-IsRevoked q stable ph phid db found is_it =
    let kept =
      first_of-change_if_same (is_phone phid) q revoke db.phones
        (λ y. stable (revoke y) y refl refl) found in
    (revoke ph, kept ∙ ap (λ (b : Bool). some (if b then revoke ph else ph)) is_it, refl)

revoke_phone-closes :
    (actor : Actor) (phid : Text) (db : Db)
    → (revoke_phone actor phid db).1 ≡ returned tt
    → (revoke_phone actor phid db).0.phones ≡ (close_phone phid db).phones
unfolding revoke_phone
revoke_phone-closes actor phid db done = ground (arith, done)

revoke_phone-finds :
    (actor : Actor) (phid : Text) (db : Db)
    → (revoke_phone actor phid db).1 ≡ returned tt
    → (ph : Phone) × (first_of (is_phone phid) db.phones ≡ some ph)
unfolding revoke_phone phone_of
revoke_phone-finds actor phid db done = go (first_of (is_phone phid) db.phones) refl done
  where
    go :
        (o : Option Phone)
        → first_of (is_phone phid) db.phones ≡ o
        → (revoke_row actor phid db o).1 ≡ returned tt
        → (ph : Phone) × (first_of (is_phone phid) db.phones ≡ some ph)
    go none e d = absurd (cc)
    go (some ph) e d = (ph, e)

-- A phone's token that is revoked is refused for ever: after `revoke_phone` returned for the phone
-- that the token finds, whatever requests come in between, the token stands for nobody, and the
-- phone's streams and sessions find no valid phone.
pub revoke_phone_for_ever :
    (lib : Lib) (actor : Actor) (raw : Text) (ph : Phone) (db : Db)
    → first_of (has_token (lib.sha raw)) db.phones ≡ some ph
    → (revoke_phone actor ph.id db).1 ≡ returned tt
    → (rs : List (ℕ × Request)) (later : ℕ)
    → ((phone_principal lib raw later (serve_all lib rs (revoke_phone actor ph.id db).0)).1 ≡ none)
      × (phone_ok ph.id later (serve_all lib rs (revoke_phone actor ph.id db).0) ≡ false)
revoke_phone_for_ever lib actor raw ph db found done rs later =
    let after_it = (revoke_phone actor ph.id db).0 in
    let closes = revoke_phone-closes actor ph.id db done in
    let (same, by_id) = revoke_phone-finds actor ph.id db done in
    let held = has_token (lib.sha raw) in
    let token_gone =
      closed-IsRevoked held (token_stable (lib.sha raw)) ph ph.id db found (text_eq_refl ph.id) in
    let id_gone =
      closed-IsRevoked (is_phone ph.id) (id_stable ph.id) same ph.id db by_id
        (first_of-true (is_phone ph.id) db.phones by_id) in
    let gone_for = λ (q : Phone → Bool) (stable : IsStable q).
      λ (g : IsRevoked q stable (close_phone ph.id db).phones).
        serve_all-IsRevoked q stable lib rs after_it (subst (IsRevoked q stable) (sym closes) g) in
    let db2 = serve_all lib rs after_it in
    (
      revoked_refused lib raw later db2 (gone_for held (token_stable (lib.sha raw)) token_gone),
      revoked_not_ok ph.id later db2 (gone_for (is_phone ph.id) (id_stable ph.id) id_gone),
    )
