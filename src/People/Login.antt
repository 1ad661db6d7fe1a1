-- ===== src/People/Login.antt =====
-- Signing in with a password: `_throttle`, `_check_login`, `login`, `app_login` and
-- `failed_login_stats` of portal/gateway/gw/people.py.
pub mod Once
use minisserver_compose.Prelude.{
  ℕ, zero, suc, ◌+◌, ◌-◌, ◌*◌, ◌^◌, ◌≡◌, refl, inl, inr, Bool, true, false, not, ◌&&◌, ◌||◌, Option,
  none, some, List, [], ◌∷◌, ◌++◌, ltb, leb, min, if◌then◌else◌, arith, Text, codes, text_eq,
  member, length, take, keep_if, first_of, change_if,
}
use minisserver_compose.People.{
  Code, too_many_attempts, account_delay, invalid_credentials, invalid_device, device_limit,
  internal, Outcome, returned, raised, raise, ◌>>=◌, Role, is_admin, Person, Credential, Session,
  Phone, Attempt, Action, login, app_login_refused, app_login, login_failed, Db, Method, after, Lib,
  seconds, fail_window, phone_sliding, session_abs, person_of, note, at_limit, active_phones_of,
  active_phones,
}
use minisserver_compose.Prelude.Json.{Json}
use minisserver_compose.People.Totp.{verify_totp}
use minisserver_compose.People.Passwords.{verify_password}
use minisserver_compose.People.Phones.{phone_id_of, label_of, new_phone, new_update_key}
use minisserver_compose.People.Sessions.{View, session_view}

abbrev pub ip_fail_limit : ℕ
ip_fail_limit = 20

abbrev pub account_free_fails : ℕ
account_free_fails = 3

abbrev pub is_recent_fail : ℕ → Attempt → Bool
is_recent_fail now a = not a.is_ok && ltb now (a.ts + fail_window)

-- `_fails(ip=ip)` and `_fails(account=account)`: the attempts are kept in the order of the clock.
unfoldable pub fails_from : Text → ℕ → Db → List Attempt
unfolding text_eq
fails_from ip now db =
    keep_if (λ (a : Attempt). text_eq ip a.ip && is_recent_fail now a) db.attempts

unfoldable pub fails_of : Text → ℕ → Db → List Attempt
unfolding text_eq
fails_of account now db =
    keep_if (λ (a : Attempt). text_eq account a.account && is_recent_fail now a) db.attempts

abbrev pub last_ts : List Attempt → ℕ
last_ts [] = 0
last_ts (a ∷ []) = a.ts
last_ts (a ∷ b ∷ as') = last_ts (b ∷ as')

-- When the account may be tried again, after `n` failures of which `ts` is the last.
abbrev pub ready_at : ℕ → ℕ → ℕ
ready_at n ts = ts + seconds (min (2 ^ (n - account_free_fails)) 900)

abbrev pub account_check : ℕ → List Attempt → Outcome (Unit {0})
account_check now fa =
    if ltb account_free_fails (length fa) && ltb now (ready_at (length fa) (last_ts fa))
    then raise 429 account_delay
    else returned tt

-- `_throttle`
unfoldable pub throttle : Text → Text → ℕ → Db → Outcome (Unit {0})
unfolding fails_from fails_of
throttle account ip now db =
    if leb ip_fail_limit (length (fails_from ip now db))
    then raise 429 too_many_attempts
    else account_check now (fails_of account now db)

abbrev ascii_lower_code : ℕ → ℕ
ascii_lower_code c = if leb 65 c && leb c 90 then c + 32 else c

-- SQLite's `lower`
unfoldable pub ascii_lower : Text → Text
ascii_lower [] = []
ascii_lower (c ∷ s) = ascii_lower_code c ∷ ascii_lower s

-- What was typed.
pub record Typed : Type 0 where
  pub username : Text
  pub password : Text
  pub totp : Text
  pub ip : Text

abbrev pub account_of : Lib → Typed → Text
account_of lib t = take 60 (lib.lower (lib.strip t.username))

-- The row with this id or this name.
unfoldable pub named : Text → Db → Option Person
unfolding first_of text_eq ascii_lower
named account db =
    first_of (λ (p : Person). text_eq account p.id || text_eq (ascii_lower p.name) account)
      db.people

unfoldable pub credential_of : Text → Db → Option Credential
unfolding first_of text_eq
credential_of pid db = first_of (λ (c : Credential). text_eq pid c.person_id) db.credentials

abbrev pub code_result : Option ℕ → Bool × Option ℕ
code_result none = (false, none)
code_result (some s) = (true, some s)

-- The code, where the role or a seed asks for it: whether it is right, and its step.
abbrev pub check_code : Lib → Typed → ℕ → Person → ℕ → Option Text → Outcome (Bool × Option ℕ)
check_code lib t now p last none = returned (not (is_admin p.role), none)
check_code lib t now p last (some seed) =
    if text_eq seed []
    then returned (not (is_admin p.role), none)
    else verify_totp lib seed (lib.strip t.totp) last now >>= λ (o : Option ℕ).
        returned (code_result o)

-- `if ok and not (r["active"] and r["web_login"]): ok = False`
abbrev pub if_usable : Person → Bool × Option ℕ → Outcome (Bool × Option ℕ)
if_usable p (okay, step) = returned (okay && (p.active && p.web_login), step)

-- Password, code, and that the person is active with web login.
abbrev pub check_secrets :
    Lib → Typed → ℕ → Option Person → Option Credential → Outcome (Bool × Option ℕ)
check_secrets lib t now none c = returned (false, none)
check_secrets lib t now (some p) none = returned (false, none)
check_secrets lib t now (some p) (some c) =
    if not (text_eq c.pw_hash []) && verify_password lib t.password c.pw_hash
    then (check_code lib t now p c.totp_last_step c.totp_seed >>= if_usable p)
    else returned (false, none)

abbrev pub count_attempt : Text → Text → Bool → ℕ → Db → Db
count_attempt account ip okay now db = record db {
  attempts = db.attempts ++ (record { ts = now; ip = ip; account = account; is_ok = okay } ∷ []);
}

abbrev id_of : Option Person → Option Text
id_of none = none
id_of (some p) = some p.id

-- `UPDATE credentials SET totp_last_step=?`
unfoldable pub set_step : Text → ℕ → Db → Db
unfolding change_if text_eq
set_step pid step db = record db {
  credentials =
      change_if (λ (c : Credential). text_eq pid c.person_id)
        (λ (c : Credential). record c { totp_last_step = step }) db.credentials;
}

-- `if step:`
abbrev pub keep_step : Text → Option ℕ → Db → Db
keep_step pid none db = db
keep_step pid (some zero) db = db
keep_step pid (some (suc n)) db = set_step pid (suc n) db

abbrev refuse_login : Text → Text → Option Person → ℕ → Db → Db × Outcome (Person × Option ℕ)
refuse_login account ip who now db = (
  note login_failed (id_of who) none (some account) false (count_attempt account ip false now db),
  raise 401 invalid_credentials,
)

abbrev pub judge :
    Text
    → Text
    → Option Person
    → ℕ
    → Db
    → Outcome (Bool × Option ℕ)
    → Db × Outcome (Person × Option ℕ)
judge account ip who now db (raised e) = (db, raised e)
judge account ip none now db (returned (okay, step)) = refuse_login account ip none now db
judge account ip (some p) now db (returned (false, step)) = refuse_login account ip (some p) now db
judge account ip (some p) now db (returned (true, step)) =
    (keep_step p.id step (count_attempt account ip true now db), returned (p, step))

abbrev pub secrets_of : Option Person → Db → Option Credential
secrets_of none db = none
secrets_of (some p) db = credential_of p.id db

abbrev pub checked : Lib → Typed → ℕ → Db → Outcome (Unit {0}) → Db × Outcome (Person × Option ℕ)
checked lib t now db (raised e) = (db, raised e)
checked lib t now db (returned u) =
    let account = account_of lib t in
    let who = named account db in
    judge account t.ip who now db (check_secrets lib t now who (secrets_of who db))

-- `_check_login`
unfoldable pub check_login : Lib → Typed → ℕ → Method (Person × Option ℕ)
unfolding throttle named credential_of verify_password verify_totp text_eq set_step
check_login lib t now db = checked lib t now db (throttle (account_of lib t) t.ip now db)

abbrev start_session : Lib → Text → Text → ℕ → Db → Person → Db
start_session lib raw csrf now db p = note login (some p.id) none none true (record db {
  sessions =
      db.sessions
      ++ (record {
        id = lib.sha raw;
        person_id = p.id;
        csrf = csrf;
        last = now;
        abs_exp = now + session_abs;
        phone_id = none;
      }
          ∷ []);
})

abbrev shown : Text → Outcome View → Outcome (Text × View)
shown raw (raised e) = raised e
shown raw (returned v) = returned (raw, v)

-- `login`, with the tokens that it draws.
unfoldable pub login_with : Lib → Text → Text → Typed → ℕ → Method (Text × View)
unfolding check_login session_view
login_with lib raw csrf t now db = after (check_login lib t now db) λ same found.
    let db2 = start_session lib raw csrf now same found.0 in
    (db2, shown raw (session_view (lib.sha raw) db2))

-- The tokens that `app_login` draws.
pub record Drawn : Type 0 where
  pub token : Text
  pub phone : Text
  pub key : Text

-- What `app_login` answers, and `enrol` without the key.
pub record Device : Type 0 where
  pub phone_id : Text
  pub token : Text
  pub update_key : Option Text
  pub person : Person
  pub expires_at : ℕ

abbrev pub device_for : Text → Text → Option Text → Person → ℕ → Device
device_for phid raw key p now = record {
  phone_id = phid;
  token = raw;
  update_key = key;
  person = p;
  expires_at = now + phone_sliding;
}

abbrev pub add_phone : Phone → Db → Db
add_phone ph db = record db { phones = db.phones ++ (ph ∷ []) }

abbrev pub register : Lib → Drawn → Text → ℕ → Db → Person → Db × Outcome Device
register lib drawn label now db p =
    if at_limit p.id now db
    then (note app_login_refused (some p.id) none none false db, raise 409 device_limit)
    else let phid = phone_id_of lib drawn.phone in
      let (keyed, key) =
        new_update_key lib phid drawn.key
          (add_phone (new_phone lib p.id phid label drawn.token now) db) in
      (
        note app_login (some p.id) (some phid) (some (take 60 label)) true keyed,
        returned (device_for phid drawn.token (some key) p now),
      )

abbrev pub app_login_as : Lib → Drawn → Typed → ℕ → Db → Option Text → Db × Outcome Device
unfolding check_login
app_login_as lib drawn t now db none = (db, raise 400 invalid_device)
app_login_as lib drawn t now db (some label) =
    after (check_login lib t now db) λ same found. register lib drawn label now same found.0

-- `app_login`
unfoldable pub app_login_with : Lib → Drawn → Typed → Json → ℕ → Method Device
unfolding label_of check_login phone_id_of new_update_key active_phones_of active_phones
app_login_with lib drawn t device now db = app_login_as lib drawn t now db (label_of lib device)

abbrev distinct_ips : List Attempt → List Text
distinct_ips [] = []
distinct_ips (a ∷ rest) = let ips = distinct_ips rest in if member a.ip ips then ips else a.ip ∷ ips

-- `failed_login_stats`
unfoldable pub failed_login_stats : ℕ → ℕ → Db → ℕ × ℕ
unfolding text_eq
failed_login_stats secs now db =
    let rows =
      keep_if
        (λ (a : Attempt).
          not a.is_ok && (not (text_eq a.account (codes "enrol")) && ltb now (a.ts + seconds secs)))
        db.attempts in
    (length rows, length (distinct_ips rows))
