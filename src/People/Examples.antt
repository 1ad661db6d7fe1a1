-- ===== src/People/Examples.antt =====
-- The theorems on people at concrete inputs.
use minisserver_compose.Prelude.{
  ℕ, ◌+◌, ◌-◌, ◌≤◌, ◌<◌, ◌≡◌, ◌≢◌, refl, ap, true, false, Option, none, some, List, [], ◌∷◌, ◌++◌,
  map, if◌then◌else◌, arith, Text, codes, text_eq, elem, count_if, first_of, change_if, split,
  split_from,
}
use minisserver_compose.Prelude.Json.{str, bool}
use minisserver_compose.People.{
  Lib, Db, Person, Phone, Actor, admin, household, returned, person_of, active_phones,
  active_phones_of,
}
use minisserver_compose.People.Totp.{hotp, six_digits, verify_totp, first_step, norm_code}
use minisserver_compose.People.Passwords.{
  hash_password, verify_password, verify_password-hash_password,
}
use minisserver_compose.People.Admins.Kept.{IsManaged, managers}
use minisserver_compose.People.Login.{
  Typed, Device, device_for, check_login, throttle, fails_from, fails_of, named, ascii_lower,
  credential_of, set_step,
}
use minisserver_compose.People.Login.Once.{check_login_once}
use minisserver_compose.People.Phones.{
  Principal, phone_id_of, label_of, new_phone, has_token, phone_of, phone_ok, phone_principal,
  revoke_phone,
}
use minisserver_compose.People.Sessions.{session_principal, session_of, end_session, touch_if}
use minisserver_compose.People.Sessions.Timed.{IsHeld, session_principal-IsHeld}
use minisserver_compose.People.Enrol.{Enrolling, enrol_with, enrol_fails, ticket_of}
use minisserver_compose.People.Enrol.Bound.{IsWithin, enrol_with-IsWithin}
use minisserver_compose.People.Requests.{Request, patches, resets, serve_all}
use minisserver_compose.People.Requests.Managers.{serve_all-IsManaged}
use minisserver_compose.People.Requests.Codes.{enrol_with_once}
use minisserver_compose.People.Requests.Tokens.{revoke_phone_for_ever}

-- Digests and encodings that keep their texts apart.
abbrev shift : Text → Text
shift s = map (λ (c : ℕ). c + 37) s

abbrev shift_back : Text → Text
shift_back s = map (λ (c : ℕ). c - 37) s

abbrev parse_known : Text → Option ℕ
parse_known s =
    if text_eq s (codes "16384")
    then some 16384
    else if text_eq s (codes "8")
    then some 8
    else if text_eq s (codes "1")
    then some 1
    else none

abbrev lib : Lib
lib = record {
  sha = λ s. 35 ∷ s;
  strip = λ s. s;
  lower = λ s. s;
  upper = λ s. s;
  is_digit = λ s. true;
  hmac_sha1 = λ seed counter. 0 ∷ 0 ∷ 0 ∷ counter ∷ 0 ∷ [];
  scrypt = λ pw salt n r p. some (salt ++ pw);
  b64encode = shift;
  b64decode = λ s. some (shift_back s);
  parse_int = parse_known;
}

shift_back-shift : (s : Text) → shift_back (shift s) ≡ s
shift_back-shift [] = refl
shift_back-shift (c ∷ s) =
    let same : (c + 37) - 37 ≡ c = omega arith in let rest = shift_back-shift s in cc (same, rest)

no_dollar : (s : Text) → elem 36 (shift s) ≡ false
no_dollar [] = refl
no_dollar (c ∷ s) = let rest = no_dollar s in ground (arith, rest)

abbrev stored_text : Text
stored_text =
    codes "scrypt"
    ++ (codes "$16384$8$1$" ++ (shift (codes "salt") ++ (36 ∷ shift (codes "saltsecret"))))

-- `hash_password` gives this text.
stored_lem : hash_password lib (codes "salt") (codes "secret") ≡ some stored_text
unfolding hash_password
stored_lem = refl

verify_password-hash_password_example : verify_password lib (codes "secret") stored_text ≡ true
unfolding text_eq
verify_password-hash_password_example =
    verify_password-hash_password lib (λ s. ap some (shift_back-shift s)) no_dollar refl refl refl
      (codes "salt") (codes "secret") stored_text stored_lem

abbrev anna : Person
anna = record {
  id = codes "anna";
  name = codes "Anna";
  role = admin;
  parent = true;
  active = true;
  web_login = true;
}

abbrev ben : Person
ben = record {
  id = codes "ben";
  name = codes "Ben";
  role = household;
  parent = false;
  active = true;
  web_login = false;
}

abbrev code : Text
code = codes "ABCDEFGHJKLM"

abbrev home : Db
home = record {
  people = anna ∷ ben ∷ [];
  credentials =
      record {
        person_id = codes "anna";
        pw_hash = stored_text;
        totp_seed = some (codes "SEED");
        totp_last_step = 3;
      }
      ∷ [];
  links = [];
  seeds = [];
  enrol_codes =
      record {
        id = codes "c1";
        person_id = codes "ben";
        hash = 35 ∷ code;
        expires = 600000;
        used = false;
      }
      ∷ [];
  sessions = [];
  phones = new_phone lib (codes "anna") (codes "p-1") (codes "Anna's") (codes "token") 1000 ∷ [];
  attempts = [];
  audit = [];
  kicked = [];
}

abbrev anna_asks : Actor
anna_asks = record { person_id = some (codes "anna"); phone_id = none; role = admin }

home-IsManaged : IsManaged home.people
unfolding managers count_if text_eq
home-IsManaged = record { keyed = ((refl, tt), (tt, tt)); managed = omega arith }

-- Anna may not deactivate herself.
abbrev demands : List (ℕ × Request)
demands =
    (5000, patches anna_asks (codes "anna") ((codes "active", bool false) ∷ []))
    ∷ (6000, resets anna_asks (codes "ben"))
    ∷ (7000, patches anna_asks (codes "anna") ((codes "role", str (codes "household")) ∷ []))
    ∷ []

serve_all-IsManaged_example : IsManaged (serve_all lib demands home).people
serve_all-IsManaged_example = serve_all-IsManaged lib demands home home-IsManaged

abbrev enrolling : Enrolling
enrolling = record {
  typed = code;
  label = str (codes "Ben's");
  ip = codes "10.0.0.7";
  token = codes "fresh";
  phone = codes "ABC_D-E";
}

abbrev device : Device
device = device_for (codes "p-ABCxDyE") (codes "fresh") none ben 20000

enrolled_lem : (enrol_with lib enrolling 20000 home).1 ≡ returned device
unfolding enrol_with enrol_fails count_if label_of ticket_of norm_code person_of active_phones_of
    active_phones first_of change_if phone_id_of text_eq
enrolled_lem = refl

enrol_with_once_example :
    (enrol_with lib enrolling 30000
      (serve_all lib demands (enrol_with lib enrolling 20000 home).0)).1
    ≢ returned device
enrol_with_once_example =
    enrol_with_once lib enrolling 20000 home device enrolled_lem demands enrolling 30000 device refl

enrol_with-IsWithin_example : IsWithin (codes "ben") 20000 (enrol_with lib enrolling 20000 home).0
enrol_with-IsWithin_example = enrol_with-IsWithin lib enrolling 20000 home device enrolled_lem

abbrev annas : Phone
annas = new_phone lib (codes "anna") (codes "p-1") (codes "Anna's") (codes "token") 1000

-- The token finds the phone, and is good.
found_lem : first_of (has_token (lib.sha (codes "token"))) home.phones ≡ some annas
unfolding first_of text_eq
found_lem = refl

revoked_lem : (revoke_phone anna_asks annas.id home).1 ≡ returned tt
unfolding revoke_phone phone_of first_of text_eq
revoked_lem = refl

revoke_phone_for_ever_example :
    ((phone_principal lib
        (codes "token")
        9000
        (serve_all lib demands (revoke_phone anna_asks annas.id home).0)).1
      ≡ none)
    × (phone_ok annas.id 9000 (serve_all lib demands (revoke_phone anna_asks annas.id home).0)
        ≡ false)
revoke_phone_for_ever_example =
    revoke_phone_for_ever lib anna_asks (codes "token") annas home found_lem revoked_lem demands
      9000

abbrev typed : Text → Typed
typed totp = record {
  username = codes "anna";
  password = codes "secret";
  totp = totp;
  ip = codes "10.0.0.8";
}

first_lem : (check_login lib (typed (codes "000007")) 210000 home).1 ≡ returned (anna, some 7)
unfolding check_login throttle fails_from fails_of named first_of ascii_lower credential_of
    verify_password split split_from verify_totp first_step hotp six_digits set_step change_if
    text_eq
first_lem = refl

second_lem :
    (check_login lib
      (typed (codes "000008"))
      240000
      (check_login lib (typed (codes "000007")) 210000 home).0).1
    ≡ returned (anna, some 8)
unfolding check_login throttle fails_from fails_of named first_of ascii_lower credential_of
    verify_password split split_from verify_totp first_step hotp six_digits set_step change_if
    text_eq
second_lem = refl

check_login_once_example :
    (seed : Text) × (7 < 8)
    × (7 ≤ 8)
    × (8 ≤ 9)
    × (hotp lib seed 7 ≡ codes "000007")
    × (hotp lib seed 8 ≡ codes "000008")
check_login_once_example =
    check_login_once lib (typed (codes "000007")) (typed (codes "000008")) 210000 240000 home anna
      anna 7 8 first_lem second_lem refl

-- Anna is signed in on the web.
abbrev signed_in : Db
signed_in = record home {
  sessions =
      record {
        id = 35 ∷ codes "cookie";
        person_id = codes "anna";
        csrf = codes "x";
        last = 10000;
        abs_exp = 604800000;
        phone_id = none;
      }
      ∷ [];
}

abbrev principal : Principal
principal = record { person = anna; phone_id = none }

principal_lem : (session_principal lib (codes "cookie") 90000 signed_in).1 ≡ some principal
unfolding session_principal session_of person_of phone_ok phone_of end_session touch_if first_of
    text_eq
principal_lem = refl

session_principal-IsHeld_example :
    IsHeld
      (35 ∷ codes "cookie")
      90000
      signed_in
      principal
      (session_principal lib (codes "cookie") 90000 signed_in).0
session_principal-IsHeld_example =
    session_principal-IsHeld lib (codes "cookie") 90000 signed_in principal principal_lem
