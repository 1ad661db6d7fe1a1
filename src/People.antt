-- ===== src/People.antt =====
-- The gateway's people and how they sign in: portal/gateway/gw/people.py, with the tables of
-- portal/gateway/gw/db.py that it reads and writes, and portal/gateway/gw/auth.py. A clock is in
-- milliseconds, and one call of a method reads one time.
pub mod Names
pub mod Totp
pub mod Passwords
pub mod Admins
pub mod Setup
pub mod Login
pub mod Enrol
pub mod Phones
pub mod Sessions
pub mod Requests
pub mod Examples
use minisserver_compose.Prelude.{
  ℕ, suc, ◌+◌, ◌-◌, ◌*◌, ◌≡◌, refl, Bool, true, false, not, ◌&&◌, Option, none, some, List, [], ◌∷◌,
  ◌++◌, ltb, leb, if◌then◌else◌, Text, codes, text_eq, Table, count_if, first_of,
}

-- The first argument of `GwError`'s code.
pub data Code : Type 0 where
  invalid_name invalid_role invalid_value unknown_field person_exists not_found last_admin : Code
  person_inactive web_login_disabled setup_link_invalid weak_password setup_not_started : Code
  bad_totp too_many_attempts account_delay invalid_credentials invalid_device device_limit : Code
  invalid_code forbidden : Code
  -- An exception that is no `GwError`.
  internal : Code

-- `GwError`, without its message and its details.
pub record GwError : Type 0 where
  pub status : ℕ
  pub code : Code

pub data Outcome {ℓ} (A : Type ℓ) : Type ℓ where
  returned : A → Outcome A
  raised : GwError → Outcome A

abbrev pub raise {ℓ} : {A : Type ℓ} → ℕ → Code → Outcome A
raise s c = raised (record { status = s; code = c })

infixl 10 ◌>>=◌
-- What a check returned goes on; what it raised ends the method.
abbrev pub ◌>>=◌ {κ ℓ} : {A : Type κ} {B : Type ℓ} → Outcome A → (A → Outcome B) → Outcome B
raised e >>= next = raised e
returned a >>= next = next a

pub >>=-eq-returned {κ ℓ} :
    {A : Type κ} {B : Type ℓ} (o : Outcome A) (next : A → Outcome B) {b : B}
    → (o >>= next) ≡ returned b
    → (a : A) × (o ≡ returned a) × (next a ≡ returned b)
>>=-eq-returned (raised e) next h = absurd (cc)
>>=-eq-returned (returned a) next h = (a, refl, h)

abbrev pub require : Bool → ℕ → Code → Outcome (Unit {0})
require true s c = returned tt
require false s c = raise s c

-- `ROLES`
pub data Role : Type 0 where
  admin household readonly : Role

abbrev pub is_admin : Role → Bool
is_admin admin = true
is_admin household = false
is_admin readonly = false

pub record Person : Type 0 where
  pub id : Text
  pub name : Text
  pub role : Role
  pub parent : Bool
  pub active : Bool
  pub web_login : Bool

pub record Credential : Type 0 where
  pub person_id : Text
  pub pw_hash : Text
  pub totp_seed : Option Text
  pub totp_last_step : ℕ

-- `setup_links`, and `enrol_codes` with the hash of the code for the hash of the token.
pub record Ticket : Type 0 where
  pub id : Text
  pub person_id : Text
  pub hash : Text
  pub expires : ℕ
  pub used : Bool

pub record Session : Type 0 where
  pub id : Text
  pub person_id : Text
  pub csrf : Text
  pub last : ℕ
  pub abs_exp : ℕ
  pub phone_id : Option Text

pub record Phone : Type 0 where
  pub id : Text
  pub person_id : Text
  pub label : Text
  pub token_hash : Text
  pub update_hash : Option Text
  pub created : ℕ
  pub last_seen : ℕ
  pub expires : ℕ
  pub revoked : Bool

pub record Attempt : Type 0 where
  pub ts : ℕ
  pub ip : Text
  pub account : Text
  pub is_ok : Bool

pub data Action : Type 0 where
  person_create person_patch setup_link_create setup_failed setup_complete : Action
  credentials_reset login app_login_refused app_login update_key_issued app_logout : Action
  login_failed app_session logout enrol_code_create enrol_failed enrol phone_revoke : Action

-- A row of the audit: who, from which phone, what, to whom, and whether it was done.
pub record Event : Type 0 where
  pub action : Action
  pub person : Option Text
  pub phone : Option Text
  pub target : Option Text
  pub is_ok : Bool

-- The tables; `meta` as far as it keeps the pending seeds, under the id of their link; and the
-- phones whose streams the hub has been told to close.
pub record Db : Type 0 where
  pub people : List Person
  pub credentials : List Credential
  pub links : List Ticket
  pub seeds : Table Text
  pub enrol_codes : List Ticket
  pub sessions : List Session
  pub phones : List Phone
  pub attempts : List Attempt
  pub audit : List Event
  pub kicked : List Text

-- What a method does: it returns or raises, and what it wrote before stays.
abbrev pub Method {ℓ} : Type ℓ → Type ℓ
Method A = Db → Db × Outcome A

-- `except`-free composition: what follows a call, unless it raises.
abbrev pub after {κ ℓ} :
    {A : Type κ} {B : Type ℓ} → Db × Outcome A → (Db → A → Db × Outcome B) → Db × Outcome B
after (db, raised e) next = (db, raised e)
after (db, returned a) next = next db a

-- Who asks.
pub record Actor : Type 0 where
  pub person_id : Option Text
  pub phone_id : Option Text
  pub role : Role

-- What the source calls of Python's library and of SQLite: digests, encodings, and the texts'
-- methods. `hmac_sha1` gives the bytes of the digest of a counter under a decoded key.
pub record Lib : Type 0 where
  pub sha : Text → Text
  pub strip : Text → Text
  pub lower : Text → Text
  pub upper : Text → Text
  pub is_digit : Text → Bool
  pub hmac_sha1 : Text → ℕ → List ℕ
  pub scrypt : Text → Text → ℕ → ℕ → ℕ → Option Text
  pub b64encode : Text → Text
  pub b64decode : Text → Option Text
  pub parse_int : Text → Option ℕ

abbrev pub seconds : ℕ → ℕ
seconds n = n * 1000

abbrev pub fail_window : ℕ
fail_window = seconds 900

abbrev pub max_phones_total : ℕ
max_phones_total = 20

abbrev pub max_phones_per_person : ℕ
max_phones_per_person = 5

abbrev pub enrol_ttl : ℕ
enrol_ttl = seconds 600

abbrev pub setup_ttl : ℕ
setup_ttl = seconds 3600

abbrev pub phone_sliding : ℕ
phone_sliding = seconds (90 * 86400)

abbrev pub session_idle : ℕ
session_idle = seconds (12 * 3600)

abbrev pub session_abs : ℕ
session_abs = seconds (7 * 86400)

-- `WHERE id=?`
abbrev pub has_id : Text → Person → Bool
has_id pid p = text_eq pid p.id

unfoldable pub person_of : Text → Db → Option Person
unfolding first_of
person_of pid db = first_of (has_id pid) db.people

-- `db.audit`
abbrev pub note : Action → Option Text → Option Text → Option Text → Bool → Db → Db
note a p ph t okay db = record db {
  audit =
      db.audit ++ (record { action = a; person = p; phone = ph; target = t; is_ok = okay } ∷ []);
}

-- A phone that counts against the limits.
abbrev pub is_live : ℕ → Phone → Bool
is_live now ph = not ph.revoked && ltb now ph.expires

abbrev pub owns : Text → Phone → Bool
owns pid ph = text_eq pid ph.person_id

-- `_active_phones`, of one person and of all.
unfoldable pub active_phones_of : Text → ℕ → Db → ℕ
unfolding count_if
active_phones_of pid now db = count_if (λ (ph : Phone). owns pid ph && is_live now ph) db.phones

unfoldable pub active_phones : ℕ → Db → ℕ
unfolding count_if
active_phones now db = count_if (is_live now) db.phones

abbrev pub at_limit : Text → ℕ → Db → Bool
at_limit pid now db =
    if leb max_phones_per_person (active_phones_of pid now db)
    then true
    else leb max_phones_total (active_phones now db)
