-- ===== src/People/Admins.antt =====
-- `People.create`, `patch` and `reset_credentials` of portal/gateway/gw/people.py.
pub mod Kept
use minisserver_compose.Prelude.{
  ℕ, suc, ◌+◌, ◌≤◌, ◌≡◌, refl, inl, inr, Bool, true, false, not, ◌&&◌, ◌||◌, Option, none, some,
  List, [], ◌∷◌, ◌++◌, ltb, leb, ◌==◌, if◌then◌else◌, arith, Text, codes, text_eq, member, length,
  keep_if, all, put, first_of, change_if, drop_if, count_if, lookup, Table, map,
}
use minisserver_compose.Prelude.Json.{Json, bool, str}
use minisserver_compose.People.{
  Code, invalid_name, invalid_role, invalid_value, unknown_field, person_exists, not_found,
  last_admin, Outcome, returned, raised, raise, require, ◌>>=◌, Role, is_admin, Person, Credential,
  Session, Phone, Action, person_create, person_patch, credentials_reset, Db, Method, Actor, Lib,
  has_id, person_of, note, active_phones_of, owns,
}
use minisserver_compose.People.Names.{name_of, role_of, slug}

-- `_row`
pub record Row : Type 0 where
  pub person : Person
  pub has_web_credentials : Bool
  pub phones : ℕ

abbrev has_password : Option Credential → Bool
has_password none = false
has_password (some c) = elim c.totp_seed [
  | none ↦ false
  | some seed ↦ not (text_eq c.pw_hash []) && not (text_eq seed [])
]

unfoldable pub row_of : ℕ → Db → Person → Row
unfolding first_of active_phones_of text_eq
row_of now db p = record {
  person = p;
  has_web_credentials =
      has_password (first_of (λ (c : Credential). text_eq p.id c.person_id) db.credentials);
  phones = active_phones_of p.id now db;
}

abbrev pub row_or : ℕ → Db → Option Person → Outcome Row
row_or now db none = raise 404 not_found
row_or now db (some p) = returned (row_of now db p)

-- `get`
unfoldable pub get : Text → ℕ → Method Row
unfolding person_of row_of
get pid now db = (db, row_or now db (person_of pid db))

abbrev pub text_of : Json → Text
text_of (str s) = s
text_of _ = []

-- `1 if role == "admin" else 0` where the request says nothing
abbrev web_of : Option Bool → Role → Bool
web_of none role = is_admin role
web_of (some b) role = b

abbrev pub new_person : Lib → Text → Text → Role → Bool → Option Bool → Person
new_person lib pid name role parent web = record {
  id = pid;
  name = name;
  role = role;
  parent = parent;
  active = true;
  web_login = web_of web role;
}

abbrev enter : Actor → Person → ℕ → Method Row
enter actor p now db =
    let entered =
      note person_create actor.person_id actor.phone_id (some p.id) true
        (record db { people = db.people ++ (p ∷ []) }) in
    get p.id now entered

abbrev pub create_row : Lib → Actor → Text → Text → Bool → Option Bool → Role → ℕ → Method Row
create_row lib actor pid name parent web role now db = elim (person_of pid db) [
  | some p ↦ (db, raise 409 person_exists)
  | none ↦ enter actor (new_person lib pid name role parent web) now db
]

abbrev pub create_as : Lib → Actor → Text → Text → Option Role → Bool → Option Bool → ℕ → Method Row
create_as lib actor pid name none parent web now db = (db, raise 422 invalid_role)
create_as lib actor pid name (some role) parent web now db =
    create_row lib actor pid name parent web role now db

-- `create`: the id is made of the name as it was sent.
unfoldable pub create : Lib → Actor → Json → Json → Bool → Option Bool → ℕ → Method Row
unfolding name_of role_of slug get person_of
create lib actor name role parent web now db = elim (name_of lib name) [
  | none ↦ (db, raise 422 invalid_name)
  | some stripped ↦
      create_as lib actor (slug lib (text_of name)) stripped (role_of role) parent web now db
]

abbrev patch_keys : List Text
patch_keys =
    codes "name" ∷ codes "role" ∷ codes "parent" ∷ codes "active" ∷ codes "web_login_enabled" ∷ []

-- `set(fields) - allowed`
unfoldable pub are_known : Table Json → Bool
unfolding text_eq
are_known fields = all (λ (f : Text × Json). member f.0 patch_keys) fields

abbrev patched_name : Lib → Text → Option Json → Outcome Text
patched_name lib old none = returned old
patched_name lib old (some v) = elim (name_of lib v) [
  | none ↦ raise 422 invalid_name
  | some new ↦ returned new
]

abbrev patched_role : Role → Option Json → Outcome Role
patched_role old none = returned old
patched_role old (some v) = elim (role_of v) [
  | none ↦ raise 422 invalid_role
  | some new ↦ returned new
]

abbrev patched_flag : Bool → Option Json → Outcome Bool
patched_flag old none = returned old
patched_flag old (some (bool b)) = returned b
patched_flag old (some _) = raise 422 invalid_value

-- The person as the request would have it.
unfoldable pub patched : Lib → Table Json → Person → Outcome Person
unfolding are_known name_of role_of lookup
patched lib fields cur = do
  _ ← require (are_known fields) 422 unknown_field
  name ← patched_name lib cur.name (lookup (codes "name") fields)
  role ← patched_role cur.role (lookup (codes "role") fields)
  parent ← patched_flag cur.parent (lookup (codes "parent") fields)
  active ← patched_flag cur.active (lookup (codes "active") fields)
  web ← patched_flag cur.web_login (lookup (codes "web_login_enabled") fields)
  returned (record {
    id = cur.id;
    name = name;
    role = role;
    parent = parent;
    active = active;
    web_login = web;
  })

-- Who can manage the system.
abbrev pub is_manager : Person → Bool
is_manager p = is_admin p.role && p.active

abbrev pub is_other_manager : Text → Person → Bool
is_other_manager pid p = is_manager p && not (text_eq pid p.id)

unfoldable pub other_managers : Text → Db → ℕ
unfolding count_if text_eq
other_managers pid db = count_if (is_other_manager pid) db.people

-- `new["role"] != "admin" or not new["active"]` of an active admin
abbrev pub is_last : Text → Person → Person → Db → Bool
is_last pid cur new db = is_manager cur && (not (is_manager new) && (other_managers pid db == 0))

-- The row with the new values, under its old id.
abbrev pub with_values : Person → Person → Person
with_values new p = record new { id = p.id }

abbrev pub revoke : Phone → Phone
revoke ph = record ph { revoked = true }

abbrev is_theirs : Text → Phone → Bool
is_theirs pid ph = owns pid ph && not ph.revoked

abbrev pub is_of : Text → Session → Bool
is_of pid s = text_eq pid s.person_id

abbrev is_web_of : Text → Session → Bool
is_web_of pid s = elim s.phone_id [ none ↦ is_of pid s | some ph ↦ false ]

abbrev sessions_after : Text → Person → List Session → List Session
sessions_after pid new ss =
    if new.active
    then (if new.web_login then ss else drop_if (is_web_of pid) ss)
    else drop_if (is_of pid) ss

abbrev pub phones_after : Text → Person → List Phone → List Phone
phones_after pid new phs = if new.active then phs else change_if (is_theirs pid) revoke phs

abbrev kicked_after : Text → Person → List Phone → List Text
kicked_after pid new phs =
    if new.active then [] else map (λ (ph : Phone). ph.id) (keep_if (is_theirs pid) phs)

-- The transaction of `patch`.
unfoldable pub commit : Text → Person → Db → Db
unfolding change_if drop_if text_eq
commit pid new db = record db {
  people = change_if (has_id pid) (with_values new) db.people;
  sessions = sessions_after pid new db.sessions;
  phones = phones_after pid new db.phones;
  kicked = db.kicked ++ kicked_after pid new db.phones;
}

abbrev pub patch_to : Actor → Text → Person → ℕ → Outcome Person → Method Row
patch_to actor pid cur now (raised e) db = (db, raised e)
patch_to actor pid cur now (returned new) db =
    if is_last pid cur new db
    then (db, raise 409 last_admin)
    else get pid now
        (note person_patch actor.person_id actor.phone_id (some pid) true (commit pid new db))

abbrev pub patch_row : Lib → Actor → Text → Table Json → ℕ → Option Person → Method Row
patch_row lib actor pid fields now none db = (db, raise 404 not_found)
patch_row lib actor pid fields now (some cur) db =
    patch_to actor pid cur now (patched lib fields cur) db

-- `patch`
unfoldable pub patch : Lib → Actor → Text → Table Json → ℕ → Method Row
unfolding person_of patched other_managers commit get
patch lib actor pid fields now db = patch_row lib actor pid fields now (person_of pid db) db

-- `reset_credentials`
abbrev forget : Actor → Text → Db → Db
forget actor pid db = note credentials_reset actor.person_id none (some pid) true (record db {
  credentials = drop_if (λ (c : Credential). text_eq pid c.person_id) db.credentials;
  sessions = drop_if (is_of pid) db.sessions;
})

unfoldable pub reset_credentials : Actor → Text → Method (Unit {0})
unfolding person_of drop_if text_eq
reset_credentials actor pid db = elim (person_of pid db) [
  | none ↦ (db, raise 404 not_found)
  | some p ↦ (forget actor pid db, returned tt)
]
