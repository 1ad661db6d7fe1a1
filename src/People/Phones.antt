-- ===== src/People/Phones.antt =====
-- The phones of portal/gateway/gw/people.py: their tokens, their update keys and their revocation.
use minisserver_compose.Prelude.{
  ℕ, ◌+◌, ◌*◌, Bool, true, false, not, ◌&&◌, ◌||◌, Option, none, some, List, [], ◌∷◌, ◌++◌, ltb,
  leb, ◌==◌, if◌then◌else◌, Text, codes, text_eq, starts_with, length, take, map, keep_if, first_of,
  change_if, drop_if, sort,
}
use minisserver_compose.Prelude.Json.{Json, str}
use minisserver_compose.People.{
  not_found, forbidden, Outcome, returned, raise, is_admin, Person, Session, Phone,
  update_key_issued, app_logout, phone_revoke, Db, Method, Actor, Lib, seconds, phone_sliding,
  person_of, note, is_live,
}
use minisserver_compose.People.Admins.{revoke}

abbrev phone_code : ℕ → ℕ
phone_code c = if c == 95 then 120 else if c == 45 then 121 else c

-- `"p-" + token(5).lower().replace("_", "x").replace("-", "y")[:8]`
unfoldable pub phone_id_of : Lib → Text → Text
phone_id_of lib drawn = codes "p-" ++ take 8 (map phone_code (lib.lower drawn))

-- A device's label of 1 to 60 characters, stripped.
unfoldable pub label_of : Lib → Json → Option Text
label_of lib (str s) =
    if leb 1 (length (lib.strip s)) && leb (length (lib.strip s)) 60
    then some (lib.strip s)
    else none
label_of lib _ = none

abbrev pub new_phone : Lib → Text → Text → Text → Text → ℕ → Phone
new_phone lib pid phid label raw now = record {
  id = phid;
  person_id = pid;
  label = label;
  token_hash = lib.sha raw;
  update_hash = none;
  created = now;
  last_seen = now;
  expires = now + phone_sliding;
  revoked = false;
}

abbrev pub is_phone : Text → Phone → Bool
is_phone phid ph = text_eq phid ph.id

abbrev pub has_token : Text → Phone → Bool
has_token h ph = text_eq h ph.token_hash

unfoldable pub phone_of : Text → Db → Option Phone
unfolding first_of text_eq
phone_of phid db = first_of (is_phone phid) db.phones

-- `_new_update_key`, with the token that it draws.
unfoldable pub new_update_key : Lib → Text → Text → Db → Db × Text
unfolding change_if text_eq
new_update_key lib phid drawn db =
    let raw = codes "ukey_" ++ drawn in
    (
      record db {
        phones =
            change_if (is_phone phid)
              (λ (ph : Phone). record ph { update_hash = some (lib.sha raw) }) db.phones;
      },
      raw,
    )

-- Who a token or a key stands for.
pub record Principal : Type 0 where
  pub person : Person
  pub phone_id : Option Text

unfoldable pub mint_update_key : Lib → Principal → Text → Text → Db → Db × Text
unfolding new_update_key
mint_update_key lib who phid drawn db =
    let (keyed, raw) = new_update_key lib phid drawn db in
    (note update_key_issued (some who.person.id) (some phid) none true keyed, raw)

-- `not r or r["revoked"] or r["expires"] < now` is false.
abbrev pub is_good : ℕ → Phone → Bool
is_good now ph = not ph.revoked && leb now ph.expires

abbrev pub if_active : Option Person → Option Person
if_active none = none
if_active (some p) = if p.active then some p else none

abbrev pub holder : ℕ → Db → Option Phone → Option (Phone × Person)
holder now db none = none
holder now db (some ph) =
    if is_good now ph
    then elim (if_active (person_of ph.person_id db)) [ none ↦ none | some p ↦ some (ph, p) ]
    else none

abbrev has_key : Text → Phone → Bool
has_key h ph = elim ph.update_hash [ none ↦ false | some u ↦ text_eq h u ]

abbrev principal_of : Option (Phone × Person) → Option Principal
principal_of none = none
principal_of (some (ph, p)) = some (record { person = p; phone_id = some ph.id })

-- `update_key_principal`
unfoldable pub update_key_principal : Lib → Text → ℕ → Db → Option Principal
unfolding first_of text_eq person_of starts_with
update_key_principal lib raw now db =
    if starts_with raw (codes "ukey_")
    then principal_of (holder now db (first_of (has_key (lib.sha raw)) db.phones))
    else none

-- The 90 days slide, at most once a minute.
abbrev pub slide : ℕ → Phone → Phone
slide now ph = record ph { last_seen = now; expires = now + phone_sliding }

unfoldable pub slide_if : ℕ → Phone → Db → Db
unfolding change_if text_eq
slide_if now ph db =
    if (ph.last_seen == 0) || ltb (ph.last_seen + seconds 60) now
    then record db { phones = change_if (is_phone ph.id) (slide now) db.phones }
    else db

abbrev pub let_in : ℕ → Db → Option (Phone × Person) → Db × Option Principal
let_in now db none = (db, none)
let_in now db (some (ph, p)) =
    (slide_if now ph db, some (record { person = p; phone_id = some ph.id }))

-- `phone_principal`
unfoldable pub phone_principal : Lib → Text → ℕ → Db → Db × Option Principal
unfolding first_of text_eq person_of slide_if
phone_principal lib raw now db =
    if text_eq raw []
    then (db, none)
    else let_in now db (holder now db (first_of (has_token (lib.sha raw)) db.phones))

abbrev pub is_some {ℓ} : {A : Type ℓ} → Option A → Bool
is_some none = false
is_some (some a) = true

-- `phone_principal_valid`, and `_phone_ok`, which has the same body.
unfoldable pub phone_ok : Text → ℕ → Db → Bool
unfolding phone_of person_of
phone_ok phid now db = is_some (holder now db (phone_of phid db))

abbrev pub is_by : Text → Session → Bool
is_by phid s = elim s.phone_id [ none ↦ false | some p ↦ text_eq phid p ]

-- The phone's token is revoked, its sessions end and its streams are closed.
unfoldable pub close_phone : Text → Db → Db
unfolding change_if drop_if text_eq
close_phone phid db = record db {
  phones = change_if (is_phone phid) revoke db.phones;
  sessions = drop_if (is_by phid) db.sessions;
  kicked = db.kicked ++ (phid ∷ []);
}

-- `app_logout`
unfoldable pub app_logout_of : Text → Text → Db → Db
unfolding close_phone
app_logout_of pid phid db = note app_logout (some pid) (some phid) none true (close_phone phid db)

abbrev is_self : Option Text → Text → Bool
is_self none pid = false
is_self (some me) pid = text_eq me pid

abbrev pub revoke_row : Actor → Text → Db → Option Phone → Db × Outcome (Unit {0})
revoke_row actor phid db none = (db, raise 404 not_found)
revoke_row actor phid db (some ph) =
    if is_admin actor.role || is_self actor.person_id ph.person_id
    then (
      note phone_revoke actor.person_id actor.phone_id (some phid) true (close_phone phid db),
      returned tt,
    )
    else (db, raise 403 forbidden)

-- `revoke_phone`
unfoldable pub revoke_phone : Actor → Text → Method (Unit {0})
unfolding phone_of close_phone text_eq
revoke_phone actor phid db = revoke_row actor phid db (phone_of phid db)

-- `phones` and `recent_new_phones`: the rows in the order of their creation, each with the name
-- of its person.
abbrev with_name : Db → Phone → List (Phone × Text)
with_name db ph = elim (person_of ph.person_id db) [ none ↦ [] | some p ↦ (ph, p.name) ∷ [] ]

abbrev with_names : Db → List Phone → List (Phone × Text)
with_names db [] = []
with_names db (ph ∷ phs) = with_name db ph ++ with_names db phs

abbrev was_created_before : Phone → Phone → Bool
was_created_before a b = leb a.created b.created

abbrev is_for : Option Text → Phone → Bool
is_for none ph = true
is_for (some pid) ph = text_eq pid ph.person_id

unfoldable pub phones_listed : Option Text → Db → List (Phone × Text)
unfolding sort person_of text_eq
phones_listed only db = with_names db (sort was_created_before (keep_if (is_for only) db.phones))

unfoldable pub recent_new_phones : ℕ → ℕ → Db → List (Phone × Text)
unfolding sort person_of
recent_new_phones hours now db = with_names db (
    sort was_created_before (
      keep_if (λ (ph : Phone). ltb now (ph.created + seconds (3600 * hours)) && is_live now ph)
        db.phones))
