-- ===== src/People/Setup.antt =====
-- The setup links of portal/gateway/gw/people.py: a person sets the own password and the code.
use minisserver_compose.Prelude.{
  ℕ, ◌+◌, Bool, true, false, not, ◌&&◌, ◌||◌, Option, none, some, List, [], ◌∷◌, ◌++◌, ltb,
  if◌then◌else◌, Text, text_eq, Table, lookup, put, first_of, change_if, drop_if,
}
use minisserver_compose.People.{
  person_inactive, web_login_disabled, setup_link_invalid, weak_password, setup_not_started,
  bad_totp, internal, Outcome, returned, raised, raise, is_admin, Person, Credential, Ticket,
  setup_link_create, setup_failed, setup_complete, Db, Method, after, Actor, Lib, person_of, note,
  setup_ttl,
}
use minisserver_compose.People.Totp.{verify_totp}
use minisserver_compose.People.Passwords.{password_problem, hash_password}
use minisserver_compose.People.Admins.{Row, get, is_of}

abbrev pub is_open_of : Text → Ticket → Bool
is_open_of pid t = text_eq pid t.person_id && not t.used

abbrev pub use_up : Ticket → Ticket
use_up t = record t { used = true }

abbrev pub has_hash : Text → Ticket → Bool
has_hash h t = text_eq h t.hash

abbrev new_link : Lib → Text → Text → Text → ℕ → Ticket
new_link lib pid raw lid now = record {
  id = lid;
  person_id = pid;
  hash = lib.sha raw;
  expires = now + setup_ttl;
  used = false;
}

abbrev give_link : Lib → Actor → Text → Text → Text → ℕ → Person → Method Text
give_link lib actor pid raw lid now p db =
    if not p.active
    then (db, raise 409 person_inactive)
    else if not p.web_login
    then (db, raise 409 web_login_disabled)
    else (
      note setup_link_create actor.person_id actor.phone_id (some pid) true (record db {
        links = change_if (is_open_of pid) use_up db.links ++ (new_link lib pid raw lid now ∷ []);
      }),
      returned raw,
    )

-- `create_setup_link`, with the token and the id that it draws: an older open link dies.
unfoldable pub create_setup_link : Lib → Actor → Text → Text → Text → ℕ → Method Text
unfolding get change_if text_eq
create_setup_link lib actor pid raw lid now db =
    after (get pid now db) λ same row. give_link lib actor pid raw lid now row.person same

abbrev link_or : ℕ → Option Ticket → Outcome Ticket
link_or now none = raise 410 setup_link_invalid
link_or now (some t) =
    if t.used || ltb t.expires now then raise 410 setup_link_invalid else returned t

-- `_link`
unfoldable pub link : Lib → Text → ℕ → Method Ticket
unfolding first_of text_eq
link lib raw now db = (db, link_or now (first_of (has_hash (lib.sha raw)) db.links))

abbrev keep_seed : Text → Option Text → Text → Db → Db × Text
keep_seed lid (some old) fresh db = (db, old)
keep_seed lid none fresh db = (record db { seeds = put lid fresh db.seeds }, fresh)

abbrev show_seed : Ticket → ℕ → Db × Text → Db × Outcome (Row × Text)
show_seed t now (db, seed) = after (get t.person_id now db) λ same row. (same, returned (row, seed))

-- `setup_begin`, with the seed that it would draw.
unfoldable pub setup_begin : Lib → Text → Text → ℕ → Method (Row × Text)
unfolding link get lookup put
setup_begin lib raw fresh now db =
    after (link lib raw now db)
      λ same t. show_seed t now (keep_seed t.id (lookup t.id same.seeds) fresh same)

-- `INSERT ... ON CONFLICT(person_id) DO UPDATE`
unfoldable pub upsert : Credential → List Credential → List Credential
unfolding drop_if text_eq
upsert c cs = drop_if (λ (d : Credential). text_eq c.person_id d.person_id) cs ++ (c ∷ [])

-- `DELETE FROM meta WHERE key=?`
unfoldable pub remove_seed : Text → Table Text → Table Text
unfolding drop_if text_eq
remove_seed lid seeds = drop_if (λ (e : Text × Text). text_eq lid e.0) seeds

-- The transaction of `setup_complete`.
abbrev store_setup : Ticket → Text → Option Text → ℕ → Db → Db
store_setup t hash seed step db =
    note setup_complete (some t.person_id) none (some t.person_id) true (record db {
      credentials =
          upsert
            (record {
              person_id = t.person_id;
              pw_hash = hash;
              totp_seed = seed;
              totp_last_step = step;
            })
            db.credentials;
      links = change_if (λ (l : Ticket). text_eq t.id l.id) use_up db.links;
      seeds = remove_seed t.id db.seeds;
      sessions = drop_if (is_of t.person_id) db.sessions;
    })

abbrev store_hashed : Ticket → Option Text → ℕ → Db → Option Text → Db × Outcome (Unit {0})
store_hashed t seed step db none = (db, raise 500 internal)
store_hashed t seed step db (some hash) = (store_setup t hash seed step db, returned tt)

abbrev with_step :
    Lib → Ticket → Text → Text → Text → Db → Outcome (Option ℕ) → Db × Outcome (Unit {0})
with_step lib t salt password seed db (raised e) = (db, raised e)
with_step lib t salt password seed db (returned none) =
    (note setup_failed (some t.person_id) none none false db, raise 422 bad_totp)
with_step lib t salt password seed db (returned (some step)) =
    store_hashed t (some seed) step db (hash_password lib salt password)

-- The code is mandatory for an admin; without one, the other roles have no seed.
abbrev with_person :
    Lib → Ticket → Text → Text → Text → ℕ → Text → Db → Option Person → Db × Outcome (Unit {0})
with_person lib t salt password code now seed db none = (db, raise 500 internal)
with_person lib t salt password code now seed db (some p) =
    if not (is_admin p.role) && text_eq (lib.strip code) []
    then store_hashed t none 0 db (hash_password lib salt password)
    else with_step lib t salt password seed db (verify_totp lib seed (lib.strip code) 0 now)

abbrev with_seed : Lib → Ticket → Text → Text → Text → ℕ → Option Text → Method (Unit {0})
with_seed lib t salt password code now none db = (db, raise 409 setup_not_started)
with_seed lib t salt password code now (some seed) db =
    with_person lib t salt password code now seed db (person_of t.person_id db)

abbrev complete : Lib → Text → Text → Text → ℕ → Db → Ticket → Db × Outcome (Unit {0})
complete lib salt password code now db t =
    if password_problem password
    then (db, raise 422 weak_password)
    else with_seed lib t salt password code now (lookup t.id db.seeds) db

-- `setup_complete`, with the salt that `hash_password` draws.
unfoldable pub setup_complete_with : Lib → Text → Text → Text → Text → ℕ → Method (Unit {0})
unfolding link password_problem lookup person_of verify_totp hash_password upsert remove_seed
    change_if drop_if text_eq
setup_complete_with lib salt raw password code now db =
    after (link lib raw now db) (complete lib salt password code now)
