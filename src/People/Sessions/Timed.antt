-- ===== src/People/Sessions/Timed.antt =====
-- Whom a session's cookie stands for: `session_principal` of portal/gateway/gw/people.py.
use minisserver_compose.Prelude.{
  ℕ, ◌+◌, ◌≤◌, ◌≡◌, refl, ap, ◌∙◌, subst, ◌⊎◌, inl, inr, Bool, true, Option, none, some, [], ltb,
  ltb→le, ||-false, Bool-cases, if-both, if◌then◌else◌, arith, Text, text_eq, first_of-true,
  first_of-change_if_same,
}
use mathlib.Core.Option.{some-injective}
use minisserver_compose.People.{Lib, Db, Person, Session, person_of, session_idle}
use minisserver_compose.People.Phones.{Principal, phone_ok, if_active}
use minisserver_compose.People.Sessions.{
  session_of, session_principal, resume, admit, if_web, bearer, is_over, is_session, touch,
  touch_if,
}

-- Who may bear a session: by a valid phone, or by being active with web login.
abbrev pub IsEntitled : ℕ → Db → Option Text → Person → Type 0
IsEntitled now db o p =
    ((phid : Text) × (o ≡ some phid) × (phone_ok phid now db ≡ true))
    ⊎ ((o ≡ none) × (p.active ≡ true) × (p.web_login ≡ true))

-- The session is within both its times, its person exists, and either its phone is valid, or the person
-- is active with web login; afterwards the session has the same end, and its idle clock has not gone
-- beyond `now`.
pub record IsHeld (sid : Text) (now : ℕ) (old : Db) (who : Principal) (new : Db) : Type 0 where
  pub session : Session
  pub found : session_of sid old ≡ some session
  pub in_time : now ≤ session.abs_exp
  pub not_idle : now ≤ session.last + session_idle
  pub person : person_of session.person_id old ≡ some who.person
  pub entitled : IsEntitled now old session.phone_id who.person
  pub slid : (session_of sid new ≡ some session) ⊎ (session_of sid new ≡ some (touch now session))

if_web_lem :
    (o : Option Person) (p : Person)
    → if_web (if_active o) ≡ some p
    → (o ≡ some p) × (p.active ≡ true) × (p.web_login ≡ true)
if_web_lem none p h = absurd (cc)
if_web_lem (some q) p h = elim (Bool-cases q.active) [
  | inr n ↦ absurd (ground (arith, n))
  | inl y ↦ elim (Bool-cases q.web_login) [
    | inr n ↦ absurd (ground (arith, y, n))
    | inl z ↦
        let same : q ≡ p = ground (arith, y, z) in
        (
          ap some same,
          subst (λ (x : Person). x.active ≡ true) same y,
          subst (λ (x : Person). x.web_login ≡ true) same z,
        )
  ]
]

bearer_lem :
    (now : ℕ) (db : Db) (s : Session) (o : Option Text) (p : Person)
    → bearer now db s o ≡ some p
    → (person_of s.person_id db ≡ some p) × IsEntitled now db o p
bearer_lem now db s (some phid) p h = elim (Bool-cases (phone_ok phid now db)) [
  | inl y ↦ (ground (arith, y), inl (phid, refl, y))
  | inr n ↦ absurd (ground (arith, n))
]
bearer_lem now db s none p h =
    let (found, active, web) = if_web_lem (person_of s.person_id db) p h in
    (found, inr (refl, active, web))

touch_if-slid :
    (sid : Text) (now : ℕ) (s : Session) (db : Db)
    → session_of sid db ≡ some s
    → (session_of sid (touch_if sid now s db) ≡ some s)
      ⊎ (session_of sid (touch_if sid now s db) ≡ some (touch now s))
unfolding touch_if session_of
touch_if-slid sid now s db found =
    let moved =
      first_of-change_if_same (is_session sid) (is_session sid) (touch now) db.sessions (λ x. refl)
        found in
    let it = first_of-true (is_session sid) db.sessions found in
    if-both
      (λ (new : Db). (session_of sid new ≡ some s) ⊎ (session_of sid new ≡ some (touch now s)))
      (ltb (s.last + 60000) now)
      (inr (moved ∙ ap (λ (b : Bool). some (if b then touch now s else s)) it)) (inl found)

resume-IsHeld :
    (sid : Text) (now : ℕ) (db : Db) (o : Option Session) (who : Principal)
    → session_of sid db ≡ o
    → (resume sid now db o).1 ≡ some who
    → IsHeld sid now db who (resume sid now db o).0
resume-IsHeld sid now db none who found h = absurd (cc)
resume-IsHeld sid now db (some s) who found h = elim (Bool-cases (is_over now s)) [
  | inl y ↦ absurd (ground (arith, y))
  | inr n ↦
      let (ends, idle) = ||-false (ltb s.abs_exp now) (ltb (s.last + session_idle) now) n in
      rw n (
        go (bearer now db s s.phone_id) refl (ground (arith, n)) (ltb→le _ _ ends)
          (ltb→le _ _ idle))
]
  where
    go :
        (b : Option Person)
        → bearer now db s s.phone_id ≡ b
        → (admit sid now db s b).1 ≡ some who
        → now ≤ s.abs_exp
        → now ≤ s.last + session_idle
        → IsHeld sid now db who (admit sid now db s b).0
    go none e k ends idle = absurd (cc)
    go (some p) e k ends idle =
        let whose : p ≡ who.person = ap (λ (x : Principal). x.person) (some-injective _ _ k) in
        let (of_person, entitled) = bearer_lem now db s s.phone_id p e in
        record {
          session = s;
          found = found;
          in_time = ends;
          not_idle = idle;
          person = of_person ∙ ap some whose;
          entitled = subst (IsEntitled now db s.phone_id) whose entitled;
          slid = touch_if-slid sid now s db found;
        }

-- A cookie stands for somebody only by a session within its absolute and its idle time, whose person
-- exists and is entitled to it: by the session's phone, whose token is valid, or else by being active
-- with web login. The request leaves the session's end as it was, and moves its idle clock to now or
-- not at all.
pub session_principal-IsHeld :
    (lib : Lib) (raw : Text) (now : ℕ) (db : Db) (who : Principal)
    → (session_principal lib raw now db).1 ≡ some who
    → IsHeld (lib.sha raw) now db who (session_principal lib raw now db).0
unfolding session_principal
session_principal-IsHeld lib raw now db who h = elim (Bool-cases (text_eq raw [])) [
  | inl y ↦ absurd (ground (arith, y))
  | inr n ↦
      let k : (resume (lib.sha raw) now db (session_of (lib.sha raw) db)).1 ≡ some who =
        ground (arith, n) in
      rw (n, session_principal)
        (resume-IsHeld (lib.sha raw) now db (session_of (lib.sha raw) db) who refl k)
]
