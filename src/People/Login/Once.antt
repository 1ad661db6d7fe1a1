-- ===== src/People/Login/Once.antt =====
-- A code of the authenticator is good once: `verify_totp` and `_check_login`.
use minisserver_compose.Prelude.{
  ℕ, zero, suc, ◌+◌, ◌/◌, ◌≤◌, ◌<◌, ◌≡◌, refl, sym, ap, ◌∙◌, subst, inl, inr, Bool, true, false,
  ◌&&◌, Option, none, some, List, [], ◌∷◌, ltb, ◌==◌, ltb→lt, Text, text_eq, text_eq→eq, Bool-cases,
  if◌then◌else◌, arith, All, first_of-true, first_of-change_if_same, length,
}
use mathlib.Core.Option.{some-injective}
use minisserver_compose.People.{
  Lib, Db, Person, Credential, Outcome, returned, raised, >>=-eq-returned, ◌>>=◌,
}
use minisserver_compose.People.Totp.{hotp, verify_totp, first_step, window_around, turn, is_ascii}
use minisserver_compose.People.Login.{
  Typed, check_login, checked, judge, check_secrets, check_code, code_result, if_usable, secrets_of,
  credential_of, named, account_of, keep_step, set_step, throttle, count_attempt,
}

-- What an accepted step is: new, near the clock, and its code is the one that was typed.
pub record IsFresh (lib : Lib) (seed code : Text) (last now step : ℕ) : Type 0 where
  pub is_new : last < step
  pub not_early : now / 30000 ≤ step + 1
  pub not_late : step ≤ now / 30000 + 1
  pub matches : hotp lib seed step ≡ code

returned-injective : {A : Type 0} {x y : A} → ◌≡◌ {A = Outcome A} (returned x) (returned y) → x ≡ y
returned-injective h = ground arith

first_step-eq :
    (lib : Lib) (seed code : Text) (last : ℕ) (ss : List ℕ) (s : ℕ) (P : ℕ → Type 0)
    → All P ss
    → first_step lib seed code last ss ≡ returned (some s)
    → P s × (last < s) × (hotp lib seed s ≡ code)
unfolding first_step
first_step-eq lib seed code last [] s P h e = absurd (cc)
first_step-eq lib seed code last (x ∷ xs) s P h e =
    go (ltb last x) (is_ascii code) (text_eq (hotp lib seed x) code) refl refl e
      (first_step-eq lib seed code last xs s P h.1)
  where
    go :
        (new ascii same : Bool)
        → ltb last x ≡ new
        → text_eq (hotp lib seed x) code ≡ same
        → turn new ascii same x (first_step lib seed code last xs) ≡ returned (some s)
        → (first_step lib seed code last xs ≡ returned (some s)
            → P s × (last < s) × (hotp lib seed s ≡ code))
        → P s × (last < s) × (hotp lib seed s ≡ code)
    go false ascii same n y k rest = rest k
    go true false same n y k rest = absurd (cc)
    go true true true n y k rest =
        let it : x ≡ s = some-injective x s (returned-injective k) in
        (
          subst P it h.0,
          subst (λ (z : ℕ). last < z) it (ltb→lt last x n),
          subst (λ (z : ℕ). hotp lib seed z ≡ code) it (text_eq→eq (hotp lib seed x) code y),
        )
    go true true false n y k rest = rest k

around : (now : ℕ) → All (λ (s : ℕ). (now ≤ s + 1) × (s ≤ now + 1)) (window_around now)
around zero = ((omega arith, omega arith), ((omega arith, omega arith), tt))
around (suc n) =
    ((omega arith, omega arith), ((omega arith, omega arith), ((omega arith, omega arith), tt)))

verify_totp-IsFresh :
    (lib : Lib) (seed code : Text) (last now step : ℕ)
    → verify_totp lib seed code last now ≡ returned (some step)
    → IsFresh lib seed code last now step
unfolding verify_totp
verify_totp-IsFresh lib seed code last now step h = go (lib.is_digit code && (length code == 6)) h
  where
    go :
        (b : Bool)
        → (if b then first_step lib seed code last (window_around (now / 30000)) else returned none)
          ≡ returned (some step)
        → IsFresh lib seed code last now step
    go false k = absurd (cc)
    go true k =
        let (near, new, same) =
          first_step-eq lib seed code last (window_around (now / 30000)) step
            (λ (s : ℕ). (now / 30000 ≤ s + 1) × (s ≤ now / 30000 + 1)) (around (now / 30000)) k in
        record { is_new = new; not_early = near.0; not_late = near.1; matches = same }

-- What a sign-in with a code leaves.
pub record IsOnce (lib : Lib) (t : Typed) (now : ℕ) (old : Db) (p : Person) (step : ℕ) (new : Db)
    : Type 0 where
  pub credential : Credential
  pub seed : Text
  pub found : credential_of p.id old ≡ some credential
  pub seeded : credential.totp_seed ≡ some seed
  pub fresh : IsFresh lib seed (lib.strip t.totp) credential.totp_last_step now step
  pub stored : credential_of p.id new ≡ some (record credential { totp_last_step = step })

keep_step-stored :
    (pid : Text) (step last : ℕ) (db : Db) (c : Credential)
    → last < step
    → credential_of pid db ≡ some c
    → credential_of pid (keep_step pid (some step) db) ≡ some (record c { totp_last_step = step })
unfolding credential_of set_step
keep_step-stored pid zero last db c lt found = absurd (omega (arith, lt))
keep_step-stored pid (suc n) last db c lt found =
    let kept =
      first_of-change_if_same _ _ (λ (d : Credential). record d { totp_last_step = suc n })
        db.credentials (λ x. refl) found in
    kept
    ∙ ap (λ (b : Bool). some (if b then record c { totp_last_step = suc n } else c))
        (first_of-true _ db.credentials found)

check_code-IsFresh :
    (lib : Lib) (t : Typed) (now : ℕ) (p : Person) (last : ℕ) (o : Option Text) (okay : Bool)
    (step : ℕ)
    → check_code lib t now p last o ≡ returned (okay, some step)
    → (seed : Text) × (o ≡ some seed) × IsFresh lib seed (lib.strip t.totp) last now step
check_code-IsFresh lib t now p last none okay step h = absurd (ground arith)
check_code-IsFresh lib t now p last (some seed) okay step h = elim (Bool-cases (text_eq seed [])) [
  | inl y ↦ absurd (ground (arith, y))
  | inr n ↦
      let k : (verify_totp lib seed (lib.strip t.totp) last now >>= λ (o : Option ℕ).
      returned (code_result o))
          ≡ returned (okay, some step) =
        ground (arith, n) in
      let (o, verified, result) = >>=-eq-returned _ _ k in (seed, refl, go o verified result)
]
  where
    go :
        (o : Option ℕ)
        → verify_totp lib seed (lib.strip t.totp) last now ≡ returned o
        → ◌≡◌ {A = Outcome (Bool × Option ℕ)}
            (returned (code_result o))
            (returned (okay, some step))
        → IsFresh lib seed (lib.strip t.totp) last now step
    go none v r = absurd (cc)
    go (some s) v r =
        let same : s ≡ step = ground arith in
        verify_totp-IsFresh lib seed (lib.strip t.totp) last now step
          (v ∙ ap (λ (z : ℕ). returned (some z)) same)

check_secrets-IsFresh :
    (lib : Lib) (t : Typed) (now : ℕ) (p : Person) (o : Option Credential) (step : ℕ)
    → check_secrets lib t now (some p) o ≡ returned (true, some step)
    → (c : Credential) × (o ≡ some c)
      × (seed : Text) × (c.totp_seed ≡ some seed)
      × IsFresh lib seed (lib.strip t.totp) c.totp_last_step now step
check_secrets-IsFresh lib t now p none step h = absurd (ground arith)
check_secrets-IsFresh lib t now p (some c) step h =
    let k : (check_code lib t now p c.totp_last_step c.totp_seed >>= if_usable p)
        ≡ returned (true, some step) =
      ground arith in
    let ((okay, o), checks, result) = >>=-eq-returned _ _ k in
    let same : o ≡ some step = ground arith in
    let (seed, seeded, fresh) =
      check_code-IsFresh lib t now p c.totp_last_step c.totp_seed okay step
        (checks ∙ ap (λ (x : Option ℕ). returned (okay, x)) same) in
    (c, refl, seed, seeded, fresh)

judge-returned :
    (account ip : Text) (who : Option Person) (now : ℕ) (db : Db) (r : Outcome (Bool × Option ℕ))
    (p : Person) (o : Option ℕ)
    → (judge account ip who now db r).1 ≡ returned (p, o)
    → (who ≡ some p)
      × (r ≡ returned (true, o))
      × ((judge account ip who now db r).0
          ≡ keep_step p.id o (count_attempt account ip true now db))
judge-returned account ip who now db (raised e) p o h = absurd (cc)
judge-returned account ip none now db (returned (okay, step)) p o h = absurd (cc)
judge-returned account ip (some q) now db (returned (false, step)) p o h = absurd (cc)
judge-returned account ip (some q) now db (returned (true, step)) p o h =
    let same_one : q ≡ p = ground arith in
    let same_step : step ≡ o = ground arith in (cc, cc, ground (arith, same_one, same_step))

credential_kept :
    (pid account ip : Text) (okay : Bool) (now : ℕ) (db : Db)
    → credential_of pid (count_attempt account ip okay now db) ≡ credential_of pid db
unfolding credential_of
credential_kept pid account ip okay now db = refl

-- A person who signs in with a code does so with a step that is later than every one accepted
-- before, and that step is stored.
pub check_login-IsOnce :
    (lib : Lib) (t : Typed) (now : ℕ) (db : Db) (p : Person) (step : ℕ)
    → (check_login lib t now db).1 ≡ returned (p, some step)
    → IsOnce lib t now db p step (check_login lib t now db).0
unfolding check_login
check_login-IsOnce lib t now db p step h = go (throttle (account_of lib t) t.ip now db) h
  where
    account : Text
    account = account_of lib t

    who : Option Person
    who = named account db

    secrets : Outcome (Bool × Option ℕ)
    secrets = check_secrets lib t now who (secrets_of who db)

    passed :
        (who ≡ some p)
        → secrets ≡ returned (true, some step)
        → IsOnce lib t now db p step
            (keep_step p.id (some step) (count_attempt account t.ip true now db))
    passed is_p checks =
        let k : check_secrets lib t now (some p) (credential_of p.id db)
            ≡ returned (true, some step) =
          subst
            (λ (w : Option Person).
              check_secrets lib t now w (secrets_of w db) ≡ returned (true, some step))
            is_p checks in
        let (c, found, seed, seeded, fresh) =
          check_secrets-IsFresh lib t now p (credential_of p.id db) step k in
        record {
          credential = c;
          seed = seed;
          found = found;
          seeded = seeded;
          fresh = fresh;
          stored =
              keep_step-stored p.id step c.totp_last_step (count_attempt account t.ip true now db) c
                fresh.is_new (credential_kept p.id account t.ip true now db ∙ found);
        }

    go :
        (o : Outcome (Unit {0}))
        → (checked lib t now db o).1 ≡ returned (p, some step)
        → IsOnce lib t now db p step (checked lib t now db o).0
    go (raised e) k = absurd (cc)
    go (returned u) k =
        let (is_p, checks, leaves) =
          judge-returned account t.ip who now db secrets p (some step) k in
        subst (IsOnce lib t now db p step) (sym leaves) (passed is_p checks)

-- A code of the authenticator works once: where two sign-ins of a person follow each other and both
-- are accepted with a code, the second one's time step is later than the first one's, neither is
-- more than one step ahead of its clock, and each code is the code of its step.
pub check_login_once :
    (lib : Lib) (t u : Typed) (now later : ℕ) (db : Db) (p q : Person) (first second : ℕ)
    → (check_login lib t now db).1 ≡ returned (p, some first)
    → (check_login lib u later (check_login lib t now db).0).1 ≡ returned (q, some second)
    → q.id ≡ p.id
    → (seed : Text) × (first < second)
      × (first ≤ now / 30000 + 1)
      × (second ≤ later / 30000 + 1)
      × (hotp lib seed first ≡ lib.strip t.totp)
      × (hotp lib seed second ≡ lib.strip u.totp)
check_login_once lib t u now later db p q first second h k same =
    let a = check_login-IsOnce lib t now db p first h in
    let b = check_login-IsOnce lib u later (check_login lib t now db).0 q second k in
    let db1 = (check_login lib t now db).0 in
    let stays : b.credential ≡ record a.credential { totp_last_step = first } =
      some-injective _ _ (sym b.found ∙ (ap (λ (x : Text). credential_of x db1) same ∙ a.stored)) in
    let seeds : b.seed ≡ a.seed =
      some-injective _ _ (sym b.seeded ∙ (ap (λ (c : Credential). c.totp_seed) stays ∙ a.seeded)) in
    (
      a.seed,
      subst (λ (c : Credential). c.totp_last_step < second) stays b.fresh.is_new,
      a.fresh.not_late,
      b.fresh.not_late,
      a.fresh.matches,
      subst (λ (x : Text). hotp lib x second ≡ lib.strip u.totp) seeds b.fresh.matches,
    )
