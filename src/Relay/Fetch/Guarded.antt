-- ===== src/Relay/Fetch/Guarded.antt =====
-- What a fetch contacts and returns.
use minisserver_compose.Prelude.{
  ℕ, zero, suc, ◌≤◌, ◌≡◌, refl, sym, subst, Option, none, some, List, [], arith, Text, length,
  length-append, All, All-append,
}
use minisserver_compose.Relay.Types.{Reason, Refusal, Result, ok, err, ◌>>=◌, >>=-eq-ok}
use minisserver_compose.Relay.Url.{Target, validate_url}
use minisserver_compose.Relay.Url.Allowed.{IsAllowed, validate_url-IsAllowed}
use minisserver_compose.Relay.Store.{breaker_check}
use minisserver_compose.Relay.Hop.{Contact, Page, fetch_hop}
use minisserver_compose.Relay.Hop.Checked.{
  IsPublic, is_public_v4-IsPublic, AreGranted, sent_headers-AreGranted, fetch_hop-contacts,
  fetch_hop-length,
}
use minisserver_compose.Relay.Fetch.{
  Setup, State, Moment, Fetched, admit, visit_target, visit_url, finish, with_target, give_up,
  go_on, redirect_to, follow, redirected, target_url, Outcome, after_page, after_visit, fetch_from,
  do_fetch,
}

-- A contact that the rules allow: to the host of an allowed URL, at a public address, where what is
-- passed on of the caller's headers has a cookie only if the host's line of the allow-list grants it.
pub record IsGuarded (setup : Setup) (hdrs : List (Text × Text)) (c : Contact) : Type 0 where
  pub url : Text
  pub target : Target
  pub allowed : IsAllowed setup.urls setup.rules url target
  pub host_of : c.host ≡ target.host
  pub public_address : IsPublic setup.ip_address c.address
  pub headers_of : AreGranted target.flags hdrs c.headers

module _ (setup : Setup) (hdrs : List (Text × Text)) where
  -- At most `n` contacts, each one guarded.
  abbrev Guarded : ℕ → List Contact → Type 0
  Guarded n cs = All (IsGuarded setup hdrs) cs × (length cs ≤ n)

  abbrev IsSmall : Result Fetched → Type 0
  IsSmall r = (f : Fetched) → r ≡ ok f → length f.page.body ≤ setup.max_body

  admit-IsAllowed :
      (now : ℕ) (cur : Text) (st : State) (t : Target)
      → admit setup now cur st ≡ ok t
      → IsAllowed setup.urls setup.rules cur t
  unfolding admit
  admit-IsAllowed now cur st t h =
      let (x, p, h1) = >>=-eq-ok (validate_url setup.urls setup.rules cur) _ h in
      let (u, q, h2) = >>=-eq-ok (breaker_check now x.host st.store) _ h1 in
      let same : x ≡ t = ground (arith, h2) in
      subst (λ (y : Target). IsAllowed setup.urls setup.rules cur y) same
        (validate_url-IsAllowed setup.urls setup.rules cur x p)

  visit_target-Guarded :
      (m : Moment) (cur : Text) (t : Target) (st : State)
      → IsAllowed setup.urls setup.rules cur t
      → Guarded 1 (visit_target setup hdrs m t st).1
  unfolding visit_target
  visit_target-Guarded m cur t st h =
      let g =
        fetch_hop-contacts setup.ip_address setup.max_body t.host t.flags hdrs m.visit
          (IsGuarded setup hdrs)
          (λ (c : Contact) p q r. record {
            url = cur;
            target = t;
            allowed = h;
            host_of = q;
            public_address = is_public_v4-IsPublic setup.ip_address c.address p;
            headers_of =
                subst (AreGranted t.flags hdrs) (sym r) (sent_headers-AreGranted t.flags hdrs);
          }) in
      ground (arith, g)

  visit_url-Guarded :
      (m : Moment) (cur : Text) (st : State) → Guarded 1 (visit_url setup hdrs m cur st).1
  unfolding visit_url
  visit_url-Guarded m cur st = go (admit setup m.now cur st) refl
    where
      go :
          (r : Result Target)
          → admit setup m.now cur st ≡ r
          → Guarded 1
              (elim r as (λ (x : Result Target). State × List Contact × Result (Target × Page)) [
                | err e ↦ (st, [], err e)
                | ok t ↦ visit_target setup hdrs m t st
              ]).1
      go (err e) h = (tt, omega arith)
      go (ok t) h = visit_target-Guarded m cur t st (admit-IsAllowed m.now cur st t h)

  -- What a hop returns is within the limit.
  abbrev IsSmallPage : Result (Target × Page) → Type 0
  IsSmallPage r = (t : Target) (p : Page) → r ≡ ok (t, p) → length p.body ≤ setup.max_body

  err-IsSmallPage : (e : Refusal) → IsSmallPage (err e)
  err-IsSmallPage e t p h = absurd (cc)

  visit_target-IsSmallPage :
      (m : Moment) (t : Target) (st : State) → IsSmallPage (visit_target setup hdrs m t st).2
  unfolding visit_target
  visit_target-IsSmallPage m t st x p h =
      let made = fetch_hop setup.ip_address setup.max_body t.host t.flags hdrs m.visit in
      let answered : (made.1 >>= with_target t) ≡ ok (x, p) = ground (arith, h) in
      let (q, e, f) = >>=-eq-ok made.1 (with_target t) answered in
      let same : q ≡ p = ground (arith, f) in
      subst (λ (y : Page). length y.body ≤ setup.max_body) same
        (fetch_hop-length setup.ip_address setup.max_body t.host t.flags hdrs m.visit q e)

  -- What a fetch comes to: few contacts, each of them guarded, and a small page if there is one.
  abbrev IsFine : ℕ → Outcome → Type 0
  IsFine n (s, made, r) = Guarded n made × IsSmall r

  err-IsFine :
      (n : ℕ) (s : State) (made : List Contact) (e : Refusal)
      → Guarded n made
      → IsFine n (s, made, err e)
  err-IsFine n s made e g = (g, λ f h. absurd (cc (h)))

  follow-IsFine :
      (n : ℕ) (s : State) (made : List Contact) (r : Result (Unit {0})) (rest : Outcome)
      → Guarded 1 made
      → IsFine n rest
      → IsFine (suc n) (follow s made r rest)
  follow-IsFine n s made (err e) rest (a, l) h = err-IsFine (suc n) s made e (a, omega (arith, l))
  follow-IsFine n s made (ok _) (s1, more, f) (a, l) ((b, k), small) = (
    (All-append (IsGuarded setup hdrs) made more a b, omega (arith, l, k, length-append made more)),
    small,
  )

  after_page-IsFine :
      (n : ℕ) (m : Moment) (kept : List Text) (on_redirect : Text → Outcome) (s : State)
      (made : List Contact) (t : Target) (p : Page) (o : Option Text)
      → Guarded n made
      → length p.body ≤ setup.max_body
      → ((loc : Text) → IsFine n (on_redirect loc))
      → IsFine n (after_page setup m kept on_redirect s made t p o)
  unfolding finish
  after_page-IsFine n m kept on_redirect s made t p none g small f =
      (g, λ x h. subst (λ (y : Text). length y ≤ setup.max_body) (body_of x h) small)
    where
      body_of :
          (x : Fetched)
          → ok (record { page = p; host = t.host; path = t.path; cookie_pairs = kept }) ≡ ok x
          → p.body ≡ x.page.body
      body_of x h = ground (arith, h)
  after_page-IsFine n m kept on_redirect s made t p (some loc) g small f = f loc

  after_visit-IsFine :
      (n : ℕ) (m : Moment) (cookies : List Text)
      (on_redirect : State → List Contact → Target → List Text → Text → Outcome)
      (v : State × List Contact × Result (Target × Page))
      → 1 ≤ n
      → Guarded 1 v.1
      → IsSmallPage v.2
      → ((s : State) (made : List Contact) (t : Target) (kept : List Text) (loc : Text)
          → Guarded 1 made
          → IsFine n (on_redirect s made t kept loc))
      → IsFine n (after_visit setup m cookies on_redirect v)
  after_visit-IsFine n m cookies on_redirect (s, made, err e) le (a, l) small f =
      err-IsFine n s made e (a, omega (arith, l, le))
  after_visit-IsFine n m cookies on_redirect (s, made, ok (t, p)) le (a, l) small f =
      after_page-IsFine n m _ _ s made t p p.loc (a, omega (arith, l, le)) (small t p refl)
        (λ loc. f s made t _ loc (a, l))

  visit_url-IsSmallPage :
      (m : Moment) (cur : Text) (st : State) → IsSmallPage (visit_url setup hdrs m cur st).2
  unfolding visit_url
  visit_url-IsSmallPage m cur st = go (admit setup m.now cur st)
    where
      go :
          (r : Result Target)
          → IsSmallPage
              (elim r as (λ (x : Result Target). State × List Contact × Result (Target × Page)) [
                | err e ↦ (st, [], err e)
                | ok t ↦ visit_target setup hdrs m t st
              ]).2
      go (err e) = err-IsSmallPage e
      go (ok t) = visit_target-IsSmallPage m t st

  redirect_to-IsFine :
      (left : ℕ) (rest : Text → List Text → State → Outcome) (s : State) (made : List Contact)
      (kept : List Text) (o : Option Text)
      → Guarded 1 made
      → ((next : Text) → IsFine (suc left) (rest next kept s))
      → IsFine (suc (suc left)) (redirect_to setup rest s made kept o)
  redirect_to-IsFine left rest s made kept none (a, l) f =
      err-IsFine (suc (suc left)) s made (record { status = 500; reason = Reason.internal })
        (a, omega (arith, l))
  redirect_to-IsFine left rest s made kept (some next) g f =
      follow-IsFine (suc left) s made (redirected (validate_url setup.urls setup.rules next))
        (rest next kept s) g (f next)

  fetch_from-IsFine :
      (world : ℕ → Moment) (left : ℕ) (cur : Text) (cookies : List Text) (st : State)
      → IsFine (suc left) (fetch_from setup hdrs world left cur cookies st)
  unfolding fetch_from
  fetch_from-IsFine world zero cur cookies st =
      after_visit-IsFine 1 (world zero) cookies give_up (visit_url setup hdrs (world zero) cur st)
        (omega arith) (visit_url-Guarded (world zero) cur st)
        (visit_url-IsSmallPage (world zero) cur st)
        (λ s made t kept loc g.
          err-IsFine 1 s made (record { status = 502; reason = Reason.too_many_redirects }) g)
  fetch_from-IsFine world (suc left) cur cookies st =
      let m = world (suc left) in
      after_visit-IsFine (suc (suc left)) m cookies (go_on setup (fetch_from setup hdrs world left))
        (visit_url setup hdrs m cur st) (omega arith) (visit_url-Guarded m cur st)
        (visit_url-IsSmallPage m cur st)
        (λ s made t kept loc g.
          redirect_to-IsFine left (fetch_from setup hdrs world left) s made kept
            (target_url setup t loc) g (λ next. fetch_from-IsFine world left next kept s))

-- Whatever the network answers, a fetch makes at most four contacts, each one at a public IPv4
-- address, for the host of a URL that the rules allow. Every header that it passes on is one of the
-- caller's, and a cookie is among them only where the line of the allow-list has the flag for it.
pub do_fetch-IsGuarded :
    (setup : Setup) (hdrs : List (Text × Text)) (world : ℕ → Moment) (url : Text) (st : State)
    → let (s, made, r) = do_fetch setup hdrs world url st in
      All (IsGuarded setup hdrs) made × (length made ≤ 4)
unfolding do_fetch
do_fetch-IsGuarded setup hdrs world url st = (fetch_from-IsFine setup hdrs world 3 url [] st).0

-- A page that a fetch returns has no more bytes than the limit, compressed or not.
pub do_fetch-length :
    (setup : Setup) (hdrs : List (Text × Text)) (world : ℕ → Moment) (url : Text) (st : State)
    (f : Fetched)
    → (do_fetch setup hdrs world url st).2 ≡ ok f
    → length f.page.body ≤ setup.max_body
unfolding do_fetch
do_fetch-length setup hdrs world url st = (fetch_from-IsFine setup hdrs world 3 url [] st).1
