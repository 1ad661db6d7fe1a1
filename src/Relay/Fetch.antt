-- ===== src/Relay/Fetch.antt =====
-- `gate` and `do_fetch` of relay/relay.py. What the world does at each hop is an argument.
pub mod Guarded
use minisserver_compose.Prelude.{
  ℕ, zero, suc, ◌+◌, ◌≡◌, Bool, true, false, not, ◌&&◌, Option, none, some, List, [], ◌∷◌, ◌++◌,
  ◌==◌, if◌then◌else◌, Text, codes, text_eq, Table, lookup, put, keep_if, split,
}
use minisserver_compose.Prelude.Int.{ℤ}
use minisserver_compose.Relay.Types.{
  Reason, Refusal, Result, ok, err, refuse, refuse_if, ◌>>=◌, ◌>>◌,
}
use minisserver_compose.Relay.Limits.{Limits, host_limits}
use minisserver_compose.Relay.Gate.{Gate, new_gate, take_token}
use minisserver_compose.Relay.Url.{Library, Entry, Target, validate_url}
use minisserver_compose.Relay.Store.{Store, Config, breaker_check, breaker_record}
use minisserver_compose.Relay.Hop.{Address, Visit, Contact, Page, has, fetch_hop, looks_blocked}

-- What is fixed while the relay runs: the libraries, the allow-list and the settings.
pub record Setup : Type 0 where
  pub urls : Library
  pub ip_address : Text → Option Address
  pub read_number : Text → Option ℤ
  pub rules : List Entry
  pub defaults : Limits
  pub max_body : ℕ
  pub config : Config

pub record HostGate : Type 0 where
  pub limits : Limits
  pub gate : Gate

pub record State : Type 0 where
  pub store : Store
  pub gates : Table HostGate

-- What the world does at a hop: the clocks at the breaker and at the gate's making, whether the host's semaphore comes
-- free, the clock at the gate and the rounds there, the network, and the clock at the end.
pub record Moment : Type 0 where
  pub now : ℕ
  pub created : ℕ
  pub is_acquired : Bool
  pub called : ℕ
  pub rounds : List (ℕ × ℕ)
  pub visit : Visit
  pub done : ℕ

abbrev same_limits : Limits → Limits → Bool
same_limits a b = (a.rate == b.rate) && ((a.burst == b.burst) && (a.concurrency == b.concurrency))

abbrev fresh_gate : Limits → ℕ → HostGate
fresh_gate lim now = record { limits = lim; gate = new_gate lim.rate lim.burst now }

abbrev gate_or : Limits → ℕ → Option HostGate → HostGate
gate_or lim now none = fresh_gate lim now
gate_or lim now (some g) = if same_limits g.limits lim then g else fresh_gate lim now

-- `gate(host, flags)`
unfoldable pub find_gate : Setup → Text → List Text → ℕ → Table HostGate → HostGate
find_gate setup host flags now gates =
    gate_or (host_limits setup.read_number setup.defaults flags) now (lookup host gates)

abbrev is_taken : Option Bool → Bool
is_taken (some true) = true
is_taken _ = false

abbrev before_sign : List Text → Text
before_sign [] = []
before_sign (t ∷ ts) = t

abbrev pub first_field : ℕ → Text → Text
first_field sep s = before_sign (split sep s)

-- One cookie per name, the last one wins.
unfoldable pub add_cookies : List Text → List Text → List Text
add_cookies [] cookies = cookies
add_cookies (c ∷ cs) cookies =
    let pair = first_field b';' c in
    add_cookies cs (
      keep_if (λ (x : Text). not (text_eq (first_field b'=' x) (first_field b'=' pair))) cookies
      ++ (pair ∷ []))

pub record Fetched : Type 0 where
  pub page : Page
  pub host : Text
  pub path : Text
  pub cookie_pairs : List Text

-- The rules and the breaker.
unfoldable pub admit : Setup → ℕ → Text → State → Result Target
admit setup now cur st =
    validate_url setup.urls setup.rules cur >>= λ t. breaker_check now t.host st.store >> ok t

abbrev pub with_target : Target → Page → Result (Target × Page)
with_target t p = ok (t, p)

-- The gate of the host and the network.
unfoldable pub visit_target :
    Setup
    → List (Text × Text)
    → Moment
    → Target
    → State
    → State × List Contact × Result (Target × Page)
unfolding find_gate
visit_target setup hdrs m t st =
    let g = find_gate setup t.host t.flags m.created st.gates in
    let (g1, taken) = take_token g.gate m.called m.rounds in
    let waiting = record st { gates = put t.host g st.gates } in
    let passed = record st { gates = put t.host (record g { gate = g1 }) st.gates } in
    let (made, page) = fetch_hop setup.ip_address setup.max_body t.host t.flags hdrs m.visit in
    if not m.is_acquired
    then (waiting, [], refuse 429 Reason.host_concurrency)
    else if is_taken taken
    then (passed, made, page >>= with_target t)
    else (passed, [], refuse 429 Reason.host_rate_limit)

-- A hop up to the page it returns: the state, the contacts made, and target and page.
unfoldable pub visit_url :
    Setup
    → List (Text × Text)
    → Moment
    → Text
    → State
    → State × List Contact × Result (Target × Page)
unfolding admit visit_target
visit_url setup hdrs m cur st = elim (admit setup m.now cur st) [
  | err e ↦ (st, [], err e)
  | ok t ↦ visit_target setup hdrs m t st
]

abbrev pub redirected : Result Target → Result (Unit {0})
redirected (ok t) = ok tt
redirected (err e) = refuse 502 (Reason.redirect_refused e.reason)

abbrev cookies_after : Target → Page → List Text → List Text
cookies_after t p cookies =
    if has (codes "cookies") t.flags then add_cookies p.cookies cookies else cookies

-- The last page: its outcome goes to the breaker.
unfoldable pub finish :
    Setup
    → Moment
    → Target
    → Page
    → List Text
    → State
    → List Contact
    → State × List Contact × Result Fetched
finish setup m t p cookies st made =
    let blocked = looks_blocked p.status p.body p.ctype in
    (
      record st { store = (breaker_record setup.config m.done t.host blocked st.store).0 },
      made,
      ok (record { page = p; host = t.host; path = t.path; cookie_pairs = cookies }),
    )

-- `urljoin(f"https://{host}{path}", res["loc"])`, `none` where it raises.
abbrev pub target_url : Setup → Target → Text → Option Text
target_url setup t loc = setup.urls.urljoin (codes "https://" ++ (t.host ++ t.path)) loc

-- What comes of a redirect, given what the hops from the next URL on do.
abbrev pub follow :
    State
    → List Contact
    → Result (Unit {0})
    → State × List Contact × Result Fetched
    → State × List Contact × Result Fetched
follow s made (err e) rest = (s, made, err e)
follow s made (ok _) (s1, more, f) = (s1, made ++ more, f)

abbrev pub Outcome : Type 0
Outcome = State × List Contact × Result Fetched

abbrev pub after_page :
    Setup
    → Moment
    → List Text
    → (Text → Outcome)
    → State
    → List Contact
    → Target
    → Page
    → Option Text
    → Outcome
after_page setup m cookies on_redirect s made t p none = finish setup m t p cookies s made
after_page setup m cookies on_redirect s made t p (some loc) = on_redirect loc

-- What comes of a hop, given what is done on a redirect with the cookies so far.
abbrev pub after_visit :
    Setup
    → Moment
    → List Text
    → (State → List Contact → Target → List Text → Text → Outcome)
    → State × List Contact × Result (Target × Page)
    → Outcome
after_visit setup m cookies on_redirect (s, made, err e) = (s, made, err e)
after_visit setup m cookies on_redirect (s, made, ok (t, p)) =
    let kept = cookies_after t p cookies in
    after_page setup m kept (on_redirect s made t kept) s made t p p.loc

abbrev pub give_up : State → List Contact → Target → List Text → Text → Outcome
give_up s made t kept loc = (s, made, refuse 502 Reason.too_many_redirects)

abbrev pub redirect_to :
    Setup
    → (Text → List Text → State → Outcome)
    → State
    → List Contact
    → List Text
    → Option Text
    → Outcome
redirect_to setup rest s made kept none = (s, made, refuse 500 Reason.internal)
redirect_to setup rest s made kept (some next) =
    follow s made (redirected (validate_url setup.urls setup.rules next)) (rest next kept s)

abbrev pub go_on :
    Setup
    → (Text → List Text → State → Outcome)
    → State
    → List Contact
    → Target
    → List Text
    → Text
    → Outcome
go_on setup rest s made t kept loc = redirect_to setup rest s made kept (target_url setup t loc)

-- `do_fetch` with `left` more redirects, at the URL `cur`.
unfoldable pub fetch_from :
    Setup → List (Text × Text) → (ℕ → Moment) → ℕ → Text → List Text → State → Outcome
unfolding visit_url add_cookies finish
fetch_from setup hdrs world zero cur cookies st =
    after_visit setup (world zero) cookies give_up (visit_url setup hdrs (world zero) cur st)
fetch_from setup hdrs world (suc left) cur cookies st =
    after_visit setup (world (suc left)) cookies (go_on setup (fetch_from setup hdrs world left))
      (visit_url setup hdrs (world (suc left)) cur st)

abbrev pub max_redirects : ℕ
max_redirects = 3

unfoldable pub do_fetch : Setup → List (Text × Text) → (ℕ → Moment) → Text → State → Outcome
unfolding fetch_from
do_fetch setup hdrs world url st = fetch_from setup hdrs world max_redirects url [] st
