-- ===== src/Relay/Examples.antt =====
-- The relay's theorems at concrete inputs.
use minisserver_compose.Prelude.{
  zero, suc, ℕ, ◌+◌, ◌*◌, ◌-◌, ◌≤◌, ◌≡◌, ◌≢◌, refl, Bool, true, false, Option, none, some, List, [],
  ◌∷◌, ◌++◌, if◌then◌else◌, arith, All, Text, codes, text_eq, length, starts_with, ends_with,
  lookup, put, keep_values, ◌⊎◌, max,
}
use minisserver_compose.Prelude.Int.{ℤ, pos}
use minisserver_compose.Relay.Types.{Reason, ok, refuse}
use minisserver_compose.Relay.Limits.{
  Limits, hard_max, IsClamped, partition_from, set_limit, apply_flag, apply_flags, host_limits,
  host_limits_bounds,
}
use minisserver_compose.Relay.Url.{
  Parts, Library, Entry, Target, match_allowlist, strip_dots, validate_url,
}
use minisserver_compose.Relay.Url.Allowed.{IsAllowed, validate_url-IsAllowed}
use minisserver_compose.Relay.Gate.{
  new_gate, refill, try_take, take_by, wait_max, run_rounds, take_token,
}
use minisserver_compose.Relay.Gate.Bound.{take_bound}
use minisserver_compose.Relay.Auth.{
  Crypto, Request, Auth, no_auth, sign, compare_digest, is_signed, prune, judge, purge, use_once,
  check_auth, check_all,
}
use minisserver_compose.Relay.Auth
use minisserver_compose.Relay.Auth.Replay.{check_auth_once}
use minisserver_compose.Relay.Auth.Limited.{count_bad, fails_of, since, check_all-count_bad}
use minisserver_compose.Relay.Store.{
  Store, Config, breaker_check, breaker_record, daily_of, daily_use, count_up,
}
use minisserver_compose.Relay.Store.Breaks.{record_bads, breaker_record_opens, breaker_record_keeps}
use minisserver_compose.Relay.Hop.{
  over, chunk, Contact, is_public_v4, resolve_public, read_body, shape_page, shape, sent_headers,
  contact_of, fetch_hop, lstrip, contains, looks_blocked,
}
use minisserver_compose.Relay.Fetch.{
  Setup, State, Moment, Fetched, find_gate, admit, visit_target, visit_url, finish, fetch_from,
  do_fetch,
}
use minisserver_compose.Relay.Fetch.Guarded.{IsGuarded, do_fetch-IsGuarded, do_fetch-length}
use minisserver_compose.Relay.Handler.{
  Incoming, Relay, fetch, forwarded, serve, handle_fetch, do_get,
}
use minisserver_compose.Relay.Handler.Ordered.{IsAdmitted, do_get-IsAdmitted}

abbrev defaults : Limits
defaults = record { rate = 1000; burst = 3000; concurrency = 2000 }

-- Reads no number but "9".
abbrev read_nine : Text → Option ℤ
read_nine s = if text_eq s (codes "9") then some (pos 9000) else none

host_limits_bounds_example :
    let lim = host_limits read_nine defaults (codes "rate=9" ∷ []) in
    IsClamped defaults.rate hard_max.rate lim.rate
    × IsClamped defaults.burst hard_max.burst lim.burst
    × (1000 ≤ lim.concurrency)
    × ((lim.concurrency ≤ hard_max.concurrency) ⊎ (lim.concurrency ≤ max 1000 defaults.concurrency))
host_limits_bounds_example = host_limits_bounds read_nine defaults (codes "rate=9" ∷ [])

take_bound_example :
    (run_rounds (new_gate 1000 3000 0) (10 ∷ 20 ∷ 2000 ∷ [])).1 * 1000000
    ≤ 3000 * 1000 + (2000 - 0) * 1000
take_bound_example =
    take_bound 1000 3000 0 (10 ∷ 20 ∷ 2000 ∷ []) (omega arith, (omega arith, (omega arith, tt)))

-- Rounds of a millisecond each.
abbrev slow_rounds : ℕ → ℕ → List (ℕ × ℕ)
slow_rounds zero t = []
slow_rounds (suc n) t = (t, suc t) ∷ slow_rounds n (suc t + 100)

-- A library that knows one URL, and an allow-list with its domain.
abbrev page_url : Text
page_url = codes "https://a.cz/x"

abbrev page_parts : Parts
page_parts = record {
  scheme = codes "https";
  netloc = codes "a.cz";
  port = some none;
  hostname = some (codes "a.cz");
  path = codes "/x";
  query = [];
}

abbrev urls : Library
urls = record {
  urlsplit = λ s. if text_eq s page_url then some page_parts else none;
  urljoin = λ base loc. some loc;
  lower = λ s. s;
  idna = λ s. some s;
  is_ip = λ s. false;
}

abbrev listed : Entry
listed = record { pattern_text = codes "a.cz"; flags = codes "images" ∷ [] }

abbrev page_target : Target
page_target = record { host = codes "a.cz"; path = codes "/x"; flags = codes "images" ∷ [] }

page_accepted : validate_url urls (listed ∷ []) page_url ≡ ok page_target
unfolding validate_url match_allowlist strip_dots text_eq starts_with ends_with
page_accepted = refl

validate_url-IsAllowed_example : IsAllowed urls (listed ∷ []) page_url page_target
validate_url-IsAllowed_example =
    validate_url-IsAllowed urls (listed ∷ []) page_url page_target page_accepted

abbrev auth_config : Auth.Config
auth_config = record { ts_window = 60; auth_fail_per_min = 2 }

-- Reads every timestamp as 100, and signs a text by the text itself.
abbrev plain_crypto : Crypto
plain_crypto = record { parse_int = λ s. some (pos 100); digest = λ s. s }

abbrev request_at : ℕ → Text → Request
request_at now sig = record {
  now = now;
  src = codes "10.0.0.1";
  ts = codes "100";
  sig = sig;
  url = page_url;
}

abbrev good_sig : Text
good_sig = codes "100\n" ++ page_url

abbrev first_request : Request
first_request = request_at 100000 good_sig

first_accepted : (check_auth auth_config plain_crypto no_auth first_request).1 ≡ ok tt
unfolding check_auth prune judge use_once purge is_signed compare_digest sign text_eq lookup put
    keep_values
first_accepted = refl

check_auth_once_example :
    (check_auth auth_config plain_crypto
      (check_all auth_config plain_crypto
        (check_auth auth_config plain_crypto no_auth first_request).0
        (request_at 101000 (codes "x") ∷ [])).0
      (request_at 102000 good_sig)).1
    ≢ ok tt
check_auth_once_example =
    check_auth_once auth_config plain_crypto (λ x y e. e) no_auth first_request
      (request_at 101000 (codes "x") ∷ []) (request_at 102000 good_sig) refl refl (omega arith, tt)
      (omega arith) first_accepted refl

abbrev bad_requests : List Request
bad_requests =
    request_at 100000 (codes "x")
    ∷ request_at 101000 (codes "y")
    ∷ request_at 102000 (codes "z")
    ∷ []

check_all-count_bad_example :
    count_bad
      (codes "10.0.0.1")
      bad_requests
      (check_all auth_config plain_crypto no_auth bad_requests).1
    ≤ 2 - since 100000 (fails_of no_auth (codes "10.0.0.1"))
check_all-count_bad_example =
    check_all-count_bad auth_config plain_crypto no_auth 100000 (codes "10.0.0.1") bad_requests
      ((omega arith, omega arith), ((omega arith, omega arith), ((omega arith, omega arith), tt)))

abbrev config : Config
config = record { threshold = 2; cooldown = 1000; daily_cap = 5 }

abbrev empty_store : Store
empty_store = record { killed = false; breaker = []; daily = none }

breaker_record_opens_example :
    breaker_check 1500 (codes "a.cz") (
      record_bads config
        (codes "a.cz")
        (breaker_record config 500 (codes "a.cz") false empty_store).0
        (600 ∷ 700 ∷ []))
    ≡ refuse 503 Reason.circuit_open
breaker_record_opens_example =
    breaker_record_opens config (codes "a.cz") empty_store 500 600 (700 ∷ []) 1500 refl
      (omega arith)

breaker_record_keeps_example :
    breaker_check 1500 (codes "a.cz") (
      record_bads config
        (codes "a.cz")
        (breaker_record config 500 (codes "a.cz") false empty_store).0
        (600 ∷ []))
    ≡ breaker_check 1500 (codes "a.cz") empty_store
breaker_record_keeps_example =
    breaker_record_keeps config (codes "a.cz") empty_store 500 (600 ∷ []) 1500 (omega arith)

abbrev uses : List Bool
uses = true ∷ false ∷ true ∷ true ∷ true ∷ []

abbrev setup : Setup
setup = record {
  urls = urls;
  ip_address = λ s. some (record { version = 4; is_global = true; is_multicast = false });
  read_number = read_nine;
  rules = listed ∷ [];
  defaults = defaults;
  max_body = 10;
  config = config;
}

-- A moment at which the page is there.
abbrev moment : Moment
moment = record {
  now = 0;
  created = 0;
  is_acquired = true;
  called = 0;
  rounds = (0, 0) ∷ [];
  visit = record {
    answers = some (codes "1.2.3.4" ∷ []);
    is_over = false;
    reply = ok (record {
      status = 200;
      loc = none;
      ctype = codes "text/html";
      enc = [];
      cookies = [];
      reads = chunk (codes "hello") over;
    });
  };
  done = 5;
}

abbrev initial : State
initial = record { store = empty_store; gates = [] }

abbrev fetched : Fetched
fetched = record {
  page = record {
    status = 200;
    loc = none;
    body = codes "hello";
    ctype = codes "text/html";
    cookies = [];
  };
  host = codes "a.cz";
  path = codes "/x";
  cookie_pairs = [];
}

do_fetch-IsGuarded_example :
    All (IsGuarded setup []) (do_fetch setup [] (λ n. moment) page_url initial).1
    × (length (do_fetch setup [] (λ n. moment) page_url initial).1 ≤ 4)
do_fetch-IsGuarded_example = do_fetch-IsGuarded setup [] (λ n. moment) page_url initial

page_fetched : (do_fetch setup [] (λ n. moment) page_url initial).2 ≡ ok fetched
unfolding do_fetch fetch_from visit_url admit visit_target contact_of validate_url match_allowlist
    strip_dots text_eq starts_with ends_with breaker_check lookup put find_gate host_limits
    apply_flags apply_flag set_limit partition_from new_gate refill try_take take_by wait_max
    take_token fetch_hop resolve_public is_public_v4 sent_headers read_body shape_page shape lstrip
    contains looks_blocked finish breaker_record
page_fetched = refl

do_fetch-length_example : 5 ≤ 10
do_fetch-length_example =
    do_fetch-length setup [] (λ n. moment) page_url initial fetched page_fetched

abbrev incoming : Incoming
incoming = record {
  path_length = 40;
  route = fetch;
  signed = first_request;
  header = λ name. none;
  today = codes "2026-11-25";
  is_free = true;
  world = λ n. moment;
}

abbrev relay : Relay
relay = record { auth = no_auth; state = initial }

abbrev contacted : List Contact
contacted = record { address = codes "1.2.3.4"; host = codes "a.cz"; headers = [] } ∷ []

page_contacts : (do_get setup auth_config plain_crypto incoming relay).1 ≡ contacted
unfolding do_get handle_fetch serve forwarded daily_use daily_of count_up check_auth prune judge
    use_once purge is_signed compare_digest sign keep_values do_fetch fetch_from visit_url admit
    visit_target contact_of validate_url match_allowlist strip_dots text_eq starts_with ends_with
    breaker_check lookup put find_gate host_limits apply_flags apply_flag set_limit partition_from
    new_gate refill try_take take_by wait_max take_token fetch_hop resolve_public is_public_v4
    sent_headers read_body shape_page shape lstrip contains looks_blocked finish breaker_record
page_contacts = refl

page_served : (do_get setup auth_config plain_crypto incoming relay).1 ≢ []
page_served h = absurd (cc (page_contacts, h))

do_get-IsAdmitted_example : IsAdmitted setup auth_config plain_crypto incoming relay
do_get-IsAdmitted_example =
    do_get-IsAdmitted setup auth_config plain_crypto incoming relay page_served
