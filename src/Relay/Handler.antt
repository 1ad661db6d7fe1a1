-- ===== src/Relay/Handler.antt =====
-- `Handler.do_GET` of relay/relay.py: the order of the checks. Writing the response and the log is
-- not modelled.
pub mod Ordered
use minisserver_compose.Prelude.{
  ℕ, zero, suc, ◌+◌, ◌≡◌, Bool, true, false, not, Option, none, some, List, [], ◌∷◌, ◌++◌, leb, ltb,
  if◌then◌else◌, Text, codes, take,
}
use minisserver_compose.Relay.Types.{Reason, Refusal, Result, ok, err}
use minisserver_compose.Relay.Url.{max_url_len}
use minisserver_compose.Relay.Auth.{Crypto, Request, Auth, check_auth}
use minisserver_compose.Relay.Auth
use minisserver_compose.Relay.Store.{Store, daily_use}
use minisserver_compose.Relay.Hop.{Contact}
use minisserver_compose.Relay.Fetch.{Setup, State, Moment, Fetched, Outcome, do_fetch}

pub data Route : Type 0 where
  healthz fetch elsewhere : Route

-- A GET request: the length of its path, where it leads, what `check_auth` reads, its
-- `X-Fwd-` headers by name, the day, whether the semaphore of all requests comes free, and the world.
pub record Incoming : Type 0 where
  pub path_length : ℕ
  pub route : Route
  pub signed : Request
  pub header : Text → Option Text
  pub today : Text
  pub is_free : Bool
  pub world : ℕ → Moment

-- The state of all requests.
pub record Relay : Type 0 where
  pub auth : Auth
  pub state : State

pub data Answer : Type 0 where
  healthy : Answer
  plain : ℕ → Reason → Answer
  page : Fetched → Answer

-- `FORWARD_HEADERS`, the names in the spelling they are sent with.
abbrev pub forward_headers : List Text
forward_headers =
    codes "User-Agent"
    ∷ codes "Accept"
    ∷ codes "Accept-Language"
    ∷ codes "Referer"
    ∷ codes "Cookie"
    ∷ []

abbrev forward_one : Text → Option Text → List (Text × Text)
forward_one name none = []
forward_one name (some []) = []
forward_one name (some (c ∷ v)) = (name, take 4096 (c ∷ v)) ∷ []

unfoldable pub forwarded : (Text → Option Text) → List Text → List (Text × Text)
forwarded header [] = []
forwarded header (name ∷ names) = forward_one name (header name) ++ forwarded header names

abbrev answer_of : Result Fetched → Answer
answer_of (ok f) = page f
answer_of (err e) = plain e.status e.reason

-- From the second daily count on.
unfoldable pub serve : Setup → Incoming → Auth → State → Relay × List Contact × Answer
unfolding forwarded
serve setup i auth st =
    let counted = record st { store = (daily_use setup.config i.today true st.store).0 } in
    let (s, made, r) =
      do_fetch setup (forwarded i.header forward_headers) i.world i.signed.url counted in
    (record { auth = auth; state = s }, made, answer_of r)

abbrev pub after_auth :
    Setup → Incoming → State → Auth → Result (Unit {0}) → Relay × List Contact × Answer
after_auth setup i st auth (err e) =
    (record { auth = auth; state = st }, [], plain e.status e.reason)
after_auth setup i st auth (ok _) =
    if i.is_free
    then serve setup i auth st
    else (record { auth = auth; state = st }, [], plain 503 Reason.global_concurrency)

-- `/fetch`
unfoldable pub handle_fetch :
    Setup → Auth.Config → Crypto → Incoming → Relay → Relay × List Contact × Answer
unfolding serve
handle_fetch setup cfg lib i r =
    let (store, n, _) = daily_use setup.config i.today false r.state.store in
    let st = record r.state { store = store } in
    let (auth, verdict) = check_auth cfg lib r.auth i.signed in
    if r.state.store.killed
    then (r, [], plain 503 Reason.killed)
    else if leb setup.config.daily_cap n
    then (record r { state = st }, [], plain 503 Reason.daily_cap)
    else after_auth setup i st auth verdict

abbrev pub by_route :
    Setup → Auth.Config → Crypto → Incoming → Relay → Route → Relay × List Contact × Answer
by_route setup cfg lib i r healthz = (r, [], healthy)
by_route setup cfg lib i r elsewhere = (r, [], plain 404 Reason.no_such_path)
by_route setup cfg lib i r fetch = handle_fetch setup cfg lib i r

unfoldable pub do_get :
    Setup → Auth.Config → Crypto → Incoming → Relay → Relay × List Contact × Answer
unfolding handle_fetch
do_get setup cfg lib i r =
    if ltb (max_url_len + 256) i.path_length
    then (r, [], plain 414 Reason.request_uri_too_long)
    else by_route setup cfg lib i r i.route
