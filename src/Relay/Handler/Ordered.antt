-- ===== src/Relay/Handler/Ordered.antt =====
-- What must hold before the relay contacts anyone.
use minisserver_compose.Prelude.{
  ℕ, some, lookup, ◌+◌, ◌<◌, ◌≡◌, ◌≢◌, refl, Bool, true, false, List, [], leb, ltb, leb→lt,
  if◌then◌else◌, arith, Bool-cases, inl, inr,
}
use minisserver_compose.Relay.Types.{Reason, Result, ok, err}
use minisserver_compose.Relay.Url.{max_url_len}
use minisserver_compose.Relay.Auth.{Crypto, Request, Auth, check_auth}
use minisserver_compose.Relay.Auth
use minisserver_compose.Relay.Auth.Replay.{IsSigned, check_auth-IsSigned, check_auth-fresh}
use minisserver_compose.Relay.Store.{daily_use}
use minisserver_compose.Relay.Hop.{Contact}
use minisserver_compose.Relay.Fetch.{Setup, State}
use minisserver_compose.Relay.Handler.{
  Route, healthz, fetch, elsewhere, Incoming, Relay, Answer, plain, after_auth, handle_fetch,
  by_route, do_get,
}

-- What lets a request through.
pub record IsAdmitted (setup : Setup) (cfg : Auth.Config) (lib : Crypto) (i : Incoming) (r : Relay)
    : Type 0 where
  pub not_killed : r.state.store.killed ≡ false
  pub below_cap : (daily_use setup.config i.today false r.state.store).1 < setup.config.daily_cap
  pub accepted : (check_auth cfg lib r.auth i.signed).1 ≡ ok tt
  pub signed : IsSigned cfg lib i.signed
  pub unseen : (e : ℕ) → lookup i.signed.sig r.auth.seen ≡ some e → e < i.signed.now
  pub free : i.is_free ≡ true

pick_last :
    (k c : Bool) (a b d : Relay × List Contact × Answer)
    → a.1 ≡ []
    → b.1 ≡ []
    → (if k then a else if c then b else d).1 ≢ []
    → (k ≡ false) × (c ≡ false) × (d.1 ≢ [])
pick_last true c a b d p q h = absurd (h p)
pick_last false true a b d p q h = absurd (h q)
pick_last false false a b d p q h = (refl, refl, h)

module _ (setup : Setup) (cfg : Auth.Config) (lib : Crypto) (i : Incoming) where
  after_auth-admitted :
      (st : State) (auth : Auth) (v : Result (Unit {0}))
      → (after_auth setup i st auth v).1 ≢ []
      → (v ≡ ok tt) × (i.is_free ≡ true)
  after_auth-admitted st auth (err e) h = absurd (h refl)
  after_auth-admitted st auth (ok tt) h = elim (Bool-cases i.is_free) [
    | inl y ↦ (refl, y)
    | inr n ↦ absurd (ground (arith, n, h))
  ]

  handle_fetch-IsAdmitted :
      (r : Relay) → (handle_fetch setup cfg lib i r).1 ≢ [] → IsAdmitted setup cfg lib i r
  unfolding handle_fetch
  handle_fetch-IsAdmitted r h =
      let (store, n, _) = daily_use setup.config i.today false r.state.store in
      let st = record r.state { store = store } in
      let (auth, verdict) = check_auth cfg lib r.auth i.signed in
      let (alive, few, rest) =
        pick_last r.state.store.killed (leb setup.config.daily_cap n)
          (r, [], plain 503 Reason.killed) (record r { state = st }, [], plain 503 Reason.daily_cap)
          (after_auth setup i st auth verdict) refl refl h in
      let (accepted, free) = after_auth-admitted st auth verdict rest in
      record {
        not_killed = alive;
        below_cap = leb→lt _ _ few;
        accepted = accepted;
        signed = check_auth-IsSigned cfg lib r.auth i.signed accepted;
        unseen = check_auth-fresh cfg lib r.auth i.signed accepted;
        free = free;
      }

  by_route-IsAdmitted :
      (r : Relay) (route : Route)
      → (by_route setup cfg lib i r route).1 ≢ []
      → IsAdmitted setup cfg lib i r
  by_route-IsAdmitted r healthz h = absurd (h refl)
  by_route-IsAdmitted r elsewhere h = absurd (h refl)
  by_route-IsAdmitted r fetch h = handle_fetch-IsAdmitted r h

-- The relay contacts nobody for a request, whatever its route, unless it is not killed, the count
-- of the day is below the cap, the semaphore of all requests is free, and the request is accepted: its
-- signature is of the secret over its timestamp and URL, the timestamp is within the window of the
-- clock, and the signature is not remembered, or only up to a moment that is over.
pub do_get-IsAdmitted :
    (setup : Setup) (cfg : Auth.Config) (lib : Crypto) (i : Incoming) (r : Relay)
    → (do_get setup cfg lib i r).1 ≢ []
    → IsAdmitted setup cfg lib i r
unfolding do_get
do_get-IsAdmitted setup cfg lib i r h = elim (Bool-cases (ltb (max_url_len + 256) i.path_length)) [
  | inl y ↦ absurd (ground (arith, y, h))
  | inr n ↦ by_route-IsAdmitted setup cfg lib i r i.route (λ e. h (rw n e))
]
