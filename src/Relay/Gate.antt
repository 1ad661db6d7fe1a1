-- ===== src/Relay/Gate.antt =====
-- `HostGate` of relay/relay.py: a token bucket. Tokens are millionths, times are milliseconds of
-- the monotonic clock and rates thousandths of a token per second, so that every step is exact.
pub mod Bound
use minisserver_compose.Prelude.{
  ℕ, zero, suc, ◌+◌, ◌-◌, ◌*◌, min, ◌≡◌, Bool, true, false, Option, none, some, List, [], ◌∷◌, leb,
  ltb, if◌then◌else◌,
}

abbrev pub one_token : ℕ
one_token = 1000000

pub record Gate : Type 0 where
  pub rate : ℕ
  pub burst : ℕ
  pub tokens : ℕ
  pub t : ℕ

-- `HostGate(limits)` at time `now`; rate and burst are thousandths.
unfoldable pub new_gate : ℕ → ℕ → ℕ → Gate
new_gate rate burst now = record {
  rate = rate;
  burst = burst * 1000;
  tokens = burst * 1000;
  t = now;
}

unfoldable pub refill : Gate → ℕ → Gate
refill g now = record g { tokens = min g.burst (g.tokens + (now - g.t) * g.rate); t = now }

-- One round under the lock.
unfoldable pub try_take : Gate → ℕ → Gate × Bool
unfolding refill
try_take g now =
    let f = refill g now in
    if leb one_token f.tokens
    then (record f { tokens = f.tokens - one_token }, true)
    else (f, false)

-- `take`: a round reads the clock under the lock, and once more to see whether `end` is reached.
-- `none` stands for rounds that have not come yet.
unfoldable pub take_by : ℕ → Gate → List (ℕ × ℕ) → Gate × Option Bool
take_by end g [] = (g, none)
take_by end g ((now, after) ∷ rounds) =
    let (f, taken) = try_take g now in
    let rest = take_by end f rounds in
    if taken then (f, some true) else if leb end after then (f, some false) else rest

unfoldable pub wait_max : ℕ
wait_max = 3000

-- `take()` called at time `called`.
unfoldable pub take_token : Gate → ℕ → List (ℕ × ℕ) → Gate × Option Bool
unfolding take_by wait_max
take_token g called rounds = take_by (called + wait_max) g rounds

-- The rounds of all callers in the order in which they take the lock: the gate, and how many got
-- a token.
unfoldable pub run_rounds : Gate → List ℕ → Gate × ℕ
run_rounds g [] = (g, 0)
run_rounds g (now ∷ times) =
    let (f, taken) = try_take g now in
    let (h, n) = run_rounds f times in (h, if taken then suc n else n)
