-- ===== src/Relay/Store.antt =====
-- The relay's state file, `relay.json` of relay/relay.py: the circuit breaker and the daily count.
-- Times are milliseconds. `0.8 * DAILY_CAP` is taken exactly.
pub mod Breaks
pub mod Counts
use minisserver_compose.Prelude.{
  ℕ, zero, suc, ◌+◌, ◌*◌, ◌≡◌, Bool, true, false, not, ◌&&◌, Option, none, some, List, [], ◌∷◌,
  ◌++◌, leb, ltb, if◌then◌else◌, Text, text_eq, Table, lookup, put,
}
use minisserver_compose.Relay.Types.{Reason, Refusal, Result, ok, err, refuse, refuse_if}

pub record Breaker : Type 0 where
  pub streak : ℕ
  pub open_until : ℕ

pub record Daily : Type 0 where
  pub day : Text
  pub n : ℕ
  pub alerted80 : Bool

-- What `load_state` reads and `save_state` writes.
pub record Store : Type 0 where
  pub killed : Bool
  pub breaker : Table Breaker
  pub daily : Option Daily

-- What goes to `events.jsonl` from here.
pub data Event : Type 0 where
  breaker_open : Text → Event
  cap80 : ℕ → Event

-- `BREAKER_THRESHOLD`, `BREAKER_COOLDOWN` and `DAILY_CAP`
pub record Config : Type 0 where
  pub threshold : ℕ
  pub cooldown : ℕ
  pub daily_cap : ℕ

abbrev pub breaker_or_new : Option Breaker → Breaker
breaker_or_new none = record { streak = 0; open_until = 0 }
breaker_or_new (some b) = b

abbrev pub breaker_of : Store → Text → Breaker
breaker_of st host = breaker_or_new (lookup host st.breaker)

abbrev check_open : ℕ → Option Breaker → Result (Unit {0})
check_open now none = ok tt
check_open now (some b) = refuse_if (ltb now b.open_until) 503 Reason.circuit_open

unfoldable pub breaker_check : ℕ → Text → Store → Result (Unit {0})
breaker_check now host st = check_open now (lookup host st.breaker)

abbrev pub is_tripped : Config → Breaker → Bool → Bool
is_tripped cfg b bad = bad && leb cfg.threshold (suc b.streak)

abbrev pub next_breaker : Config → ℕ → Breaker → Bool → Breaker
next_breaker cfg now b false = record b { streak = 0 }
next_breaker cfg now b true =
    if leb cfg.threshold (suc b.streak)
    then record { streak = 0; open_until = now + cfg.cooldown }
    else record b { streak = suc b.streak }

unfoldable pub breaker_record : Config → ℕ → Text → Bool → Store → Store × List Event
breaker_record cfg now host bad st =
    let b = breaker_of st host in
    (
      record st { breaker = put host (next_breaker cfg now b bad) st.breaker },
      if is_tripped cfg b bad then breaker_open host ∷ [] else [],
    )

abbrev pub new_day : Text → Daily
new_day today = record { day = today; n = 0; alerted80 = false }

-- The entry of the day, a new one where there is none or another day's.
unfoldable pub daily_of : Text → Option Daily → Daily
daily_of today none = new_day today
daily_of today (some d) = if text_eq d.day today then d else new_day today

abbrev pub is_over80 : Config → ℕ → Bool
is_over80 cfg n = leb (8 * cfg.daily_cap) (10 * n)

unfoldable pub count_up : Config → Daily → Daily × List Event
count_up cfg d =
    let n1 = suc d.n in
    if is_over80 cfg n1 && not d.alerted80
    then (record d { n = n1; alerted80 = true }, cap80 n1 ∷ [])
    else (record d { n = n1 }, [])

unfoldable pub daily_use : Config → Text → Bool → Store → Store × ℕ × List Event
unfolding daily_of count_up
daily_use cfg today increment st =
    let d = daily_of today st.daily in
    let (e, events) = if increment then count_up cfg d else (d, []) in
    (record st { daily = some e }, e.n, events)
