-- ===== src/Relay/Store/Counts.antt =====
-- What the daily count counts.
use minisserver_compose.Prelude.{
  ℕ, ◌+◌, ◌≡◌, Bool, ◌&&◌, List, [], ◌∷◌, ◌++◌, ltb, if◌then◌else◌, Text, length,
}
use minisserver_compose.Relay.Store.{Daily, Store, Event, Config, is_over80, daily_use}

-- Calls of `daily_use` on one day, in their order: the state, and the alerts they raise.
unfoldable pub use_all : Config → Text → List Bool → Store → Store × List Event
use_all cfg today [] st = (st, [])
use_all cfg today (inc ∷ incs) st =
    let (s, _, es) = daily_use cfg today inc st in
    let (u, fs) = use_all cfg today incs s in (u, es ++ fs)

abbrev pub increments : List Bool → ℕ
increments [] = 0
increments (b ∷ bs) = (if b then 1 else 0) + increments bs

-- The alert of the day has been raised as soon as 80 % is reached.
abbrev is_due : Config → ℕ → Bool
is_due cfg n = ltb 0 n && is_over80 cfg n

abbrev as_count : Bool → ℕ
as_count b = if b then 1 else 0

abbrev IsAlerted : Config → Daily → Type 0
IsAlerted cfg d = d.alerted80 ≡ is_due cfg d.n

-- What one call does to the entry `d` of the day, which is `e` after it.
abbrev Called : Config → Bool → Daily → Daily → ℕ → List Event → Type 0
Called cfg inc d e n events =
    IsAlerted cfg e
    × (as_count (is_due cfg d.n) + length events ≡ as_count (is_due cfg e.n))
    × (e.n ≡ as_count inc + d.n)
    × (n ≡ e.n)
