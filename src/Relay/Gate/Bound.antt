-- ===== src/Relay/Gate/Bound.antt =====
-- How many requests a gate can let through.
use native.Mathlib.Nat.{add-mul}
use minisserver_compose.Prelude.{
  ℕ, ◌+◌, ◌-◌, ◌*◌, ◌≤◌, Option, ◌≡◌, refl, ap, ◌∙◌, ◌⊎◌, Bool, false, some, List, [], ◌∷◌,
  if◌then◌else◌, arith, subst, Bool-cases, inl, inr,
}
use minisserver_compose.Relay.Gate.{Gate, one_token, new_gate, try_take, run_rounds}

-- The bucket is never over its size.
abbrev pub IsGate : Gate → Type 0
IsGate g = g.tokens ≤ g.burst

-- What one round took and what it left came from what was there and from the time that passed.
try_take-balance :
    (g : Gate) (now : ℕ)
    → (let r = try_take g now in
        (if r.1 then one_token else 0) + r.0.tokens ≤ g.tokens + (now - g.t) * g.rate)
unfolding try_take
try_take-balance g now = ground arith

try_take-fields :
    (g : Gate) (now : ℕ)
    → let r = try_take g now in
      (r.0.rate ≡ g.rate) × (r.0.burst ≡ g.burst) × (r.0.t ≡ now) × IsGate r.0
unfolding try_take
try_take-fields g now = ground arith

-- The clock does not run backwards.
abbrev pub IsChronological : ℕ → List ℕ → Type 0
IsChronological t [] = Unit
IsChronological t (now ∷ times) = (t ≤ now) × IsChronological now times

abbrev pub last_time : ℕ → List ℕ → ℕ
last_time t [] = t
last_time t (now ∷ times) = last_time now times

last_time-ge : (t : ℕ) (times : List ℕ) → IsChronological t times → t ≤ last_time t times
last_time-ge t [] c = omega arith
last_time-ge t (now ∷ times) (le, c) = omega (arith, last_time-ge now times c)

elapsed : (a b c r : ℕ) → a ≤ b → b ≤ c → (c - a) * r ≡ (b - a) * r + (c - b) * r
elapsed a b c r h k =
    let e : c - a ≡ (b - a) + (c - b) = omega arith in
    ap (λ (n : ℕ). n * r) e ∙ add-mul (b - a) (c - b) r

run_rounds-balance :
    (g : Gate) (r t : ℕ) (times : List ℕ)
    → g.rate ≡ r
    → g.t ≡ t
    → IsChronological t times
    → (run_rounds g times).1 * one_token + (run_rounds g times).0.tokens
      ≤ g.tokens + (last_time t times - t) * r
unfolding run_rounds
run_rounds-balance g r t [] er et c = ground arith
run_rounds-balance g r t (now ∷ times) er et (le, c) =
    let f = try_take g now in
    let (fr, _, ft, _) = try_take-fields g now in
    let ih = run_rounds-balance f.0 r now times (fr ∙ er) ft c in
    let same : (now - g.t) * g.rate ≡ (now - t) * r = cc (er, et) in
    let b : (if f.1 then one_token else 0) + f.0.tokens ≤ g.tokens + (now - t) * r =
      subst (λ (n : ℕ). (if f.1 then one_token else 0) + f.0.tokens ≤ g.tokens + n) same
        (try_take-balance g now) in
    let e = elapsed t now (last_time now times) r le (last_time-ge now times c) in
    elim (Bool-cases f.1) [
      | inl y ↦ let b' = (rw y at b) in rw y (omega (arith, ih, b', e))
      | inr n ↦ let b' = (rw n at b) in rw n (omega (arith, ih, b', e))
    ]

-- Over any rounds, in the order of the clock, a new gate lets through at most its burst and what
-- its rate yields in the time that passes.
pub take_bound :
    (rate burst start : ℕ) (times : List ℕ)
    → IsChronological start times
    → (run_rounds (new_gate rate burst start) times).1 * one_token
      ≤ burst * 1000 + (last_time start times - start) * rate
unfolding new_gate
take_bound rate burst start times c =
    let b = run_rounds-balance (new_gate rate burst start) rate start times refl refl c in
    omega (arith, b)

-- A round's second reading of the clock reaches the end of the wait.
abbrev pub Reaches : ℕ → List (ℕ × ℕ) → Type 0
Reaches end [] = ⊥
Reaches end ((now, after) ∷ rounds) = (end ≤ after) ⊎ Reaches end rounds

-- The rounds of a call that sleeps a tenth of a second behind each, from the time `t` on.
abbrev pub IsPaced : ℕ → List (ℕ × ℕ) → Type 0
IsPaced t [] = Unit
IsPaced t ((now, after) ∷ rounds) = (t ≤ now) × (now ≤ after) × IsPaced (after + 100) rounds

-- An answer: with a bucket that is not over its size, and a refusal only at the end of the wait.
abbrev pub IsAnswered : ℕ → List (ℕ × ℕ) → Gate × Option Bool → Type 0
IsAnswered end rounds r =
    (taken : Bool) × (r.1 ≡ some taken) × IsGate r.0 × (taken ≡ false → Reaches end rounds)
