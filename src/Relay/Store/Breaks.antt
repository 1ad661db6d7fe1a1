-- ===== src/Relay/Store/Breaks.antt =====
-- When the circuit breaker opens.
use minisserver_compose.Prelude.{
  ℕ, suc, ◌+◌, ◌<◌, ◌≡◌, refl, sym, ap, ◌∙◌, inl, inr, Bool, true, false, List, [], ◌∷◌, leb, ltb,
  lt→ltb, arith, Text, lookup, lookup-put, length, Option-cases,
}
use minisserver_compose.Relay.Types.{Reason, refuse, refuse_if}
use minisserver_compose.Relay.Store.{
  Breaker, Store, Config, breaker_or_new, breaker_of, breaker_check, next_breaker, breaker_record,
}

-- Bad answers of `host` at the given times.
unfoldable pub record_bads : Config → Text → Store → List ℕ → Store
record_bads cfg host st [] = st
record_bads cfg host st (t ∷ ts) = record_bads cfg host (breaker_record cfg t host true st).0 ts

abbrev pub last_of : ℕ → List ℕ → ℕ
last_of t [] = t
last_of t (u ∷ us) = last_of u us

breaker_of-record :
    (cfg : Config) (now : ℕ) (host : Text) (bad : Bool) (st : Store)
    → breaker_of (breaker_record cfg now host bad st).0 host
      ≡ next_breaker cfg now (breaker_of st host) bad
unfolding breaker_record
breaker_of-record cfg now host bad st =
    ap breaker_or_new (lookup-put host (next_breaker cfg now (breaker_of st host) bad) st.breaker)

-- What is checked is the time until which the breaker is open.
breaker_check-of :
    (now : ℕ) (host : Text) (st : Store)
    → breaker_check now host st
      ≡ refuse_if (ltb now (breaker_of st host).open_until) 503 Reason.circuit_open
unfolding breaker_check
breaker_check-of now host st = elim (Option-cases (lookup host st.breaker)) [
  | inl e ↦ rw e (ground arith)
  | inr (b, e) ↦ rw e refl
]

module _ (cfg : Config) (host : Text) where
  record_bads-few :
      (st : Store) (ts : List ℕ)
      → (breaker_of st host).streak + length ts < cfg.threshold
      → (breaker_of (record_bads cfg host st ts) host).open_until ≡ (breaker_of st host).open_until
  unfolding record_bads
  record_bads-few st [] lt = refl
  record_bads-few st (t ∷ ts) lt =
      let b = breaker_of st host in
      let below : leb cfg.threshold (suc b.streak) ≡ false = ground arith in
      let e : breaker_of (breaker_record cfg t host true st).0 host
          ≡ record b { streak = suc b.streak } =
        breaker_of-record cfg t host true st ∙ (rw below refl) in
      let s = ap (λ (x : Breaker). x.streak) e in
      record_bads-few (breaker_record cfg t host true st).0 ts (omega (arith, s, lt))
      ∙ ap (λ (x : Breaker). x.open_until) e

  record_bads-enough :
      (st : Store) (t : ℕ) (ts : List ℕ)
      → (breaker_of st host).streak + suc (length ts) ≡ cfg.threshold
      → (breaker_of (record_bads cfg host st (t ∷ ts)) host).open_until
        ≡ last_of t ts + cfg.cooldown
  unfolding record_bads
  record_bads-enough st t [] h =
      let b = breaker_of st host in
      let at : leb cfg.threshold (suc b.streak) ≡ true = ground arith in
      let e : breaker_of (breaker_record cfg t host true st).0 host
          ≡ record { streak = 0; open_until = t + cfg.cooldown } =
        breaker_of-record cfg t host true st ∙ (rw at refl) in
      ap (λ (x : Breaker). x.open_until) e
  record_bads-enough st t (u ∷ us) h =
      let b = breaker_of st host in
      let below : leb cfg.threshold (suc b.streak) ≡ false = ground arith in
      let e : breaker_of (breaker_record cfg t host true st).0 host
          ≡ record b { streak = suc b.streak } =
        breaker_of-record cfg t host true st ∙ (rw below refl) in
      let s = ap (λ (x : Breaker). x.streak) e in
      record_bads-enough (breaker_record cfg t host true st).0 u us (omega (arith, s, h))

-- After a good answer, as many bad ones in a row as the threshold says open the breaker: until the
-- cooldown after the last of them is over, the host is refused.
pub breaker_record_opens :
    (cfg : Config) (host : Text) (st : Store) (good t : ℕ) (ts : List ℕ) (now : ℕ)
    → suc (length ts) ≡ cfg.threshold
    → now < last_of t ts + cfg.cooldown
    → breaker_check now host
        (record_bads cfg host (breaker_record cfg good host false st).0 (t ∷ ts))
      ≡ refuse 503 Reason.circuit_open
breaker_record_opens cfg host st good t ts now h lt =
    let st1 = (breaker_record cfg good host false st).0 in
    let s = ap (λ (x : Breaker). x.streak) (breaker_of-record cfg good host false st) in
    let e = record_bads-enough cfg host st1 t ts (omega (arith, s, h)) in
    let is_open : ltb now (breaker_of (record_bads cfg host st1 (t ∷ ts)) host).open_until ≡ true =
      lt→ltb now _ (omega (arith, e, lt)) in
    breaker_check-of now host (record_bads cfg host st1 (t ∷ ts))
    ∙ ap (λ (b : Bool). refuse_if b 503 Reason.circuit_open) is_open

-- After a good answer, fewer bad ones in a row than the threshold says change nothing: the host is
-- refused or let through as before.
pub breaker_record_keeps :
    (cfg : Config) (host : Text) (st : Store) (good : ℕ) (ts : List ℕ) (now : ℕ)
    → length ts < cfg.threshold
    → breaker_check now host (record_bads cfg host (breaker_record cfg good host false st).0 ts)
      ≡ breaker_check now host st
breaker_record_keeps cfg host st good ts now lt =
    let st1 = (breaker_record cfg good host false st).0 in
    let b = breaker_of-record cfg good host false st in
    let s = ap (λ (x : Breaker). x.streak) b in
    let o = ap (λ (x : Breaker). x.open_until) b in
    let e = record_bads-few cfg host st1 ts (omega (arith, s, lt)) in
    breaker_check-of now host (record_bads cfg host st1 ts)
    ∙ (ap (λ (u : ℕ). refuse_if (ltb now u) 503 Reason.circuit_open) (e ∙ o)
        ∙ sym (breaker_check-of now host st))
