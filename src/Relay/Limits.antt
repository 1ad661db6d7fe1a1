-- ===== src/Relay/Limits.antt =====
-- `host_limits` of relay/relay.py. Numbers are thousandths: the code's floats are read from short
-- decimal texts by `float`, which is the parameter `read_number`.
use minisserver_compose.Prelude.{
  ℕ, ◌*◌, ◌/◌, ◌≤◌, min, max, ◌≡◌, refl, ◌⊎◌, inl, inr, Option-cases, Option, none, some, List, [],
  ◌∷◌, ◌++◌, arith, ◌==◌, if◌then◌else◌, Text, codes, text_eq,
}
use minisserver_compose.Prelude.Int.{ℤ, pos, negsuc}

-- `rate`, `burst` and `concurrency`.
pub record Limits : Type 0 where
  pub rate : ℕ
  pub burst : ℕ
  pub concurrency : ℕ

-- `HARD_MAX`
abbrev pub hard_max : Limits
hard_max = record { rate = 5000; burst = 10000; concurrency = 6000 }

-- `f.partition("=")`, where the text holds the sign: what stands before it, and what behind.
unfoldable pub partition_from : Text → Text → Option (Text × Text)
partition_from key [] = none
partition_from key (c ∷ s) =
    let rest = partition_from (key ++ c ∷ []) s in if c == b'=' then some (key, s) else rest

-- `max(0.1, min(float(v), HARD_MAX[k]))`
abbrev pub clamp : ℤ → ℕ → ℕ
clamp (pos n) top = max 100 (min n top)
clamp (negsuc n) top = 100

-- `max(1, int(lim["concurrency"]))`, as thousandths.
abbrev pub whole_concurrency : Limits → Limits
whole_concurrency lim = record lim { concurrency = 1000 * max 1 (lim.concurrency / 1000) }

-- A limit is the default or lies between a tenth and its hard maximum.
abbrev pub IsClamped : ℕ → ℕ → ℕ → Type 0
IsClamped default top n = (n ≡ default) ⊎ ((100 ≤ n) × (n ≤ top))

pub record AreClamped (defaults lim : Limits) : Type 0 where
  pub rate : IsClamped defaults.rate hard_max.rate lim.rate
  pub burst : IsClamped defaults.burst hard_max.burst lim.burst
  pub concurrency : IsClamped defaults.concurrency hard_max.concurrency lim.concurrency

clamp-IsClamped : (d : ℕ) (x : ℤ) (top : ℕ) → 100 ≤ top → IsClamped d top (clamp x top)
clamp-IsClamped d (pos n) top h = inr (omega arith, omega arith)
clamp-IsClamped d (negsuc n) top h = inr (omega arith, omega arith)

module _ (read_number : Text → Option ℤ) where
  unfoldable pub set_limit : Text → Text → Limits → Limits
  set_limit k v lim = elim (read_number v) [
    | none ↦ lim
    | some x ↦
        if text_eq k (codes "rate")
        then record lim { rate = clamp x hard_max.rate }
        else if text_eq k (codes "burst")
        then record lim { burst = clamp x hard_max.burst }
        else if text_eq k (codes "concurrency")
        then record lim { concurrency = clamp x hard_max.concurrency }
        else lim
  ]

  unfoldable pub apply_flag : Text → Limits → Limits
  unfolding set_limit partition_from
  apply_flag f lim = elim (partition_from [] f) [ none ↦ lim | some (k, v) ↦ set_limit k v lim ]

  unfoldable pub apply_flags : List Text → Limits → Limits
  unfolding apply_flag
  apply_flags [] lim = lim
  apply_flags (f ∷ fs) lim = apply_flags fs (apply_flag f lim)

  unfoldable pub host_limits : Limits → List Text → Limits
  unfolding apply_flags
  host_limits defaults flags = whole_concurrency (apply_flags flags defaults)

  set_limit-AreClamped :
      (defaults lim : Limits) (k v : Text)
      → AreClamped defaults lim
      → AreClamped defaults (set_limit k v lim)
  unfolding set_limit
  set_limit-AreClamped defaults lim k v h = elim (Option-cases (read_number v)) [
    | inl n ↦ rw (n, set_limit) h
    | inr (x, n) ↦ ground (
      arith,
      n,
      clamp-IsClamped defaults.rate x 5000 (omega arith),
      clamp-IsClamped defaults.burst x 10000 (omega arith),
      clamp-IsClamped defaults.concurrency x 6000 (omega arith),
    )
  ]

  apply_flag-AreClamped :
      (defaults lim : Limits) (f : Text)
      → AreClamped defaults lim
      → AreClamped defaults (apply_flag f lim)
  unfolding apply_flag
  apply_flag-AreClamped defaults lim f h = elim (Option-cases (partition_from [] f)) [
    | inl n ↦ rw (n, apply_flag) h
    | inr ((k, v), n) ↦ rw (n, apply_flag) (set_limit-AreClamped defaults lim k v h)
  ]

  apply_flags-AreClamped :
      (defaults lim : Limits) (fs : List Text)
      → AreClamped defaults lim
      → AreClamped defaults (apply_flags fs lim)
  unfolding apply_flags
  apply_flags-AreClamped defaults lim [] h = h
  apply_flags-AreClamped defaults lim (f ∷ fs) h =
      apply_flags-AreClamped defaults (apply_flag f lim) fs (apply_flag-AreClamped defaults lim f h)

  -- Whatever the flags of a host say, its rate and its burst are the defaults or lie between a
  -- tenth and the hard maximum, and at least one request may run, at most six or the default.
  pub host_limits_bounds :
      (defaults : Limits) (flags : List Text)
      → let lim = host_limits defaults flags in
        IsClamped defaults.rate hard_max.rate lim.rate
        × IsClamped defaults.burst hard_max.burst lim.burst
        × (1000 ≤ lim.concurrency)
        × ((lim.concurrency ≤ hard_max.concurrency)
            ⊎ (lim.concurrency ≤ max 1000 defaults.concurrency))
  unfolding host_limits
  host_limits_bounds defaults flags =
      let h =
        apply_flags-AreClamped defaults defaults flags
          (record { rate = inl refl; burst = inl refl; concurrency = inl refl }) in
      (
        h.rate,
        h.burst,
        omega arith,
        elim h.concurrency [ inl d ↦ inr (omega (arith, d)) | inr (lo, hi) ↦ inl (omega arith) ],
      )
