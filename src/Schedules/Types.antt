-- ===== src/Schedules/Types.antt =====
-- The data of portal/schedules/sched/model.py: entities' kinds and guardrails, rules, and the
-- problems that a check reports. A problem's message, a text for people, is not modelled.
use minisserver_compose.Prelude.{
  ℕ, ◌≡◌, refl, ◌⊎◌, inl, inr, Bool, true, false, Option, none, List, Text,
}
use minisserver_compose.Prelude.Json.{Fields}

-- `KINDS`; any other text is `unknown`.
pub data Kind : Type 0 where
  plug vacuum_plan child_window dimmer : Kind
  unknown : Text → Kind

-- The keys of `GUARDRAIL_KEYS`, each absent or a checked value.
pub record Guardrails : Type 0 where
  pub max_on_minutes : Option ℕ
  pub max_level : Option ℕ
  pub min_gap_minutes : Option ℕ
  pub max_triggers_per_day : Option ℕ
  pub max_open_minutes_per_day : Option ℕ
  pub max_exception_minutes : Option ℕ
  pub allowed_from : Option Text
  pub allowed_to : Option Text
  pub exception_latest_end : Option Text
  pub all_latest_end : Option Text

abbrev pub no_guardrails : Guardrails
no_guardrails = record {
  max_on_minutes = none;
  max_level = none;
  min_gap_minutes = none;
  max_triggers_per_day = none;
  max_open_minutes_per_day = none;
  max_exception_minutes = none;
  allowed_from = none;
  allowed_to = none;
  exception_latest_end = none;
  all_latest_end = none;
}

pub data Code : Type 0 where
  type unknown_key range format required kind too_many duplicate days dst_ambiguous window : Code
  not_allowed maps_always_open variables max_level allowed_range max_on overlap min_gap : Code
  max_triggers max_open not_managed window_overlap target both too_late max_exception : Code
  midnight latest_end past far : Code

-- The `field` of a problem: a plain name, `name.sub`, `rules[i]` or `rule 'id'` with what follows.
pub data Field : Type 0 where
  plain : Text → Field
  guardrail : Text → Field
  rule_at : ℕ → Text → Field
  rule_named : Text → Text → Field

pub record Problem : Type 0 where
  pub code : Code
  pub field : Field

abbrev pub problem : Code → Field → Problem
problem c f = record { code = c; field = f }

-- A rule as `normalise_rule` returns it.
pub record Rule : Type 0 where
  pub id : Text
  pub days : List ℕ
  pub start : Text
  pub stop : Option Text
  pub level : Option ℕ
  pub variables : Option Fields

-- What Python raises where the code does not check a value's type first.
pub data Error : Type 0 where
  type_error attribute_error : Error

pub data Result {ℓ} (A : Type ℓ) : Type ℓ where
  ok : A → Result A
  err : Error → Result A

-- The checks of one rule: the rule is sound so far, or a problem is reported and the loop goes on
-- with the next rule, or an exception leaves the loop.
pub data Check {ℓ} (A : Type ℓ) : Type ℓ where
  pass : A → Check A
  stop : Problem → Check A
  raise : Error → Check A

infixl 10 ◌>>=◌ ◌>>◌
abbrev pub ◌>>=◌ {ℓ κ} : {A : Type ℓ} {B : Type κ} → Check A → (A → Check B) → Check B
pass a >>= f = f a
stop p >>= f = stop p
raise e >>= f = raise e

abbrev pub ◌>>◌ {ℓ} : {B : Type ℓ} → Check (Unit {0}) → Check B → Check B
m >> k = m >>= λ _. k

abbrev pub reject_if : Bool → Problem → Check (Unit {0})
reject_if true p = stop p
reject_if false p = pass tt

pub >>=-eq-pass {ℓ κ} :
    {A : Type ℓ} {B : Type κ} (m : Check A) (f : A → Check B) {b : B}
    → (m >>= f) ≡ pass b
    → (a : A) × (m ≡ pass a) × (f a ≡ pass b)
>>=-eq-pass (pass a) f h = (a, refl, h)
>>=-eq-pass (stop p) f h = absurd (cc)
>>=-eq-pass (raise e) f h = absurd (cc)

pub Result-cases {ℓ} :
    {A : Type ℓ} (r : Result A) → ((a : A) × (r ≡ ok a)) ⊎ ((e : Error) × (r ≡ err e))
Result-cases (ok a) = inl (a, refl)
Result-cases (err e) = inr (e, refl)
