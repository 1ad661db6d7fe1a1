-- ===== src/Schedules/Limits/Bounds.antt =====
-- What guardrails are known to be once they are checked.
use minisserver_compose.Prelude.{
  ℕ, ◌≤◌, ◌<◌, ◌≡◌, ◌⊎◌, ◌||◌, ||-false, ap, sym, ◌∙◌, leb→lt, refl, Bool, true, false, ◌&&◌,
  &&-true, Option, none, some, List, [], ◌∷◌, ◌++◌, leb, leb→le, arith, Text, codes, Bool-cases,
  inl, inr,
}
use minisserver_compose.Prelude.Int.{pos, negsuc}
use minisserver_compose.Prelude.Json.{Json, Fields, null, bool, int, float, str, array, object, get}
use minisserver_compose.Schedules.Weekly.{or_zero}
use minisserver_compose.Schedules.Time.{parse_hhmm}
use minisserver_compose.Schedules.Types.{
  Kind, plug, vacuum_plan, Guardrails, no_guardrails, Code, Problem,
}
use minisserver_compose.Schedules.Limits.{
  int_value, intval, time_kept, time_value, timeval, read_guardrails, guardrail_problems,
  is_backwards, is_missing, unless_reported, needs_range, is_plug, check_required,
  validate_guardrails,
}

-- A number that is kept lies in its range.
abbrev pub IsBetween : ℕ → ℕ → Option ℕ → Type 0
IsBetween lo hi none = Unit
IsBetween lo hi (some v) = (lo ≤ v) × (v ≤ hi)

-- A time that is kept can be read.
abbrev pub IsTime : Option Text → Type 0
IsTime none = Unit
IsTime (some s) = (m : ℕ) × (parse_hhmm false s ≡ some m)

pub record AreBounded (g : Guardrails) : Type 0 where
  pub on : IsBetween 1 1440 g.max_on_minutes
  pub level : IsBetween 1 100 g.max_level
  pub gap : IsBetween 0 1440 g.min_gap_minutes
  pub triggers : IsBetween 1 24 g.max_triggers_per_day
  pub opened : IsBetween 1 1440 g.max_open_minutes_per_day
  pub exceptions : IsBetween 1 1440 g.max_exception_minutes
  pub first_minute : IsTime g.allowed_from
  pub last_minute : IsTime g.allowed_to
  pub exceptions_end : IsTime g.exception_latest_end
  pub all_end : IsTime g.all_latest_end

int_value-IsBetween :
    (k : Text) (lo hi : ℕ) (o : Option Json) → IsBetween lo hi (int_value k lo hi o).0
int_value-IsBetween k lo hi none = tt
int_value-IsBetween k lo hi (some null) = tt
int_value-IsBetween k lo hi (some (bool b)) = tt
int_value-IsBetween k lo hi (some (int (pos v))) = elim (Bool-cases (leb lo v && leb v hi)) [
  | inl y ↦ let (a, b) = &&-true (leb lo v) (leb v hi) y in rw y (leb→le lo v a, leb→le v hi b)
  | inr n ↦ rw n tt
]
int_value-IsBetween k lo hi (some (int (negsuc v))) = tt
int_value-IsBetween k lo hi (some (float t)) = tt
int_value-IsBetween k lo hi (some (str s)) = tt
int_value-IsBetween k lo hi (some (array xs)) = tt
int_value-IsBetween k lo hi (some (object fs)) = tt

time_kept-IsTime : (k s : Text) (o : Option ℕ) → parse_hhmm false s ≡ o → IsTime (time_kept k s o).0
time_kept-IsTime k s none e = tt
time_kept-IsTime k s (some m) e = (m, e)

time_value-IsTime : (k : Text) (o : Option Json) → IsTime (time_value k o).0
time_value-IsTime k none = tt
time_value-IsTime k (some null) = tt
time_value-IsTime k (some (bool b)) = tt
time_value-IsTime k (some (int z)) = tt
time_value-IsTime k (some (float t)) = tt
time_value-IsTime k (some (str s)) = time_kept-IsTime k s (parse_hhmm false s) refl
time_value-IsTime k (some (array xs)) = tt
time_value-IsTime k (some (object fs)) = tt

read_guardrails-AreBounded : (g : Fields) → AreBounded (read_guardrails g)
unfolding read_guardrails intval timeval
read_guardrails-AreBounded g = record {
  on = int_value-IsBetween _ 1 1440 (get (codes "max_on_minutes") g);
  level = int_value-IsBetween _ 1 100 (get (codes "max_level") g);
  gap = int_value-IsBetween _ 0 1440 (get (codes "min_gap_minutes") g);
  triggers = int_value-IsBetween _ 1 24 (get (codes "max_triggers_per_day") g);
  opened = int_value-IsBetween _ 1 1440 (get (codes "max_open_minutes_per_day") g);
  exceptions = int_value-IsBetween _ 1 1440 (get (codes "max_exception_minutes") g);
  first_minute = time_value-IsTime _ (get (codes "allowed_from") g);
  last_minute = time_value-IsTime _ (get (codes "allowed_to") g);
  exceptions_end = time_value-IsTime _ (get (codes "exception_latest_end") g);
  all_end = time_value-IsTime _ (get (codes "all_latest_end") g);
}

no_guardrails-AreBounded : AreBounded no_guardrails
no_guardrails-AreBounded = record {
  on = tt;
  level = tt;
  gap = tt;
  triggers = tt;
  opened = tt;
  exceptions = tt;
  first_minute = tt;
  last_minute = tt;
  exceptions_end = tt;
  all_end = tt;
}

-- Whatever is given, the guardrails that come back are numbers in their ranges and times that can
-- be read, with or without problems.
pub validate_guardrails-AreBounded :
    (kind : Kind) (v : Json) → AreBounded (validate_guardrails kind v).0
unfolding validate_guardrails
validate_guardrails-AreBounded kind (object g) = read_guardrails-AreBounded g
validate_guardrails-AreBounded kind null = no_guardrails-AreBounded
validate_guardrails-AreBounded kind (bool b) = no_guardrails-AreBounded
validate_guardrails-AreBounded kind (int z) = no_guardrails-AreBounded
validate_guardrails-AreBounded kind (float t) = no_guardrails-AreBounded
validate_guardrails-AreBounded kind (str s) = no_guardrails-AreBounded
validate_guardrails-AreBounded kind (array xs) = no_guardrails-AreBounded

unless_reported-nil :
    (ps : List Problem) (b : Bool) (c : Code) (k : Text)
    → unless_reported ps b c k ≡ []
    → (ps ≡ []) × (b ≡ false)
unless_reported-nil [] true c k h = absurd (cc)
unless_reported-nil [] false c k h = (refl, refl)
unless_reported-nil (p ∷ ps) b c k h = absurd (cc)

-- The guardrails are enough for the kind: a plug has a longest run, a plug and a vacuum plan have both
-- ends of a range, and a range begins before it ends.
pub record IsEnough (kind : Kind) (g : Guardrails) : Type 0 where
  pub has_longest : kind ≡ plug → (m : ℕ) × (g.max_on_minutes ≡ some m)
  pub has_range :
      (kind ≡ plug) ⊎ (kind ≡ vacuum_plan)
      → (s : Text) × (t : Text) × (g.allowed_from ≡ some s) × (g.allowed_to ≡ some t)
  pub forwards :
      (s t : Text) (lo hi : ℕ)
      → g.allowed_from ≡ some s
      → g.allowed_to ≡ some t
      → parse_hhmm false s ≡ some lo
      → parse_hhmm false t ≡ some hi
      → lo < hi

is_missing-some {ℓ} : {A : Type ℓ} (o : Option A) → is_missing o ≡ false → (a : A) × (o ≡ some a)
is_missing-some none h = absurd (cc)
is_missing-some (some a) h = (a, refl)

longest_there :
    (kind : Kind) (o : Option ℕ)
    → (is_plug kind && is_missing o) ≡ false
    → kind ≡ plug
    → (m : ℕ) × (o ≡ some m)
longest_there kind o h e =
    is_missing-some o (sym (ap (λ (k : Kind). is_plug k && is_missing o) e) ∙ h)

range_there :
    (kind : Kind) (o p : Option Text)
    → (needs_range kind && (is_missing o || is_missing p)) ≡ false
    → (kind ≡ plug) ⊎ (kind ≡ vacuum_plan)
    → (s : Text) × (t : Text) × (o ≡ some s) × (p ≡ some t)
range_there kind o p h k = elim k [ inl e ↦ both e refl | inr e ↦ both e refl ]
  where
    both :
        {l : Kind}
        → kind ≡ l
        → needs_range l ≡ true
        → (s : Text) × (t : Text) × (o ≡ some s) × (p ≡ some t)
    both {l} e y =
        let needed : needs_range kind ≡ true = ap needs_range e ∙ y in
        let (from_there, to_there) =
          ||-false (is_missing o) (is_missing p) (ground (arith, needed)) in
        let (s, f) = is_missing-some o from_there in
        let (t, g) = is_missing-some p to_there in (s, t, f, g)

is_backwards-lt :
    (o p : Option Text) (s t : Text) (lo hi : ℕ)
    → is_backwards o p ≡ false
    → o ≡ some s
    → p ≡ some t
    → parse_hhmm false s ≡ some lo
    → parse_hhmm false t ≡ some hi
    → lo < hi
is_backwards-lt o p s t lo hi h a b c d =
    let said : is_backwards (some s) (some t) ≡ false = cc (h, a, b) in
    let low : or_zero (parse_hhmm false s) ≡ lo = ap or_zero c in
    let high : or_zero (parse_hhmm false t) ≡ hi = ap or_zero d in
    leb→lt hi lo (
      sym (ap (λ (n : ℕ). leb n lo) high)
      ∙ (sym (ap (λ (n : ℕ). leb (or_zero (parse_hhmm false t)) n) low) ∙ said))

check_required-IsEnough :
    (kind : Kind) (g : Guardrails) (probs : List Problem)
    → check_required kind g probs ≡ []
    → IsEnough kind g
unfolding check_required
check_required-IsEnough kind g probs h =
    let (h1, ranged) = unless_reported-nil _ _ _ _ h in
    let (h2, limited) = unless_reported-nil _ _ _ _ h1 in
    let onwards : is_backwards g.allowed_from g.allowed_to ≡ false =
      elim (Bool-cases (is_backwards g.allowed_from g.allowed_to)) [
        | inl y ↦ absurd (snoc_ne_nil probs _ (rw y at h2))
        | inr n ↦ n
      ] in
    record {
      has_longest = longest_there kind g.max_on_minutes limited;
      has_range = range_there kind g.allowed_from g.allowed_to ranged;
      forwards = λ s t lo hi. is_backwards-lt g.allowed_from g.allowed_to s t lo hi onwards;
    }
  where
    snoc_ne_nil : (ps : List Problem) (p : Problem) → ps ++ p ∷ [] ≡ [] → ⊥
    snoc_ne_nil [] p e = absurd (cc)
    snoc_ne_nil (q ∷ ps) p e = absurd (cc)

-- Guardrails without a problem are enough for their kind: those of a plug have a longest run, those of
-- a plug and of a vacuum plan have both ends of the allowed range, and where both ends are given, the
-- range begins before it ends.
pub validate_guardrails-IsEnough :
    (kind : Kind) (v : Json)
    → (validate_guardrails kind v).1 ≡ []
    → IsEnough kind (validate_guardrails kind v).0
unfolding validate_guardrails
validate_guardrails-IsEnough kind (object g) h =
    check_required-IsEnough kind (read_guardrails g) (guardrail_problems g) h
validate_guardrails-IsEnough kind null h = absurd (cc)
validate_guardrails-IsEnough kind (bool b) h = absurd (cc)
validate_guardrails-IsEnough kind (int z) h = absurd (cc)
validate_guardrails-IsEnough kind (float t) h = absurd (cc)
validate_guardrails-IsEnough kind (str s) h = absurd (cc)
validate_guardrails-IsEnough kind (array xs) h = absurd (cc)
