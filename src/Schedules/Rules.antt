-- ===== src/Schedules/Rules.antt =====
-- The checks of one rule in `validate_rules` of portal/schedules/sched/model.py, in their order.
use minisserver_compose.Prelude.{
  ℕ, suc, Bool, true, false, not, ◌&&◌, ◌||◌, Option, none, some, List, [], ◌∷◌, leb, ltb, ◌==◌,
  if◌then◌else◌, Text, codes, member, elem, any, all, length, split,
}
use minisserver_compose.Prelude.Int.{pos}
use minisserver_compose.Prelude.Json.{
  Json, null, int, str, array, object, cons, Fields, items, keys, values, get_value, is_truthy,
}
use minisserver_compose.Schedules.Time.{parse_hhmm, at_end}
use minisserver_compose.Schedules.Types.{
  Kind, plug, vacuum_plan, child_window, dimmer, unknown, Guardrails, Code, problem, rule_named,
  type_error, attribute_error, Check, pass, stop, raise, ◌>>=◌, ◌>>◌, reject_if,
}

abbrev pub child_targets : List Text
child_targets = codes "youtube" ∷ codes "roblox" ∷ []

abbrev pub legacy_targets : List Text
legacy_targets = codes "maps" ∷ []

abbrev pub rule_keys : List Text
rule_keys =
    codes "id" ∷ codes "days" ∷ codes "start" ∷ codes "end" ∷ codes "level" ∷ codes "variables" ∷ []

-- `DST_FORBIDDEN`
abbrev pub dst_forbidden : ℕ → Bool
dst_forbidden m = leb 120 m && ltb m 240

abbrev pub is_word_char : ℕ → Bool
is_word_char c = (leb b'a' c && leb c b'z') || (leb b'0' c && leb c b'9') || (c == b'_')

-- `^[a-z0-9_]{1,24}$` from the character behind `n` others: `$` also lets one newline stand last.
unfoldable pub word_from : ℕ → ℕ → Text → Bool
unfolding at_end
word_from limit n [] = leb 1 n && leb n limit
word_from limit n (c ∷ s) = elim (is_word_char c) [
  | true ↦ word_from limit (suc n) s
  | false ↦ leb 1 n && leb n limit && at_end (c ∷ s)
]

unfoldable pub is_rule_id : Text → Bool
unfolding word_from
is_rule_id s = word_from 24 0 s

-- `VAR_KEY_RE`
unfoldable pub is_var_key : Text → Bool
unfolding word_from
is_var_key [] = false
is_var_key (c ∷ s) = leb b'a' c && leb c b'z' && word_from 32 1 s

-- `parse_hhmm` of a value that may be no text: the text and the minutes.
unfoldable pub parse_value : Bool → Json → Option (Text × ℕ)
parse_value allow_24 (str s) = elim (parse_hhmm allow_24 s) [ none ↦ none | some m ↦ some (s, m) ]
parse_value allow_24 _ = none

-- Whether `set` accepts the value as an element.
abbrev pub is_hashable : Json → Bool
is_hashable (array xs) = false
is_hashable (object fs) = false
is_hashable _ = true

unfoldable pub weekday : Json → Option ℕ
weekday (int (pos d)) = if leb 1 d && leb d 7 then some d else none
weekday _ = none

unfoldable pub weekdays : List Json → Option (List ℕ)
unfolding weekday
weekdays [] = some []
weekdays (x ∷ xs) = elim (weekday x) [
  | none ↦ none
  | some d ↦ elim (weekdays xs) [ none ↦ none | some ds ↦ some (d ∷ ds) ]
]

abbrev pub distinct : List ℕ → Bool
distinct [] = true
distinct (d ∷ ds) = not (elem d ds) && distinct ds

-- `set(days)` comes before the test of the elements, and raises at a list or a dict.
unfoldable pub check_days : Text → Json → Check (List ℕ)
unfolding weekdays
check_days rid (array (cons x xs)) =
    if all is_hashable (x ∷ items xs)
    then elim (weekdays (x ∷ items xs)) [
      | none ↦ stop (problem Code.days (rule_named rid (codes ".days")))
      | some ds ↦
          if distinct ds then pass ds else stop (problem Code.days (rule_named rid (codes ".days")))
    ]
    else raise type_error
check_days rid _ = stop (problem Code.days (rule_named rid (codes ".days")))

unfoldable pub check_start : Text → Json → Check (Text × ℕ)
unfolding parse_value
check_start rid v = elim (parse_value false v) [
  | none ↦ stop (problem Code.format (rule_named rid (codes ".start")))
  | some (t, s) ↦
      if dst_forbidden s
      then stop (problem Code.dst_ambiguous (rule_named rid (codes ".start")))
      else pass (t, s)
]

-- The end of a window that starts at `s`.
unfoldable pub check_window : Text → Bool → ℕ → Json → Check (Text × ℕ)
unfolding parse_value
check_window rid allow_24 s v = elim (parse_value allow_24 v) [
  | none ↦ stop (problem Code.format (rule_named rid (codes ".end")))
  | some (t, e) ↦
      if dst_forbidden e
      then stop (problem Code.dst_ambiguous (rule_named rid (codes ".end")))
      else if leb e s
      then stop (problem Code.window (rule_named rid []))
      else pass (t, e)
]

-- `(r.get("variables") or {}).get("opens")`
unfoldable pub opens_value : Json → Check Json
opens_value (object fs) = pass (get_value (codes "opens") fs)
opens_value v = if is_truthy v then raise attribute_error else pass null

unfoldable pub targets_of : Json → List Text
targets_of (str s) = split b',' s
targets_of _ = []

unfoldable pub check_opens : Text → Json → Check (Unit {0})
unfolding opens_value targets_of
check_opens rid v = do
  opens ← opens_value v
  reject_if (any (λ t. member t legacy_targets) (targets_of opens))
      (problem Code.maps_always_open (rule_named rid (codes ".variables")))
  reject_if
      (leb (length (targets_of opens)) 0
        || any (λ t. not (member t child_targets)) (targets_of opens))
      (problem Code.variables (rule_named rid (codes ".variables")))

-- The end and what depends on the kind: `none` where the rule has no end.
unfoldable pub check_end : Kind → Text → ℕ → Json → Json → Check (Option (Text × ℕ))
unfolding check_window check_opens
check_end plug rid s v vars = do
  e ← check_window rid false s v
  reject_if (is_truthy vars) (problem Code.not_allowed (rule_named rid (codes ".variables")))
  pass (some e)
check_end child_window rid s v vars = do
  e ← check_window rid true s v
  check_opens rid vars
  pass (some e)
check_end vacuum_plan rid s null vars = pass none
check_end vacuum_plan rid s v vars = stop (problem Code.not_allowed (rule_named rid (codes ".end")))
check_end dimmer rid s v vars = pass none
check_end (unknown k) rid s v vars = pass none

unfoldable pub is_short_scalar : Json → Bool
is_short_scalar null = false
is_short_scalar (array xs) = false
is_short_scalar (object fs) = false
is_short_scalar (str s) = leb (length s) 64
is_short_scalar _ = true

unfoldable pub check_variables : Text → Json → Check (Option Fields)
unfolding is_short_scalar is_var_key
check_variables rid null = pass none
check_variables rid (object fs) =
    if leb (length (keys fs)) 8 && all is_var_key (keys fs) && all is_short_scalar (values fs)
    then pass (some fs)
    else stop (problem Code.variables (rule_named rid (codes ".variables")))
check_variables rid _ = stop (problem Code.variables (rule_named rid (codes ".variables")))

unfoldable pub check_level : Text → Guardrails → Json → Check (Option ℕ)
check_level rid g null = pass none
check_level rid g (int (pos (suc l))) = elim g.max_level [
  | none ↦ stop (problem Code.not_allowed (rule_named rid (codes ".level")))
  | some top ↦
      if ltb top (suc l)
      then stop (problem Code.max_level (rule_named rid (codes ".level")))
      else pass (some (suc l))
]
check_level rid g _ = stop (problem Code.range (rule_named rid (codes ".level")))
