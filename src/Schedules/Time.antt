-- ===== src/Schedules/Time.antt =====
-- The time helpers of portal/schedules/sched/model.py: "HH:MM" texts and minutes of a day.
mod Digits
pub mod RoundTrip
use minisserver_compose.Prelude.{
  ℕ, ◌+◌, ◌-◌, ◌*◌, ◌/◌, ◌%◌, ◌≡◌, refl, Bool, true, false, ◌&&◌, Option, none, some, List, [], ◌∷◌,
  leb, ltb, ◌==◌, if◌then◌else◌, Text, codes, text_eq,
}
use Digits.{digit_value}

-- The digits of `([01]\d|2[0-3])`: the hour that they write.
hour : ℕ → ℕ → Option ℕ
hour a b =
    if a == b'0'
    then digit_value b
    else if a == b'1'
    then elim (digit_value b) [ none ↦ none | some d ↦ some (10 + d) ]
    else if (a == b'2') && leb b'0' b && leb b b'3'
    then some (20 + (b - b'0'))
    else none

-- The digits of `([0-5]\d)`.
minute : ℕ → ℕ → Option ℕ
minute a b =
    if leb b'0' a && leb a b'5'
    then elim (digit_value b) [ none ↦ none | some d ↦ some ((a - b'0') * 10 + d) ]
    else none

-- What `$` of a pattern leaves to match: nothing, or the newline that ends the text.
unfoldable pub at_end : Text → Bool
at_end [] = true
at_end (c ∷ []) = c == 10
at_end (c ∷ d ∷ rest) = false

join_hhmm : Option ℕ → Option ℕ → Option ℕ
join_hhmm (some h) (some m) = some (h * 60 + m)
join_hhmm _ _ = none

-- `TIME_RE.match(s)` and the minutes that its two groups write.
unfoldable pub match_time : Text → Option ℕ
unfolding hour minute digit_value at_end join_hhmm
match_time (a ∷ b ∷ colon ∷ c ∷ d ∷ rest) =
    if (colon == b':') && at_end rest then join_hhmm (hour a b) (minute c d) else none
match_time _ = none

-- `parse_hhmm(s, allow_24)` for a `str`.
unfoldable pub parse_hhmm : Bool → Text → Option ℕ
unfolding match_time
parse_hhmm allow_24 s = if allow_24 && text_eq s (codes "24:00") then some 1440 else match_time s

-- `"%02d" % n` below 100.
two_digits : ℕ → Text
two_digits n = (b'0' + n / 10) ∷ (b'0' + n % 10) ∷ []

-- `fmt_hhmm(minutes)` for at most 99 hours.
unfoldable pub fmt_hhmm : ℕ → Text
unfolding two_digits
fmt_hhmm minutes =
    (b'0' + minutes / 60 / 10) ∷ (b'0' + minutes / 60 % 10) ∷ b':' ∷ two_digits (minutes % 60)
