-- ===== src/Schedules/Time/RoundTrip.antt =====
-- Reading back what was printed, and the range of what can be read.
use minisserver_compose.Prelude.{
  ℕ, ◌+◌, ◌/◌, ◌%◌, ◌<◌, ◌≤◌, ◌≡◌, refl, Bool, true, false, Option, none, some, [], ◌∷◌, ◌++◌,
  arith, Text, codes, text_eq, text_eq→eq, Bool-cases, Option-cases, inl, inr, ◌==◌, ◌&&◌,
}
use minisserver_compose.Schedules.Time.Digits.{digit_value, digit_value-lt, digit_value-ascii}
use minisserver_compose.Schedules.Time.{
  hour, minute, at_end, join_hhmm, match_time, parse_hhmm, fmt_hhmm,
}

hour-lt : (a b h : ℕ) → hour a b ≡ some h → h < 24
unfolding hour
hour-lt a b h e = elim (Option-cases (digit_value b)) [
  | inl q ↦ ground (arith, q)
  | inr (d, q) ↦ ground (arith, q, digit_value-lt b d q)
]

minute-lt : (a b m : ℕ) → minute a b ≡ some m → m < 60
unfolding minute
minute-lt a b m e = elim (Option-cases (digit_value b)) [
  | inl q ↦ ground (arith, q)
  | inr (d, q) ↦ ground (arith, q, digit_value-lt b d q)
]

hour_digits : (h : ℕ) → h < 24 → hour (0x30 + h / 10) (0x30 + h % 10) ≡ some h
unfolding hour
hour_digits h l = ground (arith, digit_value-ascii (h % 10))

minute_digits : (m : ℕ) → m < 60 → minute (0x30 + m / 10) (0x30 + m % 10) ≡ some m
unfolding minute
minute_digits m l = ground (arith, digit_value-ascii (m % 10))

join_hhmm-lt :
    (h m : Option ℕ) (n : ℕ)
    → ((x : ℕ) → h ≡ some x → x < 24)
    → ((x : ℕ) → m ≡ some x → x < 60)
    → join_hhmm h m ≡ some n
    → n < 1440
unfolding join_hhmm
join_hhmm-lt (some h) (some m) n hl ml e = ground (arith, hl h refl, ml m refl)
join_hhmm-lt none m n hl ml e = cc
join_hhmm-lt (some h) none n hl ml e = cc

-- What the pattern reads is a minute of the day.
pub match_time-lt : (s : Text) (n : ℕ) → match_time s ≡ some n → n < 1440
unfolding match_time
match_time-lt (a ∷ b ∷ colon ∷ c ∷ d ∷ rest) n e =
    elim (Bool-cases ((colon == b':') && at_end rest)) [
      | inl t ↦ join_hhmm-lt (hour a b) (minute c d) n (hour-lt a b) (minute-lt c d) (rw t at e)
      | inr f ↦ let e' : none ≡ some n = (rw f at e) in cc
    ]
match_time-lt [] n e = cc
match_time-lt _ n e = cc

match_time-fmt_hhmm :
    (m : ℕ) (rest : Text) → m < 1440 → at_end rest ≡ true → match_time (fmt_hhmm m ++ rest) ≡ some m
unfolding match_time fmt_hhmm
match_time-fmt_hhmm m rest l e =
    rw (e, hour_digits (m / 60) (omega arith), minute_digits (m % 60) (omega arith))
      (unfold join_hhmm in ground arith)

not_midnight :
    (m : ℕ) (rest : Text) → m < 1440 → text_eq (fmt_hhmm m ++ rest) (codes "24:00") ≡ false
unfolding text_eq fmt_hhmm
not_midnight m rest l = ground arith

-- Reading back a printed minute of the day gives that minute, also where a newline follows, and
-- whether or not "24:00" is accepted.
pub parse_hhmm-fmt_hhmm :
    (allow_24 : Bool) (m : ℕ) (rest : Text)
    → m < 1440
    → at_end rest ≡ true
    → parse_hhmm allow_24 (fmt_hhmm m ++ rest) ≡ some m
unfolding parse_hhmm
parse_hhmm-fmt_hhmm false m rest l e = match_time-fmt_hhmm m rest l e
parse_hhmm-fmt_hhmm true m rest l e = rw (not_midnight m rest l) (match_time-fmt_hhmm m rest l e)

-- A time that is read lies in the day; its end, 24:00, only where that is allowed.
pub parse_hhmm_bounds :
    (allow_24 : Bool) (s : Text) (m : ℕ)
    → parse_hhmm allow_24 s ≡ some m
    → (m ≤ 1440) × (m ≡ 1440 → (allow_24 ≡ true) × (s ≡ codes "24:00"))
unfolding parse_hhmm
parse_hhmm_bounds false s m e =
    let l = match_time-lt s m e in (omega arith, λ q. absurd (omega arith))
parse_hhmm_bounds true s m e = elim (Bool-cases (text_eq s (codes "24:00"))) [
  | inl t ↦
      let e' : some 1440 ≡ some m = (rw t at e) in
      (ground arith, λ q. (refl, text_eq→eq s (codes "24:00") t))
  | inr f ↦ let l = match_time-lt s m (rw f at e) in (omega arith, λ q. absurd (omega arith))
]
