-- ===== src/People/Totp.antt =====
-- The six-digit codes of portal/gateway/gw/auth.py (RFC 6238), and the enrolment codes that a
-- person types.
use minisserver_compose.Prelude.{
  ℕ, zero, suc, ◌+◌, ◌-◌, ◌*◌, ◌/◌, ◌%◌, ◌^◌, Bool, true, false, ◌&&◌, Option, none, some, List, [],
  ◌∷◌, ◌++◌, ltb, ◌==◌, if◌then◌else◌, Text, codes, text_eq, elem, length, take, drop, all, keep_if,
}
use minisserver_compose.People.{Lib, Outcome, returned, raise, internal, seconds}

abbrev byte_at : ℕ → List ℕ → ℕ
byte_at n [] = 0
byte_at zero (b ∷ bs) = b
byte_at (suc n) (b ∷ bs) = byte_at n bs

abbrev digit : ℕ → ℕ
digit n = 48 + n % 10

-- `"%06d" % n` for a number below a million.
unfoldable pub six_digits : ℕ → Text
six_digits n =
    digit (n / 100000)
    ∷ digit (n / 10000)
    ∷ digit (n / 1000)
    ∷ digit (n / 100)
    ∷ digit (n / 10)
    ∷ digit n
    ∷ []

-- `struct.unpack(">I", d[o:o + 4])`
abbrev word_at : ℕ → List ℕ → ℕ
word_at o d =
    ((byte_at o d * 256 + byte_at (o + 1) d) * 256 + byte_at (o + 2) d) * 256 + byte_at (o + 3) d

-- `_hotp`
unfoldable pub hotp : Lib → Text → ℕ → Text
unfolding six_digits
hotp lib seed counter =
    let d = lib.hmac_sha1 seed counter in
    six_digits ((word_at (byte_at (length d - 1) d % 16) d % 2 ^ 31) % 1000000)

-- `range(cur - window, cur + window + 1)`: the step -1 is below every `last_step`.
abbrev pub window_around : ℕ → List ℕ
window_around zero = 0 ∷ 1 ∷ []
window_around (suc n) = n ∷ suc n ∷ suc (suc n) ∷ []

abbrev pub is_ascii : Text → Bool
is_ascii s = all (λ (c : ℕ). ltb c 128) s

-- One turn of the loop: whether the step is new, whether the typed code is ASCII, without which
-- `hmac.compare_digest` raises, and whether it is the step's.
abbrev pub turn : Bool → Bool → Bool → ℕ → Outcome (Option ℕ) → Outcome (Option ℕ)
turn false ascii same s rest = rest
turn true false same s rest = raise 500 internal
turn true true true s rest = returned (some s)
turn true true false s rest = rest

unfoldable pub first_step : Lib → Text → Text → ℕ → List ℕ → Outcome (Option ℕ)
unfolding hotp text_eq
first_step lib seed code last [] = returned none
first_step lib seed code last (s ∷ ss) =
    turn (ltb last s) (is_ascii code) (text_eq (hotp lib seed s) code) s
      (first_step lib seed code last ss)

unfoldable pub verify_totp : Lib → Text → Text → ℕ → ℕ → Outcome (Option ℕ)
unfolding first_step
verify_totp lib seed code last now =
    if lib.is_digit code && (length code == 6)
    then first_step lib seed code last (window_around (now / seconds 30))
    else returned none

-- `_ALPHABET`
abbrev pub alphabet : Text
alphabet = codes "ABCDEFGHJKLMNPQRSTUVWXYZ23456789"

-- `fmt_code`: three groups of four.
unfoldable pub fmt_code : Text → Text
fmt_code raw = take 4 raw ++ (45 ∷ take 4 (drop 4 raw)) ++ (45 ∷ take 4 (drop 8 raw))

-- `norm_code`
unfoldable pub norm_code : Lib → Text → Text
norm_code lib s = keep_if (λ (c : ℕ). elem c alphabet) (lib.upper s)
