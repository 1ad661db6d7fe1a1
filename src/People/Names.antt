-- ===== src/People/Names.antt =====
-- The names and the ids of people: `NAME_RE` and `slug` of portal/gateway/gw/people.py.
use minisserver_compose.Prelude.{
  ℕ, Bool, true, false, not, ◌&&◌, ◌||◌, Option, none, some, [], ◌∷◌, leb, ◌==◌, if◌then◌else◌,
  Text, codes, text_eq, length, take, all,
}
use mathlib.Core.List.{reverse}
use minisserver_compose.Prelude.Json.{Json, str}
use minisserver_compose.People.{Role, admin, household, readonly, Lib}

-- `NAME_RE`, on a stripped text, which has no newline at its end.
abbrev is_name_char : ℕ → Bool
is_name_char c = leb 32 c && not ((c == 60) || (c == 62))

unfoldable pub is_name : Text → Bool
is_name s = leb 1 (length s) && (leb (length s) 60 && all is_name_char s)

-- `isinstance(name, str)` and the match: the stripped name.
unfoldable pub name_of : Lib → Json → Option Text
unfolding is_name
name_of lib (str s) = if is_name (lib.strip s) then some (lib.strip s) else none
name_of lib _ = none

-- `role in ROLES`
unfoldable pub role_of : Json → Option Role
unfolding text_eq
role_of (str s) =
    if text_eq s (codes "admin")
    then some admin
    else if text_eq s (codes "household")
    then some household
    else if text_eq s (codes "readonly")
    then some readonly
    else none
role_of _ = none

abbrev russian : Text
russian = codes "абвгдеёжзийклмнопрстуфхцчшщъыьэюя"

abbrev latin : Text
latin = codes "abvgdeezzijklmnoprstufhccss_y_eua"

-- `str.translate` with `str.maketrans(xs, ys)`
abbrev letter_from : Text → Text → ℕ → ℕ
letter_from [] ys c = c
letter_from (x ∷ xs) [] c = c
letter_from (x ∷ xs) (y ∷ ys) c = if c == x then y else letter_from xs ys c

unfoldable pub transliterate : Text → Text
transliterate [] = []
transliterate (c ∷ s) = letter_from russian latin c ∷ transliterate s

abbrev pub is_slug_char : ℕ → Bool
is_slug_char c = (leb 97 c && leb c 122) || (leb 48 c && leb c 57)

-- `re.sub("[^a-z0-9]+", "-", s)`: each run of other characters becomes one dash. The flag says
-- that the run has begun.
unfoldable pub dashed : Bool → Text → Text
dashed b [] = []
dashed b (c ∷ s) =
    let more = dashed true s in
    let rest = dashed false s in if is_slug_char c then c ∷ rest else if b then more else 45 ∷ more

-- `s.strip("-")`
unfoldable pub lstrip_dash : Text → Text
lstrip_dash [] = []
lstrip_dash (c ∷ s) = let rest = lstrip_dash s in if c == 45 then rest else c ∷ s

unfoldable pub strip_dash : Text → Text
unfolding lstrip_dash
strip_dash s = reverse (lstrip_dash (reverse (lstrip_dash s)))

abbrev or_person : Text → Text
or_person [] = codes "person"
or_person (c ∷ s) = c ∷ s

unfoldable pub slug : Lib → Text → Text
unfolding dashed strip_dash transliterate
slug lib name = take 30 (or_person (strip_dash (dashed false (transliterate (lib.lower name)))))
