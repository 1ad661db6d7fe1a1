-- ===== src/Relay/Url.antt =====
-- The allow-list and the URL rules of relay/relay.py: `match_allowlist` and `validate_url`.
pub mod Allowed
use minisserver_compose.Prelude.{
  ℕ, zero, suc, ◌+◌, ◌≡◌, Bool, true, false, not, ◌&&◌, ◌||◌, Option, none, some, List, [], ◌∷◌,
  ◌++◌, leb, ltb, ◌==◌, if◌then◌else◌, Text, codes, text_eq, starts_with, ends_with, drop, any,
  elem, length,
}
use minisserver_compose.Relay.Types.{
  Reason, Refusal, Result, ok, err, refuse, refuse_if, ◌>>=◌, ◌>>◌,
}

-- What `urllib.parse.urlsplit` returns. Reading `port` may raise: that is the outer `none`.
pub record Parts : Type 0 where
  pub scheme : Text
  pub netloc : Text
  pub port : Option (Option ℕ)
  pub hostname : Option Text
  pub path : Text
  pub query : Text

-- The functions of Python's library that the URL rules call; `none` where they raise.
pub record Library : Type 0 where
  pub urlsplit : Text → Option Parts
  pub urljoin : Text → Text → Option Text
  pub lower : Text → Text
  pub idna : Text → Option Text
  pub is_ip : Text → Bool

-- A line of the allow-list: a host or `*.suffix`, and its flags.
pub record Entry : Type 0 where
  pub pattern_text : Text
  pub flags : List Text

abbrev is_wildcard : Text → Bool
is_wildcard pat = starts_with pat (codes "*.")

unfoldable pub matches : Text → Text → Bool
matches pat host =
    if is_wildcard pat
    then ends_with host (drop 1 pat) && not (text_eq host (drop 2 pat))
    else text_eq host pat

-- The first line that matches.
unfoldable pub match_allowlist : List Entry → Text → Option Entry
unfolding matches
match_allowlist [] host = none
match_allowlist (e ∷ es) host =
    let rest = match_allowlist es host in if matches e.pattern_text host then some e else rest

abbrev pub max_url_len : ℕ
max_url_len = 2048

-- `_BAD_CHARS`
abbrev pub is_bad_char : ℕ → Bool
is_bad_char c = leb c 0x20 || (c == 0x7f) || (c == 0x5c)

-- `s.rstrip(".")`
abbrev pub cons_unless_dots : ℕ → Text → Text
cons_unless_dots c [] = if c == b'.' then [] else c ∷ []
cons_unless_dots c (d ∷ s) = c ∷ d ∷ s

unfoldable pub strip_dots : Text → Text
strip_dots [] = []
strip_dots (c ∷ s) = cons_unless_dots c (strip_dots s)

abbrev pub or_empty : Option Text → Text
or_empty none = []
or_empty (some t) = t

abbrev or_root : Text → Text
or_root [] = codes "/"
or_root (c ∷ s) = c ∷ s

abbrev with_query : Text → Text → Text
with_query path [] = path
with_query path (c ∷ s) = path ++ (codes "?" ++ (c ∷ s))

abbrev pub from_option {ℓ} : {A : Type ℓ} → Option A → ℕ → Reason → Result A
from_option none s r = refuse s r
from_option (some a) s r = ok a

abbrev pub is_empty : Text → Bool
is_empty [] = true
is_empty (c ∷ s) = false

abbrev pub is_other_port : Option ℕ → Bool
is_other_port none = false
is_other_port (some p) = not (p == 443)

-- `(host, path_and_query, flags)`; the port is always 443.
pub record Target : Type 0 where
  pub host : Text
  pub path : Text
  pub flags : List Text

unfoldable pub validate_url : Library → List Entry → Text → Result Target
unfolding match_allowlist strip_dots
validate_url lib rules raw = do
  refuse_if (ltb max_url_len (length raw)) 400 Reason.url_too_long
  refuse_if (any is_bad_char raw) 400 Reason.url_bad_chars
  u ← from_option (lib.urlsplit raw) 400 Reason.url_unparsable
  refuse_if (not (text_eq u.scheme (codes "https"))) 403 Reason.scheme_not_https
  refuse_if (elem b'@' u.netloc) 403 Reason.userinfo_in_url
  port ← from_option u.port 400 Reason.url_bad_port
  refuse_if (is_other_port port) 403 Reason.port_not_allowed
  let name = lib.lower (strip_dots (or_empty u.hostname))
  refuse_if (is_empty name) 400 Reason.url_no_host
  host ← from_option (lib.idna name) 400 Reason.url_bad_idn
  refuse_if (lib.is_ip host) 403 Reason.ip_literal_host
  m ← from_option (match_allowlist rules host) 403 Reason.host_not_allowlisted
  ok (record { host = host; path = with_query (or_root u.path) u.query; flags = m.flags })
