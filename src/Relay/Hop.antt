-- ===== src/Relay/Hop.antt =====
-- One hop of a fetch, `resolve_public`, `fetch_hop` and `looks_blocked` of relay/relay.py. What the
-- network answers is an argument, a `Visit`; sockets, TLS and the library's HTTP parser are not modelled.
pub mod Checked
use minisserver_compose.Prelude.{
  ℕ, zero, suc, ◌+◌, ◌-◌, ◌*◌, ◌≡◌, Bool, true, false, not, ◌&&◌, ◌||◌, Option, none, some, List,
  [], ◌∷◌, ◌++◌, leb, ltb, ◌==◌, if◌then◌else◌, Text, codes, text_eq, starts_with, length, take,
  any, all, map, member, keep_if,
}
use minisserver_compose.Relay.Types.{
  Reason, Refusal, Result, ok, err, refuse, refuse_if, ◌>>=◌, ◌>>◌,
}
use minisserver_compose.Relay.Url.{from_option}

-- What `ipaddress.ip_address` knows of an address.
pub record Address : Type 0 where
  pub version : ℕ
  pub is_global : Bool
  pub is_multicast : Bool

abbrev pub judge_address : Option Address → Bool
judge_address none = false
judge_address (some a) = (a.version == 4) && (a.is_global && not a.is_multicast)

unfoldable pub is_public_v4 : (Text → Option Address) → Text → Bool
is_public_v4 ip_address addr = judge_address (ip_address addr)

abbrev first_public : (Text → Option Address) → List Text → Result Text
first_public ip_address [] = refuse 502 Reason.dns_no_ipv4
first_public ip_address (a ∷ more) =
    if any (λ (x : Text). not (is_public_v4 ip_address x)) (a ∷ more)
    then refuse 403 Reason.private_address
    else ok a

-- On the answers of `getaddrinfo`, `none` where it raises.
unfoldable pub resolve_public : (Text → Option Address) → Option (List Text) → Result Text
resolve_public ip_address answers =
    from_option answers 502 Reason.dns_failed >>= first_public ip_address

-- What the rounds of reading a body find: the deadline is over, the response is, no data comes in
-- time, or data, as it is or decompressed, with a part of it still to come.
pub data Reads : Type 0 where
  late over stalled : Reads
  chunk : Text → Reads → Reads
  inflated : Text → Bool → Reads → Reads

unfoldable pub read_body : ℕ → Text → Reads → Result Text
read_body limit body late = refuse 504 Reason.timeout_reading_body
read_body limit body over = ok body
read_body limit body stalled = refuse 504 Reason.timeout_reading_body
read_body limit body (chunk c reads) =
    let rest = read_body limit (body ++ c) reads in
    if ltb limit (length (body ++ c)) then refuse 502 Reason.body_too_large else rest
read_body limit body (inflated c tail reads) =
    let rest = read_body limit (body ++ c) reads in
    if tail && ltb limit (length body + length c)
    then refuse 502 Reason.body_too_large
    else if ltb limit (length (body ++ c))
    then refuse 502 Reason.body_too_large
    else rest

-- The head of a response and the reads of its body.
pub record Response : Type 0 where
  pub status : ℕ
  pub loc : Option Text
  pub ctype : Text
  pub enc : Text
  pub cookies : List Text
  pub reads : Reads

pub record Page : Type 0 where
  pub status : ℕ
  pub loc : Option Text
  pub body : Text
  pub ctype : Text
  pub cookies : List Text

abbrev pub text_types : List Text
text_types =
    codes "text/"
    ∷ codes "application/json"
    ∷ codes "application/xhtml+xml"
    ∷ codes "application/xml"
    ∷ codes "application/ld+json"
    ∷ []

abbrev pub image_types : List Text
image_types = codes "image/jpeg" ∷ codes "image/png" ∷ codes "image/webp" ∷ codes "image/gif" ∷ []

abbrev pub has : Text → List Text → Bool
has x xs = any (λ (y : Text). text_eq x y) xs

abbrev pub is_type_allowed : List Text → Text → Bool
is_type_allowed flags ctype =
    any (starts_with ctype) text_types
    || (has (codes "images") flags && any (starts_with ctype) image_types)

abbrev pub is_redirect : ℕ → Bool
is_redirect status = leb 300 status && ltb status 400 && not (status == 304)

abbrev pub has_no_body : ℕ → Bool
has_no_body status = (status == 204) || (status == 304)

unfoldable pub shape_page : ℕ → List Text → Response → Result Page
unfolding read_body
shape_page limit flags r = do
  refuse_if (not (has_no_body r.status) && not (is_type_allowed flags r.ctype)) 502
      Reason.content_type_not_allowed
  refuse_if (not (has r.enc ([] ∷ codes "gzip" ∷ codes "identity" ∷ []))) 502
      Reason.content_encoding_unsupported
  body ← read_body limit [] r.reads
  ok (record { status = r.status; loc = none; body = body; ctype = r.ctype; cookies = r.cookies })

unfoldable pub shape : ℕ → List Text → Response → Result Page
unfolding shape_page
shape limit flags r =
    if is_redirect r.status
    then ok
        (record { status = r.status; loc = r.loc; body = []; ctype = r.ctype; cookies = r.cookies })
    else shape_page limit flags r

-- The caller's headers that go along: a cookie only where the allow-list says so.
unfoldable pub sent_headers : List Text → List (Text × Text) → List (Text × Text)
sent_headers flags caller_headers =
    keep_if
      (λ (h : Text × Text). not (text_eq h.0 (codes "Cookie") && not (has (codes "cookies") flags)))
      caller_headers

-- What the world answers to a hop: the answers for the name, whether the deadline is over by
-- then, and what comes of connecting and asking.
pub record Visit : Type 0 where
  pub answers : Option (List Text)
  pub is_over : Bool
  pub reply : Result Response

-- A connection that is made: by address and by name, and the caller's headers on it.
pub record Contact : Type 0 where
  pub address : Text
  pub host : Text
  pub headers : List (Text × Text)

-- `fetch_hop`: the contact it makes, if any, and what it returns.
unfoldable pub contact_of :
    (Text → Option Address) → Text → List Text → List (Text × Text) → Visit → Result Contact
unfolding resolve_public sent_headers
contact_of ip_address host flags caller_headers v = do
  ip ← resolve_public ip_address v.answers
  refuse_if v.is_over 504 Reason.timeout
  ok (record { address = ip; host = host; headers = sent_headers flags caller_headers })

unfoldable pub fetch_hop :
    (Text → Option Address)
    → ℕ
    → Text
    → List Text
    → List (Text × Text)
    → Visit
    → List Contact × Result Page
unfolding contact_of shape
fetch_hop ip_address limit host flags caller_headers v =
    elim (contact_of ip_address host flags caller_headers v) [
      | err e ↦ ([], err e)
      | ok c ↦ (c ∷ [], v.reply >>= shape limit flags)
    ]

-- `bytes.lower` and `bytes.lstrip`, and `needle in s`.
abbrev lower_code : ℕ → ℕ
lower_code c = if leb 65 c && leb c 90 then c + 32 else c

abbrev pub lower_bytes : Text → Text
lower_bytes s = map lower_code s

abbrev is_space_byte : ℕ → Bool
is_space_byte c = (c == 32) || (leb 9 c && leb c 13)

unfoldable pub lstrip : Text → Text
lstrip [] = []
lstrip (c ∷ s) = let rest = lstrip s in if is_space_byte c then rest else c ∷ s

unfoldable pub contains : Text → Text → Bool
contains [] needle = starts_with [] needle
contains (c ∷ s) needle = starts_with (c ∷ s) needle || contains s needle

abbrev pub challenge_markers : List Text
challenge_markers =
    codes "just a moment"
    ∷ codes "cf-chl"
    ∷ codes "captcha"
    ∷ codes "access denied"
    ∷ codes "attention required"
    ∷ []

unfoldable pub looks_blocked : ℕ → Text → Text → Bool
unfolding lstrip contains
looks_blocked status body ctype =
    let head = lower_bytes (take 2000 body) in
    if (status == 403) || (status == 429)
    then true
    else if contains ctype (codes "json") && starts_with (lstrip head) (codes "<")
    then true
    else (status == 200)
      && (any (contains head) challenge_markers
          && (contains head (codes "<html") && ltb (length body) 20000))
