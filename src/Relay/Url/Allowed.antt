-- ===== src/Relay/Url/Allowed.antt =====
-- What a URL that passes the rules is known to be.
use minisserver_compose.Prelude.{
  ℕ, ◌≤◌, ◌<◌, leb, leb→lt, ◌||◌, ||-false, ==_iff, ◌≡◌, ◌≢◌, ◌⊎◌, refl, Bool, all, ◌==◌, ◌∙◌, ap,
  true, false, not, inl, inr, Option, none, some, List, [], ◌∷◌, ◌++◌, arith, Text, codes, text_eq,
  text_eq→eq, starts_with, starts_with-append, ends_with-append, drop, any, elem, length, In, here,
  there, Bool-cases, subst, ltb, ltb→le,
}
use minisserver_compose.Relay.Types.{Reason, ok, >>=-eq-ok, refuse_if, refuse_if-ok}
use minisserver_compose.Relay.Url.{
  Parts, Library, Entry, matches, match_allowlist, max_url_len, is_bad_char, from_option, Target,
  validate_url, is_empty, is_other_port, or_empty, strip_dots, cons_unless_dots,
}

-- The host is the pattern itself, or a proper subdomain of what follows `*.`.
pub data Matches (pat host : Text) : Type 0 where
  exact : host ≡ pat → Matches pat host
  below :
      (suffix front : Text)
      → pat ≡ codes "*." ++ suffix
      → host ≡ front ++ (codes "." ++ suffix)
      → Matches pat host

matches-Matches : (pat host : Text) → matches pat host ≡ true → Matches pat host
unfolding matches
matches-Matches pat host h = elim (Bool-cases (starts_with pat (codes "*."))) [
  | inl w ↦
      let (suffix, e) = starts_with-append pat (codes "*.") w in
      let d : drop 1 pat ≡ codes "." ++ suffix = ap (drop 1) e in
      let (front, f) = ends_with-append host (drop 1 pat) (ground (arith, w)) in
      below suffix front e (f ∙ ap (λ (t : Text). front ++ t) d)
  | inr p ↦ exact (text_eq→eq host pat (ground (arith, p)))
]

match_allowlist-In :
    (rules : List Entry) (host : Text) (e : Entry)
    → match_allowlist rules host ≡ some e
    → In e rules × Matches e.pattern_text host
unfolding match_allowlist
match_allowlist-In [] host e h = absurd (cc)
match_allowlist-In (x ∷ xs) host e h = elim (Bool-cases (matches x.pattern_text host)) [
  | inl m ↦
      let same : e ≡ x = ground (arith, m) in
      (here same, rw same (matches-Matches x.pattern_text host m))
  | inr n ↦ let (i, m) = match_allowlist-In xs host e (ground (arith, n)) in (there i, m)
]

abbrev pub is_dot : ℕ → Bool
is_dot c = c == 46

abbrev pub ends_in_dot : Text → Bool
ends_in_dot [] = false
ends_in_dot (c ∷ []) = is_dot c
ends_in_dot (c ∷ d ∷ s) = ends_in_dot (d ∷ s)

-- The text without the dots at its end.
pub record IsTrimmed (s t : Text) : Type 0 where
  pub dots : Text
  pub cut : s ≡ t ++ dots
  pub only_dots : all is_dot dots ≡ true
  pub no_more : ends_in_dot t ≡ false

cons_unless_dots-IsTrimmed :
    (c : ℕ) (s t : Text) → IsTrimmed s t → IsTrimmed (c ∷ s) (cons_unless_dots c t)
cons_unless_dots-IsTrimmed c s (d ∷ t) h = record {
  dots = h.dots;
  cut = ap (λ (r : Text). c ∷ r) h.cut;
  only_dots = h.only_dots;
  no_more = h.no_more;
}
cons_unless_dots-IsTrimmed c s [] h = elim (Bool-cases (c == 46)) [
  | inl y ↦ rw y (record {
    dots = c ∷ h.dots;
    cut = ap (λ (r : Text). c ∷ r) h.cut;
    only_dots = rw y h.only_dots;
    no_more = refl;
  })
  | inr n ↦ rw n (record {
    dots = h.dots;
    cut = ap (λ (r : Text). c ∷ r) h.cut;
    only_dots = h.only_dots;
    no_more = n;
  })
]

strip_dots-IsTrimmed : (s : Text) → IsTrimmed s (strip_dots s)
unfolding strip_dots
strip_dots-IsTrimmed [] = record { dots = []; cut = refl; only_dots = refl; no_more = refl }
strip_dots-IsTrimmed (c ∷ s) =
    cons_unless_dots-IsTrimmed c s (strip_dots s) (strip_dots-IsTrimmed s)

-- The library's name of the host, and the name that is compared: without the dots at its end, in
-- lower case, not empty, and in ASCII.
pub record IsNamed (lib : Library) (hostname : Option Text) (host : Text) : Type 0 where
  pub name : Text
  pub named : (hostname ≡ some name) ⊎ ((hostname ≡ none) × (name ≡ []))
  pub trimmed : Text
  pub no_dots : IsTrimmed name trimmed
  pub there_is_one : lib.lower trimmed ≢ []
  pub in_ascii : lib.idna (lib.lower trimmed) ≡ some host

or_empty-cases : (o : Option Text) → (o ≡ some (or_empty o)) ⊎ ((o ≡ none) × (or_empty o ≡ []))
or_empty-cases none = inr (refl, refl)
or_empty-cases (some t) = inl refl

is_empty-ne : (s : Text) → is_empty s ≡ false → s ≢ []
is_empty-ne [] h = absurd (cc)
is_empty-ne (c ∷ s) h = λ e. absurd (cc)

any-false : (s : Text) (c : ℕ) → any is_bad_char s ≡ false → In c s → is_bad_char c ≡ false
any-false [] c h i = elim i [ ]
any-false (d ∷ s) c h (here e) = ap is_bad_char e ∙ (||-false (is_bad_char d) _ h).0
any-false (d ∷ s) c h (there i) = any-false s c (||-false (is_bad_char d) _ h).1 i

is_bad_char-false : (c : ℕ) → is_bad_char c ≡ false → (32 < c) × (c ≢ 127) × (c ≢ 92)
is_bad_char-false c h =
    let (first, slash) = ||-false (leb c 32 || (c == 127)) (c == 92) h in
    let (low, del) = ||-false (leb c 32) (c == 127) first in
    (
      leb→lt c 32 low,
      λ e. absurd (cc ((==_iff c 127).1 e, del)),
      λ e. absurd (cc ((==_iff c 92).1 e, slash)),
    )

is_other_port-cases : (o : Option ℕ) → is_other_port o ≡ false → (o ≡ none) ⊎ (o ≡ some 443)
is_other_port-cases none h = inl refl
is_other_port-cases (some p) h =
    let same : p ≡ 443 = ground arith in inr (ap (λ (n : ℕ). some n) same)

-- A target that may be contacted: the URL is short, has no control character, space or backslash,
-- and is https without a user and with no port but 443; the target's host is the URL's, is no IP
-- address and stands on the allow-list, with the target's flags.
pub record IsAllowed (lib : Library) (rules : List Entry) (raw : Text) (t : Target) : Type 0 where
  pub short : length raw ≤ 2048
  pub clean : (c : ℕ) → In c raw → (32 < c) × (c ≢ 127) × (c ≢ 92)
  pub parts : Parts
  pub split_as : lib.urlsplit raw ≡ some parts
  pub https : parts.scheme ≡ codes "https"
  pub no_user : elem b'@' parts.netloc ≡ false
  pub right_port : (parts.port ≡ some none) ⊎ (parts.port ≡ some (some 443))
  pub host_of : IsNamed lib parts.hostname t.host
  pub no_ip : lib.is_ip t.host ≡ false
  pub entry : Entry
  pub listed : In entry rules
  pub fits : Matches entry.pattern_text t.host
  pub flags_of : t.flags ≡ entry.flags

from_option-ok {ℓ} :
    {A : Type ℓ} (o : Option A) (s : ℕ) (r : Reason) (a : A) → from_option o s r ≡ ok a → o ≡ some a
from_option-ok none s r a h = absurd (cc)
from_option-ok (some x) s r a h = cc

-- Whatever the library functions answer, a URL that is accepted is short, has no control character,
-- space or backslash, is https without a user and with no port but 443, and the target's host is the
-- URL's without the dots at its end, in lower case and ASCII, is no IP address, and is a host of the
-- allow-list or below one, with the flags of that line.
pub validate_url-IsAllowed :
    (lib : Library) (rules : List Entry) (raw : Text) (t : Target)
    → validate_url lib rules raw ≡ ok t
    → IsAllowed lib rules raw t
unfolding validate_url
validate_url-IsAllowed lib rules raw t h0 =
    let (u1, p1, h1) =
      >>=-eq-ok (refuse_if (ltb max_url_len (length raw)) 400 Reason.url_too_long) _ h0 in
    let (u2, p2, h2) = >>=-eq-ok (refuse_if (any is_bad_char raw) 400 Reason.url_bad_chars) _ h1 in
    let (u, p3, h3) = >>=-eq-ok (from_option (lib.urlsplit raw) 400 Reason.url_unparsable) _ h2 in
    let (u4, p4, h4) =
      >>=-eq-ok (refuse_if (not (text_eq u.scheme (codes "https"))) 403 Reason.scheme_not_https) _
        h3 in
    let (u5, p5, h5) = >>=-eq-ok (refuse_if (elem b'@' u.netloc) 403 Reason.userinfo_in_url) _ h4 in
    let (port, p6, h6) = >>=-eq-ok (from_option u.port 400 Reason.url_bad_port) _ h5 in
    let (u7, p7, h7) =
      >>=-eq-ok (refuse_if (is_other_port port) 403 Reason.port_not_allowed) _ h6 in
    let name : Text = lib.lower (strip_dots (or_empty u.hostname)) in
    let (u8, p8, h8) = >>=-eq-ok (refuse_if (is_empty name) 400 Reason.url_no_host) _ h7 in
    let (host, p9, h9) = >>=-eq-ok (from_option (lib.idna name) 400 Reason.url_bad_idn) _ h8 in
    let (u10, p10, h10) = >>=-eq-ok (refuse_if (lib.is_ip host) 403 Reason.ip_literal_host) _ h9 in
    let (m, p11, h11) =
      >>=-eq-ok (from_option (match_allowlist rules host) 403 Reason.host_not_allowlisted) _ h10 in
    let (i, f) = match_allowlist-In rules host m (from_option-ok _ _ _ m p11) in
    let same : host ≡ t.host = ground (arith, h11) in
    record {
      short = ltb→le _ _ (refuse_if-ok _ _ _ u1 p1);
      clean = λ c i. is_bad_char-false c (any-false raw c (refuse_if-ok _ _ _ u2 p2) i);
      parts = u;
      split_as = from_option-ok _ _ _ u p3;
      https = text_eq→eq u.scheme (codes "https") (ground (arith, refuse_if-ok _ _ _ u4 p4));
      no_user = refuse_if-ok _ _ _ u5 p5;
      right_port = elim (is_other_port-cases port (refuse_if-ok _ _ _ u7 p7)) [
        | inl free ↦ inl (from_option-ok _ _ _ port p6 ∙ ap (λ (o : Option ℕ). some o) free)
        | inr fixed ↦ inr (from_option-ok _ _ _ port p6 ∙ ap (λ (o : Option ℕ). some o) fixed)
      ];
      host_of = record {
        name = or_empty u.hostname;
        named = or_empty-cases u.hostname;
        trimmed = strip_dots (or_empty u.hostname);
        no_dots = strip_dots-IsTrimmed (or_empty u.hostname);
        there_is_one = is_empty-ne name (refuse_if-ok _ _ _ u8 p8);
        in_ascii =
            subst (λ h. lib.idna name ≡ some h) same (from_option-ok (lib.idna name) _ _ host p9);
      };
      no_ip = subst (λ h. lib.is_ip h ≡ false) same (refuse_if-ok _ _ _ u10 p10);
      entry = m;
      listed = i;
      fits = subst (λ h. Matches m.pattern_text h) same f;
      flags_of = ground (arith, h11);
    }
