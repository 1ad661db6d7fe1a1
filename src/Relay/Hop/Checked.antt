-- ===== src/Relay/Hop/Checked.antt =====
-- What a hop contacts and returns.
use minisserver_compose.Prelude.{
  none, some, &&-true, ==_iff, ◌==◌, ℕ, ◌≤◌, ◌≡◌, refl, subst, not, ◌&&◌, Option, List, [], ◌∷◌,
  ◌++◌, ltb, ltb→le, arith, Text, codes, length, any, keep_if, Bool, true, false, text_eq,
  text_eq→eq, text_eq_refl, In, here, there, ap, ◌∙◌, inl, inr, Bool-cases, All,
}
use minisserver_compose.Relay.Types.{Reason, Result, ok, err, refuse_if, ◌>>=◌, >>=-eq-ok}
use minisserver_compose.Relay.Url.{from_option}
use minisserver_compose.Relay.Hop.{
  Address, judge_address, is_public_v4, first_public, resolve_public, Reads, late, over, stalled,
  chunk, inflated, read_body, Response, Page, is_redirect, has_no_body, is_type_allowed, has,
  shape_page, shape, sent_headers, Visit, Contact, contact_of, fetch_hop,
}

-- An address that Python's library knows, of IPv4, global and not for multicast.
pub record IsPublic (ip_address : Text → Option Address) (t : Text) : Type 0 where
  pub address : Address
  pub known : ip_address t ≡ some address
  pub v4 : address.version ≡ 4
  pub everywhere : address.is_global ≡ true
  pub for_one : address.is_multicast ≡ false

pub is_public_v4-IsPublic :
    (ip_address : Text → Option Address) (t : Text)
    → is_public_v4 ip_address t ≡ true
    → IsPublic ip_address t
unfolding is_public_v4
is_public_v4-IsPublic ip_address t h = go (ip_address t) refl h
  where
    go : (o : Option Address) → ip_address t ≡ o → judge_address o ≡ true → IsPublic ip_address t
    go none e k = absurd (cc)
    go (some a) e k =
        let (four, rest) = &&-true (a.version == 4) _ k in
        let (wide, single) = &&-true a.is_global _ rest in
        record {
          address = a;
          known = e;
          v4 = (==_iff a.version 4).0 four;
          everywhere = wide;
          for_one = ground (arith, single);
        }

first_public-is_public :
    (ip_address : Text → Option Address) (found : List Text) (a : Text)
    → first_public ip_address found ≡ ok a
    → is_public_v4 ip_address a ≡ true
first_public-is_public ip_address [] a h = absurd (cc)
first_public-is_public ip_address (x ∷ xs) a h =
    elim (Bool-cases (any (λ (y : Text). not (is_public_v4 ip_address y)) (x ∷ xs))) [
      | inl y ↦ absurd (ground (arith, y))
      | inr n ↦
          let same : x ≡ a = ground (arith, n) in
          subst (λ (y : Text). is_public_v4 ip_address y ≡ true) same (ground (arith, n))
    ]

resolve_public-is_public :
    (ip_address : Text → Option Address) (answers : Option (List Text)) (ip : Text)
    → resolve_public ip_address answers ≡ ok ip
    → is_public_v4 ip_address ip ≡ true
unfolding resolve_public
resolve_public-is_public ip_address answers ip p =
    let (found, _, q) = >>=-eq-ok (from_option answers 502 Reason.dns_failed) _ p in
    first_public-is_public ip_address found ip q

contact_of-ok :
    (ip_address : Text → Option Address) (host : Text) (flags : List Text)
    (hdrs : List (Text × Text)) (v : Visit) (c : Contact)
    → contact_of ip_address host flags hdrs v ≡ ok c
    → (is_public_v4 ip_address c.address ≡ true)
      × (c.host ≡ host)
      × (c.headers ≡ sent_headers flags hdrs)
unfolding contact_of
contact_of-ok ip_address host flags hdrs v c h =
    let (ip, p, h1) = >>=-eq-ok (resolve_public ip_address v.answers) _ h in
    let (u, q, h2) = >>=-eq-ok (refuse_if v.is_over 504 Reason.timeout) _ h1 in
    let same : ip ≡ c.address = ground (arith, h2) in
    (
      subst (λ (a : Text). is_public_v4 ip_address a ≡ true) same
          (resolve_public-is_public ip_address v.answers ip p),
      ground (arith, h2),
      ground (arith, h2),
    )

-- What is sent of the caller's headers: no others, and a cookie only for a host that is granted it.
pub record AreGranted (flags : List Text) (caller sent : List (Text × Text)) : Type 0 where
  pub from_caller : (h : Text × Text) → In h sent → In h caller
  pub cookie_granted : (v : Text) → In (codes "Cookie", v) sent → In (codes "cookies") flags

In-has : (x : Text) (xs : List Text) → has x xs ≡ true → In x xs
In-has x [] h = absurd (cc)
In-has x (y ∷ ys) h = elim (Bool-cases (text_eq x y)) [
  | inl e ↦ here (text_eq→eq x y e)
  | inr n ↦ there (In-has x ys (ground (arith, n)))
]

In-of_keep_if :
    (p : Text × Text → Bool) (x : Text × Text) (xs : List (Text × Text))
    → In x (keep_if p xs)
    → In x xs × (p x ≡ true)
In-of_keep_if p x [] i = elim i [ ]
In-of_keep_if p x (y ∷ ys) i = elim (Bool-cases (p y)) [
  | inl k ↦ elim (rw k at i) [
    | here e ↦ (here e, ap p e ∙ k)
    | there j ↦ let (l, h) = In-of_keep_if p x ys j in (there l, h)
  ]
  | inr n ↦ let (j, h) = In-of_keep_if p x ys (rw n at i) in (there j, h)
]

pub sent_headers-AreGranted :
    (flags : List Text) (caller : List (Text × Text))
    → AreGranted flags caller (sent_headers flags caller)
unfolding sent_headers
sent_headers-AreGranted flags caller = record {
  from_caller = λ h i. (In-of_keep_if _ h caller i).0;
  cookie_granted = λ v i. In-has (codes "cookies") flags (
      granted (has (codes "cookies") flags)
        (rw (text_eq_refl (codes "Cookie")) at (In-of_keep_if _ (codes "Cookie", v) caller i).1));
}
  where
    granted : (b : Bool) → not (true && not b) ≡ true → b ≡ true
    granted true h = refl
    granted false h = absurd (cc)

pub fetch_hop-contacts :
    (ip_address : Text → Option Address) (limit : ℕ) (host : Text) (flags : List Text)
    (hdrs : List (Text × Text)) (v : Visit) (P : Contact → Type 0)
    → ((c : Contact)
        → is_public_v4 ip_address c.address ≡ true
        → c.host ≡ host
        → c.headers ≡ sent_headers flags hdrs
        → P c)
    → All P (fetch_hop ip_address limit host flags hdrs v).0
      × (length (fetch_hop ip_address limit host flags hdrs v).0 ≤ 1)
unfolding fetch_hop
fetch_hop-contacts ip_address limit host flags hdrs v P f =
    go (contact_of ip_address host flags hdrs v) refl
  where
    go :
        (r : Result Contact)
        → contact_of ip_address host flags hdrs v ≡ r
        → let cs =
            (elim r as (λ (x : Result Contact). List Contact × Result Page) [
              | err e ↦ ([], err e)
              | ok c ↦ (c ∷ [], v.reply >>= shape limit flags)
            ]).0 in
          All P cs × (length cs ≤ 1)
    go (err e) h = (tt, omega arith)
    go (ok c) h =
        let (a, b, d) = contact_of-ok ip_address host flags hdrs v c h in
        ((f c a b d, tt), omega arith)

read_body-length :
    (limit : ℕ) (body : Text) (reads : Reads) (b : Text)
    → length body ≤ limit
    → read_body limit body reads ≡ ok b
    → length b ≤ limit
unfolding read_body
read_body-length limit body late b le h = absurd (cc)
read_body-length limit body over b le h = ground (arith, h)
read_body-length limit body stalled b le h = absurd (cc)
read_body-length limit body (chunk c reads) b le h =
    elim (Bool-cases (ltb limit (length (body ++ c)))) [
      | inl y ↦ absurd (ground (arith, y))
      | inr n ↦ read_body-length limit (body ++ c) reads b (ltb→le _ _ n) (ground (arith, n))
    ]
read_body-length limit body (inflated c tail reads) b le h =
    elim (Bool-cases (ltb limit (length (body ++ c)))) [
      | inl y ↦ absurd (ground (arith, y))
      | inr n ↦ read_body-length limit (body ++ c) reads b (ltb→le _ _ n) (ground (arith, n))
    ]

shape-length :
    (limit : ℕ) (flags : List Text) (r : Response) (p : Page)
    → shape limit flags r ≡ ok p
    → length p.body ≤ limit
unfolding shape
shape-length limit flags r p h = elim (Bool-cases (is_redirect r.status)) [
  | inl y ↦
      let e : [] ≡ p.body = ground (arith, y) in
      subst (λ (t : Text). length t ≤ limit) e (omega arith)
  | inr n ↦
      let h0 : shape_page limit flags r ≡ ok p = ground (arith, n) in
      let (u1, _, h1) =
        >>=-eq-ok
          (refuse_if (not (has_no_body r.status) && not (is_type_allowed flags r.ctype)) 502
            Reason.content_type_not_allowed)
          _ h0 in
      let (u2, _, h2) =
        >>=-eq-ok
          (refuse_if (not (has r.enc ([] ∷ codes "gzip" ∷ codes "identity" ∷ []))) 502
            Reason.content_encoding_unsupported)
          _ h1 in
      let (b, q, h3) = >>=-eq-ok (read_body limit [] r.reads) _ h2 in
      let e : b ≡ p.body = ground (arith, h3) in
      subst (λ (t : Text). length t ≤ limit) e (read_body-length limit [] r.reads b (omega arith) q)
]

pub fetch_hop-length :
    (ip_address : Text → Option Address) (limit : ℕ) (host : Text) (flags : List Text)
    (hdrs : List (Text × Text)) (v : Visit) (p : Page)
    → (fetch_hop ip_address limit host flags hdrs v).1 ≡ ok p
    → length p.body ≤ limit
unfolding fetch_hop
fetch_hop-length ip_address limit host flags hdrs v p = go (contact_of ip_address host flags hdrs v)
  where
    go :
        (r : Result Contact)
        → (elim r as (λ (x : Result Contact). List Contact × Result Page) [
          | err e ↦ ([], err e)
          | ok c ↦ (c ∷ [], v.reply >>= shape limit flags)
        ]).1
          ≡ ok p
        → length p.body ≤ limit
    go (err e) h = absurd (cc)
    go (ok c) h =
        let (r, _, q) = >>=-eq-ok v.reply (shape limit flags) h in shape-length limit flags r p q
