-- ===== src/Relay/Auth/Replay.antt =====
-- A signature is good once.
use minisserver_compose.Prelude.{
  ℕ, ◌+◌, ◌*◌, ◌≤◌, ◌<◌, ◌≡◌, ◌≢◌, refl, sym, ap, ◌∙◌, subst, ◌⊎◌, inl, inr, Bool, true, false,
  &&-true, Option, none, some, List, [], ◌∷◌, ◌++◌, leb, leb→le, leb→lt, le→leb, if◌then◌else◌,
  arith, Text, text_eq→eq, codes, elem, Table, lookup, put, lookup-put, lookup-put_other,
  lookup-keep_values, Bool-cases, length,
}
use mathlib.Core.Option.{some-injective}
use minisserver_compose.Prelude.Int.{ℤ, pos_part, neg_part}
use minisserver_compose.Relay.Types.{Reason, Refusal, Result, ok, err, refuse}
use minisserver_compose.Relay.Auth.{
  Config, Crypto, sign, Request, Auth, or_nil, is_timely, compare_digest, signed_at, once,
  is_signed, prune, purge, use_once, judge, check_auth, check_all,
}

-- What a signature says that is accepted.
pub record IsSigned (cfg : Config) (lib : Crypto) (r : Request) : Type 0 where
  pub time : ℤ
  pub read_as : lib.parse_int r.ts ≡ some time
  pub not_early : r.now + neg_part time * 1000 ≤ pos_part time * 1000 + cfg.ts_window * 1000
  pub not_late : pos_part time * 1000 ≤ r.now + neg_part time * 1000 + cfg.ts_window * 1000
  pub signed : r.sig ≡ sign lib r.ts r.url

compare_digest-eq : (s t : Text) → compare_digest s t ≡ some true → s ≡ t
unfolding compare_digest
compare_digest-eq s t h = text_eq→eq s t (ground arith)

signed_at-IsSigned :
    (cfg : Config) (lib : Crypto) (r : Request) (o : Option ℤ)
    → lib.parse_int r.ts ≡ o
    → signed_at cfg lib r o ≡ some true
    → IsSigned cfg lib r
signed_at-IsSigned cfg lib r none e h = absurd (cc)
signed_at-IsSigned cfg lib r (some t) e h = elim (Bool-cases (is_timely cfg.ts_window r.now t)) [
  | inl y ↦
      let (early, late) = &&-true _ _ y in
      record {
        time = t;
        read_as = e;
        not_early = leb→le _ _ early;
        not_late = leb→le _ _ late;
        signed = compare_digest-eq r.sig (sign lib r.ts r.url) (ground (arith, y));
      }
  | inr n ↦ absurd (ground (arith, n))
]

is_signed-IsSigned :
    (cfg : Config) (lib : Crypto) (r : Request)
    → is_signed cfg lib r ≡ some true
    → IsSigned cfg lib r
unfolding is_signed
is_signed-IsSigned cfg lib r h =
    signed_at-IsSigned cfg lib r (lib.parse_int r.ts) refl (ground arith)

-- A signature with the time `t` is kept long enough, or its time is over.
abbrev pub IsSpent : Config → ℕ → ℤ → Text → Auth → Type 0
IsSpent cfg now t sig a =
    ((e : ℕ) × (lookup sig a.seen ≡ some e)
      × (pos_part t * 1000 + cfg.ts_window * 1000 ≤ e + neg_part t * 1000))
    ⊎ (pos_part t * 1000 + cfg.ts_window * 1000 < now + neg_part t * 1000)

-- The result of a request, in each of its ways.
pub data Step (cfg : Config) (lib : Crypto) (a : Auth) (r : Request)
    : Auth × Result (Unit {0}) → Type 0 where
  kept : {b : Auth} {x : Result (Unit {0})} → b.seen ≡ a.seen → x ≢ ok tt → Step cfg lib a r (b, x)
  found :
      {b : Auth} {x : Result (Unit {0})}
      → b.seen ≡ (purge a r.now).seen
      → x ≢ ok tt
      → Step cfg lib a r (b, x)
  entered :
      {b : Auth} {x : Result (Unit {0})}
      → IsSigned cfg lib r
      → lookup r.sig (purge a r.now).seen ≡ none
      → b.seen ≡ put r.sig (r.now + 2 * (cfg.ts_window * 1000)) (purge a r.now).seen
      → x ≡ ok tt
      → Step cfg lib a r (b, x)

err_ne_ok : (e : Refusal) → ◌≢◌ {A = Result (Unit {0})} (err e) (ok tt)
err_ne_ok e h = absurd (cc)

use_once-Step :
    (cfg : Config) (lib : Crypto) (a : Auth) (r : Request)
    → IsSigned cfg lib r
    → Step cfg lib a r (use_once cfg (prune a r) r)
unfolding use_once prune purge
use_once-Step cfg lib a r s = go (lookup r.sig (purge a r.now).seen) refl
  where
    go :
        (o : Option ℕ)
        → lookup r.sig (purge a r.now).seen ≡ o
        → Step cfg lib a r (once cfg (purge (prune a r) r.now) r o)
    go none e = entered s e refl refl
    go (some x) e = found refl (err_ne_ok _)

judge-Step :
    (cfg : Config) (lib : Crypto) (a : Auth) (r : Request) (o : Option Bool)
    → is_signed cfg lib r ≡ o
    → Step cfg lib a r (judge cfg (prune a r) r o)
unfolding judge prune
judge-Step cfg lib a r none e = kept refl (err_ne_ok _)
judge-Step cfg lib a r (some false) e = kept refl (err_ne_ok _)
judge-Step cfg lib a r (some true) e = use_once-Step cfg lib a r (is_signed-IsSigned cfg lib r e)

check_auth-Step :
    (cfg : Config) (lib : Crypto) (a : Auth) (r : Request)
    → Step cfg lib a r (check_auth cfg lib a r)
unfolding check_auth prune
check_auth-Step cfg lib a r =
    elim (leb cfg.auth_fail_per_min (length (or_nil (lookup r.src (prune a r).fails))))
      as (λ b. Step cfg lib a r (
        if b
        then (prune a r, refuse 429 Reason.auth_rate_limited)
        else judge cfg (prune a r) r (is_signed cfg lib r))) [
          | true ↦ kept refl (err_ne_ok _)
          | false ↦ judge-Step cfg lib a r (is_signed cfg lib r) refl
        ]

lookup-purge :
    (a : Auth) (now : ℕ) (sig : Text) (e : ℕ)
    → lookup sig a.seen ≡ some e
    → now ≤ e
    → lookup sig (purge a now).seen ≡ some e
unfolding purge
lookup-purge a now sig e h le =
    lookup-keep_values (λ (x : ℕ). leb now x) sig e a.seen h (le→leb now e le)

-- The requests come in the order of the clock.
abbrev pub IsChronological : ℕ → List Request → Type 0
IsChronological now [] = Unit
IsChronological now (r ∷ rs) = (now ≤ r.now) × IsChronological r.now rs

abbrev pub last_time : ℕ → List Request → ℕ
last_time now [] = now
last_time now (r ∷ rs) = last_time r.now rs

module _ (cfg : Config) (lib : Crypto) where
  entered-IsSpent :
      (r : Request) (s : IsSigned cfg lib r) (b : Auth) (seen : Table ℕ)
      → b.seen ≡ put r.sig (r.now + 2 * (cfg.ts_window * 1000)) seen
      → IsSpent cfg r.now s.time r.sig b
  entered-IsSpent r s b seen h = inl (
    r.now + 2 * (cfg.ts_window * 1000),
    ap (lookup r.sig) h ∙ lookup-put r.sig (r.now + 2 * (cfg.ts_window * 1000)) seen,
    omega (arith, s.not_late),
  )

  purge-IsSpent :
      (a : Auth) (now later : ℕ) (t : ℤ) (sig : Text)
      → now ≤ later
      → IsSpent cfg now t sig a
      → IsSpent cfg later t sig (purge a later)
  purge-IsSpent a now later t sig le (inl (e, h, k)) = elim (Bool-cases (leb later e)) [
    | inl y ↦ inl (e, lookup-purge a later sig e h (leb→le later e y), k)
    | inr n ↦ inr (ground arith)
  ]
  purge-IsSpent a now later t sig le (inr over) = inr (omega arith)

  Step-IsSpent :
      (a : Auth) (r : Request) (b : Auth) (x : Result (Unit {0})) (now : ℕ) (t : ℤ) (sig : Text)
      → Step cfg lib a r (b, x)
      → now ≤ r.now
      → IsSpent cfg now t sig a
      → IsSpent cfg r.now t sig b
  Step-IsSpent a r b x now t sig (kept same _) le (inl (e, h, k)) =
      inl (e, ap (lookup sig) same ∙ h, k)
  Step-IsSpent a r b x now t sig (kept same _) le (inr over) = inr (omega arith)
  Step-IsSpent a r b x now t sig (found same _) le spent =
      elim (purge-IsSpent a now r.now t sig le spent) [
        | inl (e, h, k) ↦ inl (e, ap (lookup sig) same ∙ h, k)
        | inr over ↦ inr over
      ]
  Step-IsSpent a r b x now t sig (entered s fresh same _) le spent =
      elim (purge-IsSpent a now r.now t sig le spent) [
        | inl (e, h, k) ↦
            let other : sig ≢ r.sig = λ eq. absurd (cc (eq, h, fresh)) in
            inl (e, ap (lookup sig) same ∙ (lookup-put_other sig r.sig _ _ other ∙ h), k)
        | inr over ↦ inr over
      ]

  spent-refused :
      (a : Auth) (q : Request) (b : Auth) (x : Result (Unit {0})) (now : ℕ) (t : ℤ)
      → Step cfg lib a q (b, x)
      → now ≤ q.now
      → IsSpent cfg now t q.sig a
      → (IsSigned cfg lib q → lib.parse_int q.ts ≡ some t)
      → x ≢ ok tt
  spent-refused a q b x now t (kept _ ne) le spent read = ne
  spent-refused a q b x now t (found _ ne) le spent read = ne
  spent-refused a q b x now t (entered s fresh _ _) le spent read =
      let same : s.time ≡ t = some-injective s.time t (sym s.read_as ∙ read s) in
      elim (purge-IsSpent a now q.now t q.sig le spent) [
        | inl (e, h, k) ↦ absurd (cc (h, fresh))
        | inr over ↦
            let early =
              subst
                (λ (z : ℤ). q.now + neg_part z * 1000 ≤ pos_part z * 1000 + cfg.ts_window * 1000)
                same s.not_early in
            absurd (omega (arith, over, early))
      ]

  Step-IsSigned :
      (a : Auth) (r : Request) (b : Auth) (x : Result (Unit {0}))
      → Step cfg lib a r (b, x)
      → x ≡ ok tt
      → (s : IsSigned cfg lib r) × IsSpent cfg r.now s.time r.sig b
  Step-IsSigned a r b x (kept _ ne) h = absurd (ne h)
  Step-IsSigned a r b x (found _ ne) h = absurd (ne h)
  Step-IsSigned a r b x (entered s _ same _) h = (s, entered-IsSpent r s b _ same)

  check_all-IsSpent :
      (a : Auth) (rs : List Request) (now : ℕ) (t : ℤ) (sig : Text)
      → IsChronological now rs
      → IsSpent cfg now t sig a
      → IsSpent cfg (last_time now rs) t sig (check_all cfg lib a rs).0
  unfolding check_all
  check_all-IsSpent a [] now t sig c spent = spent
  check_all-IsSpent a (r ∷ rs) now t sig (le, c) spent =
      let (b, x) = check_auth cfg lib a r in
      check_all-IsSpent b rs r.now t sig c
        (Step-IsSpent a r b x now t sig (check_auth-Step cfg lib a r) le spent)

-- A request that is accepted is signed with the secret, over its own timestamp and URL, and its
-- timestamp is within the window around the clock.
pub check_auth-IsSigned :
    (cfg : Config) (lib : Crypto) (a : Auth) (r : Request)
    → (check_auth cfg lib a r).1 ≡ ok tt
    → IsSigned cfg lib r
check_auth-IsSigned cfg lib a r h =
    (Step-IsSigned cfg lib a r (check_auth cfg lib a r).0 (check_auth cfg lib a r).1
      (check_auth-Step cfg lib a r) h).0

-- A request that is accepted carries a signature that is not remembered, or no longer.
pub check_auth-fresh :
    (cfg : Config) (lib : Crypto) (a : Auth) (r : Request)
    → (check_auth cfg lib a r).1 ≡ ok tt
    → (e : ℕ) → lookup r.sig a.seen ≡ some e
    → e < r.now
check_auth-fresh cfg lib a r h e before =
    go (check_auth cfg lib a r).0 (check_auth cfg lib a r).1 (check_auth-Step cfg lib a r) h
  where
    go : (b : Auth) (x : Result (Unit {0})) → Step cfg lib a r (b, x) → x ≡ ok tt → e < r.now
    go b x (kept _ ne) k = absurd (ne k)
    go b x (found _ ne) k = absurd (ne k)
    go b x (entered s fresh _ _) k = elim (Bool-cases (leb r.now e)) [
      | inl y ↦
          let still = lookup-purge a r.now r.sig e before (leb→le r.now e y) in
          absurd (cc (still, fresh))
      | inr n ↦ leb→lt r.now e n
    ]

sign-eq :
    (lib : Crypto) (q r : Request)
    → sign lib q.ts q.url ≡ sign lib r.ts r.url
    → lib.digest (q.ts ++ (codes "\n" ++ q.url)) ≡ lib.digest (r.ts ++ (codes "\n" ++ r.url))
unfolding sign
sign-eq lib q r e = e

-- What stands before the first newline.
before_newline :
    (t s u v : Text)
    → elem 10 t ≡ false
    → elem 10 s ≡ false
    → t ++ (codes "\n" ++ u) ≡ s ++ (codes "\n" ++ v)
    → t ≡ s
before_newline [] [] u v p q e = refl
before_newline [] (d ∷ s) u v p q e = absurd (ground arith)
before_newline (c ∷ t) [] u v p q e = absurd (ground arith)
before_newline (c ∷ t) (d ∷ s) u v p q e =
    let same : c ≡ d = ground arith in
    let rest = before_newline t s u v (ground arith) (ground arith) (ground arith) in
    cc (same, rest)

-- No replay: after a request is accepted, whatever requests come in between, in the order of the
-- clock, no later request with the same signature is accepted. The digest has no collisions, and a
-- timestamp, a header's value, has no newline.
pub check_auth_once :
    (cfg : Config) (lib : Crypto)
    → ((x y : Text) → lib.digest x ≡ lib.digest y → x ≡ y)
    → (a : Auth) (r : Request) (rs : List Request) (q : Request) → elem 10 r.ts ≡ false
    → elem 10 q.ts ≡ false
    → IsChronological r.now rs
    → last_time r.now rs ≤ q.now
    → (check_auth cfg lib a r).1 ≡ ok tt
    → q.sig ≡ r.sig
    → (check_auth cfg lib (check_all cfg lib (check_auth cfg lib a r).0 rs).0 q).1 ≢ ok tt
check_auth_once cfg lib binds a r rs q one_line line c le h same =
    let b = (check_auth cfg lib a r).0 in
    let (s, spent) =
      Step-IsSigned cfg lib a r b (check_auth cfg lib a r).1 (check_auth-Step cfg lib a r) h in
    let d = (check_all cfg lib b rs).0 in
    let kept_up = check_all-IsSpent cfg lib b rs r.now s.time r.sig c spent in
    spent-refused cfg lib d q (check_auth cfg lib d q).0 (check_auth cfg lib d q).1
      (last_time r.now rs) s.time (check_auth-Step cfg lib d q) le
      (subst (λ (x : Text). IsSpent cfg (last_time r.now rs) s.time x d) (sym same) kept_up)
      (λ (z : IsSigned cfg lib q).
        let signs = sign-eq lib q r (sym z.signed ∙ (same ∙ s.signed)) in
        ap lib.parse_int (before_newline q.ts r.ts q.url r.url line one_line (binds _ _ signs))
        ∙ s.read_as)
