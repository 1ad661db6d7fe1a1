-- ===== src/Relay/Auth/Limited.antt =====
-- How many wrong signatures a source may send in a minute.
use minisserver_compose.Prelude.{
  ℕ, suc, ◌+◌, ◌-◌, ◌≤◌, ◌<◌, ◌≡◌, ◌≢◌, refl, sym, ap, ◌∙◌, inl, inr, Bool, true, false, ◌&&◌,
  Option, none, some, List, [], ◌∷◌, ◌++◌, leb, ltb, leb→lt, le→leb, if◌then◌else◌, arith, Text,
  text_eq, text_eq→eq, Table, lookup, put, lookup-put, lookup-put_other, Bool-cases, text_eq_iff,
  length, keep_if, All, length-keep_if-le,
}
use minisserver_compose.Relay.Types.{Reason, Result, ok, err, refuse}
use minisserver_compose.Relay.Auth.{
  Config, Crypto, Request, Auth, or_nil, is_signed, recent, prune, reject, purge, once, use_once,
  judge, check_auth, check_all,
}

abbrev is_bad_reason : Reason → Bool
is_bad_reason Reason.bad_signature = true
is_bad_reason _ = false

-- The answer 401 to a signature that is not good.
abbrev pub is_bad_signature : Result (Unit {0}) → Bool
is_bad_signature (ok _) = false
is_bad_signature (err e) = is_bad_reason e.reason

-- How many of the requests of `src` are answered that the signature is bad.
unfoldable pub count_bad : Text → List Request → List (Result (Unit {0})) → ℕ
count_bad src [] xs = 0
count_bad src (r ∷ rs) [] = 0
count_bad src (r ∷ rs) (x ∷ xs) =
    let n = count_bad src rs xs in if text_eq src r.src && is_bad_signature x then suc n else n

-- The failures of `src` from `start` on.
abbrev pub since : ℕ → List ℕ → ℕ
since start ts = length (keep_if (λ (t : ℕ). leb start t) ts)

abbrev pub fails_of : Auth → Text → List ℕ
fails_of a src = or_nil (lookup src a.fails)

since-recent :
    (start now : ℕ) (ts : List ℕ)
    → now < start + 60000
    → since start (recent now ts) ≡ since start ts
since-recent start now [] le = refl
since-recent start now (t ∷ ts) le = elim (Bool-cases (ltb (now - t) 60000)) [
  | inl y ↦ ground (arith, y, since-recent start now ts le)
  | inr n ↦
      let old : leb start t ≡ false = ground arith in
      ground (arith, n, old, since-recent start now ts le)
]

since-snoc :
    (start now : ℕ) (ts : List ℕ)
    → start ≤ now
    → since start (ts ++ (now ∷ [])) ≡ suc (since start ts)
since-snoc start now [] le = rw (le→leb start now le) refl
since-snoc start now (t ∷ ts) le = ground (arith, since-snoc start now ts le)

-- What a request does to the failures, in each of its ways.
data Way (cfg : Config) (a : Auth) (r : Request) : Auth × Result (Unit {0}) → Type 0 where
  pruned :
      {b : Auth} {x : Result (Unit {0})}
      → b.fails ≡ (prune a r).fails
      → is_bad_signature x ≡ false
      → Way cfg a r (b, x)
  failed :
      {b : Auth} {x : Result (Unit {0})}
      → b.fails ≡ (reject (prune a r) r).0.fails
      → is_bad_signature x ≡ true
      → length (fails_of (prune a r) r.src) < cfg.auth_fail_per_min
      → Way cfg a r (b, x)

once-Way :
    (cfg : Config) (a : Auth) (r : Request) (o : Option ℕ)
    → length (fails_of (prune a r) r.src) < cfg.auth_fail_per_min
    → Way cfg a r (once cfg (purge (prune a r) r.now) r o)
unfolding purge
once-Way cfg a r none lt = pruned refl refl
once-Way cfg a r (some e) lt = failed refl refl lt

judge-Way :
    (cfg : Config) (a : Auth) (r : Request) (o : Option Bool)
    → length (fails_of (prune a r) r.src) < cfg.auth_fail_per_min
    → Way cfg a r (judge cfg (prune a r) r o)
unfolding judge use_once
judge-Way cfg a r none lt = pruned refl refl
judge-Way cfg a r (some false) lt = failed refl refl lt
judge-Way cfg a r (some true) lt = once-Way cfg a r (lookup r.sig (purge (prune a r) r.now).seen) lt

check_auth-Way :
    (cfg : Config) (lib : Crypto) (a : Auth) (r : Request) → Way cfg a r (check_auth cfg lib a r)
unfolding check_auth
check_auth-Way cfg lib a r =
    go (leb cfg.auth_fail_per_min (length (fails_of (prune a r) r.src))) refl
  where
    go :
        (c : Bool)
        → leb cfg.auth_fail_per_min (length (fails_of (prune a r) r.src)) ≡ c
        → Way cfg a r (
            if c
            then (prune a r, refuse 429 Reason.auth_rate_limited)
            else judge cfg (prune a r) r (is_signed cfg lib r))
    go true e = pruned refl refl
    go false e = judge-Way cfg a r (is_signed cfg lib r) (leb→lt _ _ e)

module _ (start : ℕ) (src : Text) where
  abbrev since_of : Table (List ℕ) → Text → ℕ
  since_of es k = since start (or_nil (lookup k es))

  since-put :
      (k : Text) (ts : List ℕ) (es : Table (List ℕ)) (n : ℕ)
      → since start ts ≡ n + since_of es k
      → since_of (put k ts es) src ≡ (if text_eq src k then n else 0) + since_of es src
  since-put k ts es n h = elim (Bool-cases (text_eq src k)) [
    | inl y ↦
        let same = text_eq→eq src k y in
        rw y (
          ap (since_of (put k ts es)) same
          ∙ (ap (λ (o : Option (List ℕ)). since start (or_nil o)) (lookup-put k ts es)
              ∙ (h ∙ ap (λ (j : Text). n + since_of es j) (sym same))))
    | inr d ↦
        let other : src ≢ k = λ e. absurd (cc (d, (text_eq_iff src k).1 e)) in
        let e =
          ap (λ (o : Option (List ℕ)). since start (or_nil o))
            (lookup-put_other src k ts es other) in
        rw d (omega (arith, e))
  ]

  prune-since :
      (a : Auth) (r : Request)
      → r.now < start + 60000
      → since_of (prune a r).fails src ≡ since_of a.fails src
  unfolding prune
  prune-since a r le =
      let e =
        since-put r.src (recent r.now (fails_of a r.src)) a.fails 0
          (omega (arith, since-recent start r.now (fails_of a r.src) le)) in
      ground (arith, e)

  reject-since :
      (a : Auth) (r : Request)
      → start ≤ r.now
      → since_of (reject a r).0.fails src
        ≡ (if text_eq src r.src then 1 else 0) + since_of a.fails src
  reject-since a r le =
      since-put r.src (fails_of a r.src ++ (r.now ∷ [])) a.fails 1
        (omega (arith, since-snoc start r.now (fails_of a r.src) le))

  failed-since :
      (cfg : Config) (a : Auth) (r : Request)
      → text_eq src r.src ≡ true
      → r.now < start + 60000
      → length (fails_of (prune a r) r.src) < cfg.auth_fail_per_min
      → since_of a.fails src < cfg.auth_fail_per_min
  failed-since cfg a r y le lt =
      let some_of = length-keep_if-le (λ (t : ℕ). leb start t) (fails_of (prune a r) r.src) in
      let same : since_of (prune a r).fails src ≡ since_of (prune a r).fails r.src =
        ap (since_of (prune a r).fails) (text_eq→eq src r.src y) in
      omega (arith, some_of, same, prune-since a r le, lt)

-- The requests all come within one minute.
abbrev pub IsWithin : ℕ → List Request → Type 0
IsWithin start rs = All (λ (r : Request). (start ≤ r.now) × (r.now < start + 60000)) rs

-- A source gets at most as many answers 401 in a minute as the relay allows it failures, less those
-- that it has in that minute already, from whatever state the relay is in.
pub check_all-count_bad :
    (cfg : Config) (lib : Crypto) (a : Auth) (start : ℕ) (src : Text) (rs : List Request)
    → IsWithin start rs
    → count_bad src rs (check_all cfg lib a rs).1
      ≤ cfg.auth_fail_per_min - since start (fails_of a src)
unfolding count_bad check_all
check_all-count_bad cfg lib a start src [] h = omega arith
check_all-count_bad cfg lib a start src (r ∷ rs) ((from, to), h) =
    let (b, x) = check_auth cfg lib a r in
    let ih = check_all-count_bad cfg lib b start src rs h in
    count_step b x (check_auth-Way cfg lib a r) ih
  where
    count_step :
        (b : Auth) (x : Result (Unit {0}))
        → Way cfg a r (b, x)
        → count_bad src rs (check_all cfg lib b rs).1
          ≤ cfg.auth_fail_per_min - since start (fails_of b src)
        → (if text_eq src r.src && is_bad_signature x
            then suc (count_bad src rs (check_all cfg lib b rs).1)
            else count_bad src rs (check_all cfg lib b rs).1)
          ≤ cfg.auth_fail_per_min - since start (fails_of a src)
    count_step b x (pruned same good) ih =
        let e = ap (λ (es : Table (List ℕ)). since_of start src es src) same in
        let f = prune-since start src a r to in ground (arith, good, ih, e, f)
    count_step b x (failed same bad lt) ih =
        let e = ap (λ (es : Table (List ℕ)). since_of start src es src) same in
        let f = prune-since start src a r to in
        let g = reject-since start src (prune a r) r from in
        elim (Bool-cases (text_eq src r.src)) [
          | inl y ↦
              let few = failed-since start src cfg a r y to lt in
              let g1 : since_of start src (reject (prune a r) r).0.fails src
                  ≡ 1 + since_of start src (prune a r).fails src =
                (rw y at g) in
              rw (y, bad) (omega (arith, ih, e, f, g1, few))
          | inr n ↦
              let g0 : since_of start src (reject (prune a r) r).0.fails src
                  ≡ 0 + since_of start src (prune a r).fails src =
                (rw n at g) in
              rw n (omega (arith, ih, e, f, g0))
        ]
