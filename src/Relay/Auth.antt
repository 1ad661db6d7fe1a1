-- ===== src/Relay/Auth.antt =====
-- `check_auth` of relay/relay.py: who may ask. Clocks are milliseconds.
pub mod Replay
pub mod Limited
use minisserver_compose.Prelude.{
  ℕ, zero, suc, ◌+◌, ◌-◌, ◌*◌, ◌≡◌, Bool, true, false, not, ◌&&◌, ◌||◌, Option, none, some, List,
  [], ◌∷◌, ◌++◌, leb, ltb, if◌then◌else◌, Text, codes, text_eq, Table, lookup, put, keep_values,
  keep_if, length, all,
}
use minisserver_compose.Prelude.Int.{ℤ, pos, negsuc, pos_part, neg_part}
use minisserver_compose.Relay.Url.{is_empty}
use minisserver_compose.Relay.Types.{Reason, Refusal, Result, ok, err, refuse}

-- The settings that `check_auth` reads.
pub record Config : Type 0 where
  pub ts_window : ℕ
  pub auth_fail_per_min : ℕ

-- The functions of Python's library that it calls: `int`, `none` where it raises, and the
-- keyed digest of a text under the relay's secret.
pub record Crypto : Type 0 where
  pub parse_int : Text → Option ℤ
  pub digest : Text → Text

-- `sign`
unfoldable pub sign : Crypto → Text → Text → Text
sign lib ts url = lib.digest (ts ++ (codes "\n" ++ url))

-- What a request carries, and when and from where it comes.
pub record Request : Type 0 where
  pub now : ℕ
  pub src : Text
  pub ts : Text
  pub sig : Text
  pub url : Text

-- `_seen` and `_auth_fail`
pub record Auth : Type 0 where
  pub seen : Table ℕ
  pub fails : Table (List ℕ)

abbrev pub no_auth : Auth
no_auth = record { seen = []; fails = [] }

abbrev pub or_nil {ℓ} : {A : Type ℓ} → Option (List A) → List A
or_nil none = []
or_nil (some xs) = xs

-- `abs(now - int(ts)) <= TS_WINDOW`
abbrev pub is_timely : ℕ → ℕ → ℤ → Bool
is_timely window now t =
    leb (now + neg_part t * 1000) (pos_part t * 1000 + window * 1000)
    && leb (pos_part t * 1000) (now + neg_part t * 1000 + window * 1000)

abbrev pub is_ascii : Text → Bool
is_ascii s = all (λ (c : ℕ). ltb c 128) s

-- `hmac.compare_digest`: `none` where it raises, on a text that is not ASCII.
unfoldable pub compare_digest : Text → Text → Option Bool
compare_digest s t = if is_ascii s then some (text_eq s t) else none

abbrev pub signed_at : Config → Crypto → Request → Option ℤ → Option Bool
signed_at cfg lib r none = some false
signed_at cfg lib r (some t) =
    if is_timely cfg.ts_window r.now t
    then compare_digest r.sig (sign lib r.ts r.url)
    else some false

-- Whether the signature is right.
unfoldable pub is_signed : Config → Crypto → Request → Option Bool
is_signed cfg lib r =
    if is_empty r.sig then some false else signed_at cfg lib r (lib.parse_int r.ts)

-- The failures of the last minute.
abbrev pub recent : ℕ → List ℕ → List ℕ
recent now ts = keep_if (λ (t : ℕ). ltb (now - t) 60000) ts

unfoldable pub prune : Auth → Request → Auth
prune a r = record a { fails = put r.src (recent r.now (or_nil (lookup r.src a.fails))) a.fails }

abbrev pub reject : Auth → Request → Auth × Result (Unit {0})
reject a r = (
  record a { fails = put r.src (or_nil (lookup r.src a.fails) ++ (r.now ∷ [])) a.fails },
  refuse 401 Reason.bad_signature,
)

unfoldable pub purge : Auth → ℕ → Auth
purge a now = record a { seen = keep_values (λ (e : ℕ). leb now e) a.seen }

abbrev pub once : Config → Auth → Request → Option ℕ → Auth × Result (Unit {0})
once cfg p r (some e) = reject p r
once cfg p r none =
    (record p { seen = put r.sig (r.now + 2 * (cfg.ts_window * 1000)) p.seen }, ok tt)

-- A right signature is good once.
unfoldable pub use_once : Config → Auth → Request → Auth × Result (Unit {0})
unfolding purge
use_once cfg a r = let p = purge a r.now in once cfg p r (lookup r.sig p.seen)

unfoldable pub judge : Config → Auth → Request → Option Bool → Auth × Result (Unit {0})
unfolding use_once
judge cfg a r none = (a, refuse 500 Reason.internal)
judge cfg a r (some false) = reject a r
judge cfg a r (some true) = use_once cfg a r

unfoldable pub check_auth : Config → Crypto → Auth → Request → Auth × Result (Unit {0})
unfolding prune judge is_signed
check_auth cfg lib a r =
    let p = prune a r in
    if leb cfg.auth_fail_per_min (length (or_nil (lookup r.src p.fails)))
    then (p, refuse 429 Reason.auth_rate_limited)
    else judge cfg p r (is_signed cfg lib r)

-- One request after the other.
unfoldable pub check_all : Config → Crypto → Auth → List Request → Auth × List (Result (Unit {0}))
unfolding check_auth
check_all cfg lib a [] = (a, [])
check_all cfg lib a (r ∷ rs) =
    let (b, x) = check_auth cfg lib a r in let (c, xs) = check_all cfg lib b rs in (c, x ∷ xs)
