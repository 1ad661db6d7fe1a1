-- ===== src/Relay/Types.antt =====
-- What relay/relay.py raises and returns. A refusal's detail, a text for the log, is not modelled.
use minisserver_compose.Prelude.{ℕ, ◌≡◌, refl, Bool, true, false}

pub data Reason : Type 0 where
  killed daily_cap auth_rate_limited bad_signature global_concurrency : Reason
  url_too_long url_bad_chars url_unparsable scheme_not_https userinfo_in_url url_bad_port : Reason
  port_not_allowed url_no_host url_bad_idn ip_literal_host host_not_allowlisted : Reason
  dns_failed dns_no_ipv4 private_address circuit_open host_concurrency host_rate_limit : Reason
  too_many_redirects : Reason
  connect_failed content_type_not_allowed content_encoding_unsupported : Reason
  timeout timeout_reading_body body_too_large upstream_error : Reason
  request_uri_too_long no_such_path method_not_allowed : Reason
  redirect_refused : Reason → Reason
  -- An exception that is no `Refuse`.
  internal : Reason

-- `Refuse(status, reason)`
pub record Refusal : Type 0 where
  pub status : ℕ
  pub reason : Reason

pub data Result {ℓ} (A : Type ℓ) : Type ℓ where
  ok : A → Result A
  err : Refusal → Result A

abbrev pub refuse {ℓ} : {A : Type ℓ} → ℕ → Reason → Result A
refuse s r = err (record { status = s; reason = r })

-- `if ...: raise Refuse(...)`
abbrev pub refuse_if : Bool → ℕ → Reason → Result (Unit {0})
refuse_if true s r = refuse s r
refuse_if false s r = ok tt

infixl 10 ◌>>=◌ ◌>>◌
-- What follows a call, unless the call refuses.
abbrev pub ◌>>=◌ {κ ℓ} : {In : Type κ} {Out : Type ℓ} → Result In → (In → Result Out) → Result Out
err refusal >>= next = err refusal
ok value >>= next = next value

-- A request that is let through passed the first step and the one after it.
pub >>=-eq-ok {κ ℓ} :
    {In : Type κ} {Out : Type ℓ} (call : Result In) (next : In → Result Out) {out : Out}
    → (call >>= next) ≡ ok out
    → (value : In) × (call ≡ ok value) × (next value ≡ ok out)
>>=-eq-ok (err refusal) next passed = absurd (cc)
>>=-eq-ok (ok value) next passed = (value, refl, passed)

abbrev pub ◌>>◌ {ℓ} : {Out : Type ℓ} → Result (Unit {0}) → Result Out → Result Out
check >> following = check >>= λ _. following

pub refuse_if-ok : (b : Bool) (s : ℕ) (r : Reason) (u : Unit) → refuse_if b s r ≡ ok u → b ≡ false
refuse_if-ok true s r u h = absurd (cc)
refuse_if-ok false s r u h = refl
