-- ===== src/People/Passwords.antt =====
-- The passwords of portal/gateway/gw/auth.py: a stored text names the parameters of scrypt, the
-- salt and the digest.
use minisserver_compose.Prelude.{
  ℕ, ◌≡◌, refl, sym, ap, ◌∙◌, subst, Bool, true, false, Option, none, some, List, [], ◌∷◌, ◌++◌,
  ltb, ◌==◌, if◌then◌else◌, arith, Text, codes, text_eq, text_eq_refl, elem, split, split_from,
  length,
}
use mathlib.Core.Option.{some-injective}
use mathlib.Core.List.{append_assoc, append-nil}
use minisserver_compose.People.{Lib}

abbrev pub scrypt_n : ℕ
scrypt_n = 16384

abbrev pub scrypt_r : ℕ
scrypt_r = 8

abbrev pub scrypt_p : ℕ
scrypt_p = 1

-- The text's parts, each behind a `$`.
abbrev pub joined : List Text → Text
joined [] = []
joined (s ∷ ss) = (36 ∷ s) ++ joined ss

abbrev pub stored_as : Lib → Text → Option Text → Option Text
stored_as lib salt none = none
stored_as lib salt (some h) = some (
    codes "scrypt"
    ++ joined (codes "16384" ∷ codes "8" ∷ codes "1" ∷ lib.b64encode salt ∷ lib.b64encode h ∷ []))

-- `hash_password` with the salt that it draws; `none` where scrypt raises.
unfoldable pub hash_password : Lib → Text → Text → Option Text
hash_password lib salt pw = stored_as lib salt (lib.scrypt pw salt scrypt_n scrypt_r scrypt_p)

-- `hmac.compare_digest(calc, base64.b64decode(h))`
abbrev same_digest : Option Text → Option Text → Bool
same_digest (some calc) (some h) = text_eq calc h
same_digest (some calc) none = false
same_digest none h = false

-- `hashlib.scrypt` with the parameters as the stored text gives them.
abbrev rehash : Lib → Text → Option Text → Option ℕ → Option ℕ → Option ℕ → Option Text
rehash lib pw (some salt) (some n) (some r) (some p) = lib.scrypt pw salt n r p
rehash lib pw none n r p = none
rehash lib pw (some salt) none r p = none
rehash lib pw (some salt) (some n) none p = none
rehash lib pw (some salt) (some n) (some r) none = none

-- The texts between the dollars: a `ValueError` unless they are six.
abbrev verify_parts : Lib → Text → List Text → Bool
verify_parts lib pw (name ∷ n ∷ r ∷ p ∷ salt ∷ h ∷ []) =
    same_digest
      (rehash lib pw (lib.b64decode salt) (lib.parse_int n) (lib.parse_int r) (lib.parse_int p))
      (lib.b64decode h)
verify_parts lib pw _ = false

unfoldable pub verify_password : Lib → Text → Text → Bool
unfolding text_eq split
verify_password lib pw stored = verify_parts lib pw (split 36 stored)

-- `password_problem`
unfoldable pub password_problem : Text → Bool
password_problem pw = if ltb (length pw) 12 then true else ltb 200 (length pw)

-- A text without a dollar up to the next dollar, and to the end.
split_from-append :
    (piece s t : Text)
    → elem 36 s ≡ false
    → split_from 36 piece (s ++ (36 ∷ t)) ≡ (piece ++ s) ∷ split_from 36 [] t
unfolding split_from
split_from-append piece [] t h = ap (λ (x : Text). x ∷ split_from 36 [] t) (sym (append-nil piece))
split_from-append piece (c ∷ s) t h =
    let other : (c == 36) ≡ false = ground arith in
    rw (other, split_from)
      (split_from-append (piece ++ (c ∷ [])) s t (ground arith)
        ∙ ap (λ (x : Text). x ∷ split_from 36 [] t) (append_assoc piece (c ∷ []) s))

split_from_last : (piece s : Text) → elem 36 s ≡ false → split_from 36 piece s ≡ (piece ++ s) ∷ []
unfolding split_from
split_from_last piece [] h = ap (λ (x : Text). x ∷ []) (sym (append-nil piece))
split_from_last piece (c ∷ s) h =
    let other : (c == 36) ≡ false = ground arith in
    rw (other, split_from)
      (split_from_last (piece ++ (c ∷ [])) s (ground arith)
        ∙ ap (λ (x : Text). x ∷ []) (append_assoc piece (c ∷ []) s))

split-joined :
    (lib : Lib) (salt h : Text)
    → elem 36 salt ≡ false
    → elem 36 h ≡ false
    → split 36 (codes "scrypt" ++ joined (codes "16384" ∷ codes "8" ∷ codes "1" ∷ salt ∷ h ∷ []))
      ≡ codes "scrypt" ∷ codes "16384" ∷ codes "8" ∷ codes "1" ∷ salt ∷ h ∷ []
unfolding split split_from
split-joined lib salt h a b =
    let pieces =
      λ (rest : List Text). codes "scrypt" ∷ codes "16384" ∷ codes "8" ∷ codes "1" ∷ rest in
    let last = ap (split_from 36 []) (append-nil h) ∙ split_from_last [] h b in
    ap pieces (split_from-append [] salt (h ++ []) a ∙ ap (λ (rest : List Text). salt ∷ rest) last)

-- What is stored for the digest that a password has, is accepted with it.
verify-stored_as :
    (lib : Lib)
    → ((s : Text) → lib.b64decode (lib.b64encode s) ≡ some s)
    → ((s : Text) → elem 36 (lib.b64encode s) ≡ false)
    → lib.parse_int (codes "16384") ≡ some scrypt_n
    → lib.parse_int (codes "8") ≡ some scrypt_r
    → lib.parse_int (codes "1") ≡ some scrypt_p
    → (salt pw d : Text) → lib.scrypt pw salt scrypt_n scrypt_r scrypt_p ≡ some d
    → verify_parts lib pw (
        codes "scrypt"
        ∷ codes "16384"
        ∷ codes "8"
        ∷ codes "1"
        ∷ lib.b64encode salt
        ∷ lib.b64encode d
        ∷ [])
      ≡ true
verify-stored_as lib decodes plain n r p salt pw d e =
    rw (decodes salt, decodes d, n, r, p, e) (text_eq_refl d)

-- A password is accepted against what `hash_password` stored for it, whatever the salt. The
-- functions of Python's library do what they document: base64 decodes what it encoded and has
-- no dollar among its characters, `int` reads the three parameters, and scrypt is a function.
pub verify_password-hash_password :
    (lib : Lib)
    → ((s : Text) → lib.b64decode (lib.b64encode s) ≡ some s)
    → ((s : Text) → elem 36 (lib.b64encode s) ≡ false)
    → lib.parse_int (codes "16384") ≡ some scrypt_n
    → lib.parse_int (codes "8") ≡ some scrypt_r
    → lib.parse_int (codes "1") ≡ some scrypt_p
    → (salt pw stored : Text) → hash_password lib salt pw ≡ some stored
    → verify_password lib pw stored ≡ true
unfolding hash_password verify_password
verify_password-hash_password lib decodes plain n r p salt pw stored h =
    go (lib.scrypt pw salt scrypt_n scrypt_r scrypt_p) refl h
  where
    go :
        (o : Option Text)
        → lib.scrypt pw salt scrypt_n scrypt_r scrypt_p ≡ o
        → stored_as lib salt o ≡ some stored
        → verify_password lib pw stored ≡ true
    go none e k = absurd (cc)
    go (some d) e k =
        let shape =
          split-joined lib (lib.b64encode salt) (lib.b64encode d) (plain salt) (plain d) in
        let good = verify-stored_as lib decodes plain n r p salt pw d e in
        subst (λ (t : Text). verify_password lib pw t ≡ true) (some-injective _ _ k)
          (ap (verify_parts lib pw) shape ∙ good)
