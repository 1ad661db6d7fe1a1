-- ===== src/Audit/Examples.antt =====
-- The audit's theorems at concrete inputs.
use mathlib.Core.Option.{some-injective}
use minisserver_compose.Prelude.{
  List, ◌++◌, All, some, if◌then◌else◌, text_eq, subst, ℕ, suc, ◌+◌, ◌*◌, ◌<◌, ◌≡◌, refl, sym, ap,
  false, ltb, ltb→lt, Bool-cases, none, [], ◌∷◌, inl, inr, arith, Text, codes, map,
}
use minisserver_compose.Prelude.Json.{Json, Fields, null, str, object, field, end}
use minisserver_compose.Audit.{
  Codec, Row, Call, genesis, last_hash, new_row, audit, verify_from, verify_audit,
}
use minisserver_compose.Audit.Chain.{
  passed, contents, body_json, IsReadBack, verify_from-new_row, verify_audit-audit,
  verify_audit_binds,
}

-- A code for two numbers, and for a list of them, that has no collisions.
abbrev pair : ℕ → ℕ → ℕ
pair a b = (a + b) * (a + b) + a

square_lt : (m n : ℕ) → m < n → m * m + m < n * n
square_lt m n l = grind arith

pair_sum : (a b c d : ℕ) → pair a b ≡ pair c d → a + b < c + d → ⊥
pair_sum a b c d e l = grind (arith, square_lt (a + b) (c + d) l)

pair_injective : (a b c d : ℕ) → pair a b ≡ pair c d → (a ≡ c) × (b ≡ d)
pair_injective a b c d e =
    let below : ltb (a + b) (c + d) ≡ false = not_lt (a + b) (c + d) (pair_sum a b c d e) in
    let above : ltb (c + d) (a + b) ≡ false = not_lt (c + d) (a + b) (pair_sum c d a b (sym e)) in
    let sums : a + b ≡ c + d = ground (arith, below, above) in
    let squares = ap (λ (n : ℕ). n * n) sums in
    (omega (arith, sums, squares, e), omega (arith, sums, squares, e))
  where
    not_lt : (m n : ℕ) → (m < n → ⊥) → ltb m n ≡ false
    not_lt m n h = elim (Bool-cases (ltb m n)) [ inl y ↦ absurd (h (ltb→lt m n y)) | inr f ↦ f ]

abbrev encode : Text → ℕ
encode [] = 0
encode (c ∷ s) = suc (pair c (encode s))

encode_injective : (x y : Text) → encode x ≡ encode y → x ≡ y
encode_injective [] [] e = refl
encode_injective [] (d ∷ y) e = absurd (omega arith)
encode_injective (c ∷ x) [] e = absurd (omega arith)
encode_injective (c ∷ x) (d ∷ y) e =
    let (first, rest) = pair_injective c (encode x) d (encode y) (omega (arith, e)) in
    let tails = encode_injective x y rest in cc (first, tails)

-- JSON that knows `null` only, and a hash of one number.
abbrev null_codec : Codec
null_codec = record { dumps = λ x. []; loads = λ s. some null; sha256 = λ s. encode s ∷ [] }

null_codec_free : (x y : Text) → null_codec.sha256 x ≡ null_codec.sha256 y → x ≡ y
null_codec_free x y e = encode_injective x y (ground arith)

abbrev call : Call
call = record {
  ts = codes "2026-11-25T10:00:00";
  actor = null;
  action = codes "import";
  entity_id = none;
  before = null;
  after = null;
}

empty_verified : verify_audit null_codec [] ≡ passed 0
unfolding verify_audit verify_from
empty_verified = refl

one_verified : verify_audit null_codec (audit null_codec [] call) ≡ passed 1
one_verified = verify_audit-audit null_codec call refl refl refl [] 0 empty_verified

verify_audit-audit_example :
    verify_audit null_codec (audit null_codec (audit null_codec [] call) call) ≡ passed 2
verify_audit-audit_example =
    verify_audit-audit null_codec call refl refl refl (audit null_codec [] call) 1 one_verified

-- JSON that knows `null`, texts and the body of the first call, with the same hash.
abbrev first_body : Json
first_body = object (
    field (codes "ts") (str (codes "2026-11-25T10:00:00")) (
      field (codes "actor") null (
        field (codes "action") (str (codes "import")) (
          field (codes "entity") null
            (field (codes "before") null (field (codes "after") null end))))))

abbrev dump_value : Json → Text
dump_value (str s) = s
dump_value _ = codes "null"

abbrev dump_fields : Fields → Text
dump_fields end = []
dump_fields (field k v fs) = k ++ (codes ":" ++ (dump_value v ++ (codes "," ++ dump_fields fs)))

abbrev dump : Json → Text
dump (object fs) = codes "{" ++ dump_fields fs
dump v = dump_value v

abbrev body_codec : Codec
body_codec = record {
  dumps = dump;
  loads = λ s.
      if text_eq s (dump first_body)
      then some first_body
      else if text_eq s (codes "null")
      then some null
      else none;
  sha256 = λ s. encode s ∷ [];
}

body_codec_free : (x y : Text) → body_codec.sha256 x ≡ body_codec.sha256 y → x ≡ y
body_codec_free x y e = encode_injective x y (ground arith)

-- The row of the first call, and the same with another number, which is not hashed.
abbrev numbered : ℕ → List Row
numbered n = new_row body_codec genesis n call ∷ []

numbered_verified : (n : ℕ) → verify_audit body_codec (numbered n) ≡ passed 1
unfolding verify_audit new_row text_eq
numbered_verified n = verify_from-new_row body_codec call refl refl refl genesis n 0

numbered-IsReadBack : (n : ℕ) → All (IsReadBack body_codec) (numbered n)
unfolding new_row text_eq
numbered-IsReadBack n = (
  λ actor before after p q s.
      let a : null ≡ actor = some-injective null actor p in
      let b : null ≡ before = some-injective null before q in
      let c : null ≡ after = some-injective null after s in
      subst (λ (x : Json). Back x before after) a
        (subst (λ (x : Json). Back null x after) b (subst (λ (x : Json). Back null null x) c refl)),
  tt,
)
  where
    Back : Json → Json → Json → Type 0
    Back x y z =
        body_codec.loads (body_codec.dumps (body_json (new_row body_codec genesis n call) x y z))
        ≡ some (body_json (new_row body_codec genesis n call) x y z)

verify_audit_binds_example :
    map (contents body_codec) (numbered 1) ≡ map (contents body_codec) (numbered 7)
unfolding last_hash new_row
verify_audit_binds_example =
    verify_audit_binds body_codec body_codec_free (λ x y. refl) (numbered 1) (numbered 7) 1 1
      (numbered-IsReadBack 1) (numbered-IsReadBack 7) refl (numbered_verified 1)
      (numbered_verified 7) refl
