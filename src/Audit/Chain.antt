-- ===== src/Audit/Chain.antt =====
-- What is written verifies.
use minisserver_compose.Prelude.{
  ℕ, suc, ◌≡◌, refl, sym, ap, ◌∙◌, true, &&-true, Option, none, some, List, [], ◌∷◌, ◌++◌, arith,
  codes, All, Text, text_eq_refl, text_eq→eq, map, length, Bool-cases, inl, inr,
}
use mathlib.Core.Option.{some-injective}
use minisserver_compose.Prelude.Json.{Json, end, field, null, str, object}
use minisserver_compose.Audit.{
  row_body, or_null, Codec, Row, Call, genesis, body_of, last_hash, next_seq, new_row, audit,
  Verdict, read_body, is_linked, judge_row, verify_from, verify_audit,
}

abbrev pub passed : ℕ → Option Verdict
passed n = some (record { holds = true; rows = n; bad = none })

module _ (lib : Codec) (c : Call) (actor : lib.loads (lib.dumps c.actor) ≡ some c.actor)
    (before : lib.loads (lib.dumps c.before) ≡ some c.before)
    (after : lib.loads (lib.dumps c.after) ≡ some c.after) where
  new_row-read_body :
      (prev : Text) (seq : ℕ)
      → read_body lib (new_row lib prev seq c)
        ≡ some (body_of lib c.ts c.actor c.action c.entity_id c.before c.after)
  unfolding read_body new_row
  new_row-read_body prev seq = rw (actor, before, after) refl

  pub verify_from-new_row :
      (prev : Text) (seq n : ℕ)
      → verify_from lib prev n (new_row lib prev seq c ∷ []) ≡ passed (suc n)
  unfolding verify_from new_row
  verify_from-new_row prev seq n =
      let body = body_of lib c.ts c.actor c.action c.entity_id c.before c.after in
      ap (λ (o : Option Text). judge_row lib prev n (new_row lib prev seq c) o (passed (suc n)))
        (new_row-read_body prev seq)
      ∙ (rw (text_eq_refl prev, text_eq_refl (lib.sha256 (prev ++ body))) refl)

-- A row that is passed: its columns can be read back, and it is linked to the row before it.
record IsPassed (lib : Codec) (prev : Text) (r : Row) (rest : Option Verdict) (n : ℕ) : Type 0 where
  body : Text
  read_as : read_body lib r ≡ some body
  linked : is_linked lib prev r body ≡ true
  goes_on : rest ≡ passed n

judge_row-IsPassed :
    (lib : Codec) (prev : Text) (n m : ℕ) (r : Row) (rest : Option Verdict) (o : Option Text)
    → read_body lib r ≡ o
    → judge_row lib prev n r o rest ≡ passed m
    → IsPassed lib prev r rest m
judge_row-IsPassed lib prev n m r rest none e h = absurd (cc)
judge_row-IsPassed lib prev n m r rest (some b) e h = elim (Bool-cases (is_linked lib prev r b)) [
  | inl y ↦ record { body = b; read_as = e; linked = y; goes_on = ground (arith, y) }
  | inr f ↦ absurd (ground (arith, f))
]

verify_from-IsPassed :
    (lib : Codec) (prev : Text) (n m : ℕ) (r : Row) (rs : List Row)
    → verify_from lib prev n (r ∷ rs) ≡ passed m
    → IsPassed lib prev r (verify_from lib r.hash (suc n) rs) m
unfolding verify_from
verify_from-IsPassed lib prev n m r rs h =
    judge_row-IsPassed lib prev n m r (verify_from lib r.hash (suc n) rs) (read_body lib r) refl h

judge_row-passed :
    (lib : Codec) (prev : Text) (n m : ℕ) (r : Row) (rest more : Option Verdict)
    → IsPassed lib prev r rest m
    → judge_row lib prev n r (read_body lib r) more ≡ more
judge_row-passed lib prev n m r rest more p =
    ap (λ (o : Option Text). judge_row lib prev n r o more) p.read_as ∙ (rw p.linked refl)

module _ (lib : Codec) (c : Call) (actor : lib.loads (lib.dumps c.actor) ≡ some c.actor)
    (before : lib.loads (lib.dumps c.before) ≡ some c.before)
    (after : lib.loads (lib.dumps c.after) ≡ some c.after) where
  verify_from-snoc :
      (prev : Text) (n m seq : ℕ) (rows : List Row)
      → verify_from lib prev n rows ≡ passed m
      → verify_from lib prev n (rows ++ (new_row lib (last_hash prev rows) seq c ∷ []))
        ≡ passed (suc m)
  unfolding verify_from last_hash
  verify_from-snoc prev n m seq [] h =
      let same : n ≡ m = ground arith in
      verify_from-new_row lib c actor before after prev seq n ∙ ap (λ (k : ℕ). passed (suc k)) same
  verify_from-snoc prev n m seq (r ∷ rs) h =
      let p = verify_from-IsPassed lib prev n m r rs h in
      judge_row-passed lib prev n m r _ _ p ∙ verify_from-snoc r.hash (suc n) m seq rs p.goes_on

  -- A row that `_audit` appends to a table that verifies verifies too, with one row more, if JSON
  -- reads back the values of the row.
  pub verify_audit-audit :
      (rows : List Row) (n : ℕ)
      → verify_audit lib rows ≡ passed n
      → verify_audit lib (audit lib rows c) ≡ passed (suc n)
  unfolding verify_audit audit
  verify_audit-audit rows n h = verify_from-snoc genesis 0 n (next_seq 1 rows) rows h

append-cancel : (a b x y : Text) → length a ≡ length b → a ++ x ≡ b ++ y → (a ≡ b) × (x ≡ y)
append-cancel [] [] x y l e = (refl, e)
append-cancel [] (d ∷ b) x y l e = absurd (omega arith)
append-cancel (c ∷ a) [] x y l e = absurd (omega arith)
append-cancel (c ∷ a) (d ∷ b) x y l e =
    let first : c ≡ d = ground arith in
    let (same, rest) = append-cancel a b x y (omega arith) (ground arith) in
    (cc (first, same), rest)

-- What a row tells: the time, the actor, the action, the entity, and the values before and after.
abbrev pub Contents : Type 0
Contents = Text × Option Json × Text × Option Text × Option Json × Option Json

abbrev pub contents : Codec → Row → Contents
contents lib r =
    (r.ts, lib.loads r.actor, r.action, r.entity_id, lib.loads r.before, lib.loads r.after)

abbrev entity_json : Option Text → Json
entity_json none = null
entity_json (some t) = str t

abbrev pub body_with : Row → Json → Json → Json → Json → Json
body_with r actor before after entity = object (
    field (codes "ts") (str r.ts) (
      field (codes "actor") actor (
        field (codes "action") (str r.action) (
          field (codes "entity") entity
            (field (codes "before") before (field (codes "after") after end))))))

-- The body of a row, as an object.
abbrev pub body_json : Row → Json → Json → Json → Json
body_json r actor before after = body_with r actor before after (entity_json r.entity_id)

-- JSON reads back the body of the row.
abbrev pub IsReadBack : Codec → Row → Type 0
IsReadBack lib r =
    (actor before after : Json)
    → lib.loads r.actor ≡ some actor
    → lib.loads r.before ≡ some before
    → lib.loads r.after ≡ some after
    → lib.loads (lib.dumps (body_json r actor before after)) ≡ some (body_json r actor before after)

entity_json-or_null : (o : Option Text) → entity_json o ≡ or_null o
entity_json-or_null none = refl
entity_json-or_null (some t) = refl

-- The columns of a row whose body is known.
record HasColumns (lib : Codec) (r : Row) (body : Text) : Type 0 where
  actor : Json
  before : Json
  after : Json
  actor_as : lib.loads r.actor ≡ some actor
  before_as : lib.loads r.before ≡ some before
  after_as : lib.loads r.after ≡ some after
  dumped : lib.dumps (body_json r actor before after) ≡ body

read_body-HasColumns :
    (lib : Codec) (r : Row) (body : Text) → read_body lib r ≡ some body → HasColumns lib r body
unfolding read_body body_of
read_body-HasColumns lib r body h =
    go (lib.loads r.actor) (lib.loads r.before) (lib.loads r.after) refl refl refl h
  where
    columns :
        (x y z : Json)
        → lib.loads r.actor ≡ some x
        → lib.loads r.before ≡ some y
        → lib.loads r.after ≡ some z
        → body_of lib r.ts x r.action r.entity_id y z ≡ body
        → HasColumns lib r body
    columns x y z p q s k = record {
      actor = x;
      before = y;
      after = z;
      actor_as = p;
      before_as = q;
      after_as = s;
      dumped =
          ap (λ (j : Json). lib.dumps (body_with r x y z j)) (entity_json-or_null r.entity_id) ∙ k;
    }

    go :
        (a b c : Option Json)
        → lib.loads r.actor ≡ a
        → lib.loads r.before ≡ b
        → lib.loads r.after ≡ c
        → row_body lib r a b c ≡ some body
        → HasColumns lib r body
    go none b c p q s k = absurd (cc (k))
    go (some x) none c p q s k = absurd (cc (k))
    go (some x) (some y) none p q s k = absurd (cc (k))
    go (some x) (some y) (some z) p q s k = columns x y z p q s (some-injective _ _ k)

entity_json-injective : (o p : Option Text) → entity_json o ≡ entity_json p → o ≡ p
entity_json-injective none none e = refl
entity_json-injective none (some t) e = absurd (cc (e))
entity_json-injective (some s) none e = absurd (cc (e))
entity_json-injective (some s) (some t) e = cc (e)

read_body-contents :
    (lib : Codec) (r r2 : Row) (body : Text)
    → IsReadBack lib r
    → IsReadBack lib r2
    → read_body lib r ≡ some body
    → read_body lib r2 ≡ some body
    → contents lib r ≡ contents lib r2
read_body-contents lib r r2 body b b2 h h2 =
    let p = read_body-HasColumns lib r body h in
    let p2 = read_body-HasColumns lib r2 body h2 in
    let back = b p.actor p.before p.after p.actor_as p.before_as p.after_as in
    let back2 = b2 p2.actor p2.before p2.after p2.actor_as p2.before_as p2.after_as in
    let one : body_json r p.actor p.before p.after ≡ body_json r2 p2.actor p2.before p2.after =
      some-injective _ _ (sym back ∙ (ap lib.loads (p.dumped ∙ sym p2.dumped) ∙ back2)) in
    let entity : entity_json r.entity_id ≡ entity_json r2.entity_id = cc (one) in
    let entities = entity_json-injective r.entity_id r2.entity_id entity in
    let actors : p.actor ≡ p2.actor = cc (one) in
    let befores : p.before ≡ p2.before = cc (one) in
    let afters : p.after ≡ p2.after = cc (one) in
    let times : r.ts ≡ r2.ts = cc (one) in
    let actions : r.action ≡ r2.action = cc (one) in
    let actor_cols = p.actor_as ∙ (ap (λ (x : Json). some x) actors ∙ sym p2.actor_as) in
    let before_cols = p.before_as ∙ (ap (λ (x : Json). some x) befores ∙ sym p2.before_as) in
    let after_cols = p.after_as ∙ (ap (λ (x : Json). some x) afters ∙ sym p2.after_as) in
    cc (times, actor_cols, actions, entities, before_cols, after_cols)

module _ (lib : Codec) (collision_free : (x y : Text) → lib.sha256 x ≡ lib.sha256 y → x ≡ y)
    (same_length : (x y : Text) → length (lib.sha256 x) ≡ length (lib.sha256 y)) where
  hash_of :
      (prev : Text) (r : Row) (rest : Option Verdict) (m : ℕ) (p : IsPassed lib prev r rest m)
      → lib.sha256 (prev ++ p.body) ≡ r.hash
  hash_of prev r rest m p = text_eq→eq _ _ (&&-true _ _ p.linked).1

  verify_from-contents :
      (prev prev2 : Text) (n n2 m m2 : ℕ) (rows rows2 : List Row)
      → All (IsReadBack lib) rows
      → All (IsReadBack lib) rows2
      → length prev ≡ length prev2
      → length rows ≡ length rows2
      → verify_from lib prev n rows ≡ passed m
      → verify_from lib prev2 n2 rows2 ≡ passed m2
      → last_hash prev rows ≡ last_hash prev2 rows2
      → (prev ≡ prev2) × (map (contents lib) rows ≡ map (contents lib) rows2)
  unfolding last_hash
  verify_from-contents prev prev2 n n2 m m2 [] [] b b2 l k h h2 e = (e, refl)
  verify_from-contents prev prev2 n n2 m m2 [] (r ∷ rs) b b2 l k h h2 e = absurd (omega arith)
  verify_from-contents prev prev2 n n2 m m2 (r ∷ rs) [] b b2 l k h h2 e = absurd (omega arith)
  verify_from-contents prev prev2 n n2 m m2 (r ∷ rs) (r2 ∷ rs2) b b2 l k h h2 e =
      let p = verify_from-IsPassed lib prev n m r rs h in
      let p2 = verify_from-IsPassed lib prev2 n2 m2 r2 rs2 h2 in
      let a = hash_of prev r _ m p in
      let a2 = hash_of prev2 r2 _ m2 p2 in
      let long : length r.hash ≡ length r2.hash =
        ap (λ (t : Text). length t) (sym a)
        ∙ (same_length (prev ++ p.body) (prev2 ++ p2.body) ∙ ap (λ (t : Text). length t) a2) in
      let (hashes, tails) =
        verify_from-contents r.hash r2.hash (suc n) (suc n2) m m2 rs rs2 b.1 b2.1 long (omega arith)
          p.goes_on p2.goes_on e in
      let whole = collision_free (prev ++ p.body) (prev2 ++ p2.body) (a ∙ (hashes ∙ sym a2)) in
      let (same, bodies) = append-cancel prev prev2 p.body p2.body l whole in
      let heads =
        read_body-contents lib r r2 p.body b.0 b2.0 p.read_as
          (p2.read_as ∙ ap (λ (t : Text). some t) (sym bodies)) in
      (same, cc (heads, tails))

  -- The last hash pins the whole audit: two tables that verify, with as many rows and the same last
  -- hash, have in every row the same time, actor, action, entity, and values before and after, if the
  -- hash has no collisions, all hashes are of one length, and JSON reads back the bodies of the rows.
  pub verify_audit_binds :
      (rows rows2 : List Row) (m m2 : ℕ)
      → All (IsReadBack lib) rows
      → All (IsReadBack lib) rows2
      → length rows ≡ length rows2
      → verify_audit lib rows ≡ passed m
      → verify_audit lib rows2 ≡ passed m2
      → last_hash genesis rows ≡ last_hash genesis rows2
      → map (contents lib) rows ≡ map (contents lib) rows2
  unfolding verify_audit
  verify_audit_binds rows rows2 m m2 b b2 k h h2 e =
      (verify_from-contents genesis genesis 0 0 m m2 rows rows2 b b2 refl k h h2 e).1
