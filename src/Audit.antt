-- ===== src/Audit.antt =====
-- The audit of portal/schedules/sched/store.py: a table whose rows are chained by their hashes.
pub mod Chain
mod Examples
use minisserver_compose.Prelude.{
  ℕ, zero, suc, ◌+◌, ◌≡◌, Bool, true, false, not, ◌&&◌, ◌||◌, Option, none, some, List, [], ◌∷◌,
  ◌++◌, max, if◌then◌else◌, Text, codes, text_eq,
}
use minisserver_compose.Prelude.Json.{Json, Fields, end, field, null, str, object}

-- `json.dumps` with sorted keys, `json.loads`, `none` where it raises, and the SHA-256 of a text
-- in hexadecimal digits.
pub record Codec : Type 0 where
  pub dumps : Json → Text
  pub loads : Text → Option Json
  pub sha256 : Text → Text

pub record Row : Type 0 where
  pub seq : ℕ
  pub ts : Text
  pub actor : Text
  pub action : Text
  pub entity_id : Option Text
  pub before : Text
  pub after : Text
  pub prev_hash : Text
  pub hash : Text

-- What `_audit` is called with, and the clock's answer.
pub record Call : Type 0 where
  pub ts : Text
  pub actor : Json
  pub action : Text
  pub entity_id : Option Text
  pub before : Json
  pub after : Json

unfoldable pub zeros : ℕ → Text
zeros zero = []
zeros (suc n) = b'0' ∷ zeros n

-- `GENESIS`
unfoldable pub genesis : Text
unfolding zeros
genesis = zeros 64

abbrev pub or_null : Option Text → Json
or_null none = null
or_null (some t) = str t

-- What is hashed of a row.
unfoldable pub body_of : Codec → Text → Json → Text → Option Text → Json → Json → Text
body_of lib ts actor action entity before after = lib.dumps (
    object (
      field (codes "ts") (str ts) (
        field (codes "actor") actor (
          field (codes "action") (str action) (
            field (codes "entity") (or_null entity)
              (field (codes "before") before (field (codes "after") after end)))))))

-- The hash and the number of the last row.
unfoldable pub last_hash : Text → List Row → Text
last_hash prev [] = prev
last_hash prev (r ∷ rs) = last_hash r.hash rs

unfoldable pub next_seq : ℕ → List Row → ℕ
next_seq n [] = n
next_seq n (r ∷ rs) = next_seq (suc r.seq) rs

unfoldable pub new_row : Codec → Text → ℕ → Call → Row
unfolding body_of
new_row lib prev seq c = record {
  seq = seq;
  ts = c.ts;
  actor = lib.dumps c.actor;
  action = c.action;
  entity_id = c.entity_id;
  before = lib.dumps c.before;
  after = lib.dumps c.after;
  prev_hash = prev;
  hash = lib.sha256 (prev ++ body_of lib c.ts c.actor c.action c.entity_id c.before c.after);
}

-- `_audit`: the table is only ever appended to.
unfoldable pub audit : Codec → List Row → Call → List Row
unfolding new_row last_hash next_seq genesis
audit lib rows c = rows ++ (new_row lib (last_hash genesis rows) (next_seq 1 rows) c ∷ [])

-- What `verify_audit` returns: whether the chain holds, the rows that it has passed, and the number
-- of the first bad one.
pub record Verdict : Type 0 where
  pub holds : Bool
  pub rows : ℕ
  pub bad : Option ℕ

abbrev pub row_body : Codec → Row → Option Json → Option Json → Option Json → Option Text
row_body lib r (some actor) (some before) (some after) =
    some (body_of lib r.ts actor r.action r.entity_id before after)
row_body lib r _ _ _ = none

-- The body of a row as it is read back, `none` where a column is no JSON.
unfoldable pub read_body : Codec → Row → Option Text
unfolding body_of
read_body lib r = row_body lib r (lib.loads r.actor) (lib.loads r.before) (lib.loads r.after)

abbrev pub is_linked : Codec → Text → Row → Text → Bool
is_linked lib prev r body = text_eq r.prev_hash prev && text_eq (lib.sha256 (prev ++ body)) r.hash

abbrev pub judge_row : Codec → Text → ℕ → Row → Option Text → Option Verdict → Option Verdict
judge_row lib prev n r none rest = none
judge_row lib prev n r (some body) rest =
    if is_linked lib prev r body
    then rest
    else some (record { holds = false; rows = n; bad = some r.seq })

unfoldable pub verify_from : Codec → Text → ℕ → List Row → Option Verdict
unfolding read_body
verify_from lib prev n [] = some (record { holds = true; rows = n; bad = none })
verify_from lib prev n (r ∷ rs) =
    judge_row lib prev n r (read_body lib r) (verify_from lib r.hash (suc n) rs)

unfoldable pub verify_audit : Codec → List Row → Option Verdict
unfolding verify_from genesis
verify_audit lib rows = verify_from lib genesis 0 rows
