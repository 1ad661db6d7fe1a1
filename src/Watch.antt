-- ===== src/Watch.antt =====
-- The alerts that the watchdogs send: _system/lib/watchnotify.py. A clock is in seconds. Whether
-- Telegram takes a message is not known beforehand: a line gives the answer to each post, by the
-- number of posts made before it. The text around a message is not modelled.
pub mod Delivered
pub mod Told
pub mod Kept
pub mod Examples
use minisserver_compose.Prelude.{
  ℕ, zero, suc, ◌+◌, ◌-◌, ◌*◌, ◌/◌, ◌%◌, ◌≡◌, refl, Bool, true, false, not, ◌&&◌, ◌||◌, Option,
  none, some, List, [], ◌∷◌, ◌++◌, map, ltb, leb, ◌==◌, if◌then◌else◌, Text, codes, text_eq,
  text_leb, Table, lookup, put, sort,
}

-- `_dur`: the hours and the minutes that it prints.
abbrev pub dur : ℕ → ℕ × ℕ
dur secs = (secs / 3600, (secs % 3600) / 60)

-- What is sent: a text, a reminder with its number, the time since when and for how long, a
-- recovery with the duration and the number of reminders, and a queued message with its age.
pub data Message : Type 0 where
  plain : Text → Message
  reminder : ℕ → ℕ → ℕ × ℕ → Text → Message
  recovery : Text → ℕ × ℕ → ℕ → Message
  delayed : ℕ × ℕ → Message → Message

-- A line of the outbox.
pub record Item : Type 0 where
  pub at : ℕ
  pub message : Message

pub data Tier : Type 0 where
  tier_a tier_b tier_c : Tier

-- The state of an outage.
pub record Alert : Type 0 where
  pub since : ℕ
  pub last_sent : ℕ
  pub delivered : Bool
  pub reminders : ℕ
  pub text : Text
  pub tier : Tier
  pub recovers : Bool
  pub quiet : Bool

-- The state directory, the messages that Telegram took, and the number of posts.
pub record Box : Type 0 where
  pub outbox : List Item
  pub alerts : Table Alert
  pub sent : List Message
  pub posts : ℕ

abbrev pub Line : Type 0
Line = ℕ → Bool

abbrev pub one_post : Box → Box
one_post b = record b { posts = suc b.posts }

abbrev pub take_message : Message → Box → Box
take_message m b = record b { sent = b.sent ++ (m ∷ []); posts = suc b.posts }

-- `_send_raw` with a number of attempts.
unfoldable pub send_raw : ℕ → Line → Message → Box → Box × Bool
send_raw zero net m b = (b, false)
send_raw (suc n) net m b = elim (net b.posts) [
  | true ↦ (take_message m b, true)
  | false ↦ send_raw n net m (one_post b)
]

abbrev pub attempts : ℕ
attempts = 3

-- `_queue`
abbrev pub queue : ℕ → Message → Box → Box
queue now m b = record b { outbox = b.outbox ++ (record { at = now; message = m } ∷ []) }

-- `OUTBOX_MAX_AGE`
abbrev pub outbox_max_age : ℕ
outbox_max_age = 48 * 3600

abbrev pub is_stale : ℕ → Item → Bool
is_stale now i = ltb (i.at + outbox_max_age) now

abbrev pub late : ℕ → Item → Message
late now i = delayed (dur (now - i.at)) i.message

-- A line of the outbox: dropped when it is too old, and kept when it cannot be delivered.
abbrev pub keep_unless : Bool → Item → List Item → List Item
keep_unless true i kept = kept
keep_unless false i kept = i ∷ kept

abbrev pub try_item : Line → ℕ → Item → Box → Box × Bool
try_item net now i b = if is_stale now i then (b, true) else send_raw 1 net (late now i) b

unfoldable pub flush_items : Line → ℕ → List Item → Box → Box × List Item
unfolding send_raw
flush_items net now [] b = (b, [])
flush_items net now (i ∷ is) b =
    let (tried, gone) = try_item net now i b in
    let (ended, kept) = flush_items net now is tried in (ended, keep_unless gone i kept)

-- `flush`
unfoldable pub flush : Line → ℕ → Box → Box
unfolding flush_items
flush net now b =
    let (ended, kept) = flush_items net now b.outbox b in record ended { outbox = kept }

-- `send`
abbrev pub queue_unless : Bool → ℕ → Message → Box → Box
queue_unless true now m b = b
queue_unless false now m b = queue now m b

unfoldable pub send : Line → ℕ → Text → Box → Box × Bool
unfolding flush send_raw
send net now text b =
    let (tried, okay) = send_raw attempts net (plain text) (flush net now b) in
    (queue_unless okay now (plain text) tried, okay)

-- `TIERS`, with the overrides of a call.
pub record Options : Type 0 where
  pub repeat : Option ℕ
  pub recovers : Option Bool
  pub quiet : Option Bool

abbrev pub given {ℓ} : {A : Type ℓ} → Option A → A → A
given none a = a
given (some b) a = b

abbrev pub is_tier_a : Tier → Bool
is_tier_a tier_a = true
is_tier_a tier_b = false
is_tier_a tier_c = false

abbrev pub is_tier_c : Tier → Bool
is_tier_c tier_c = true
is_tier_c tier_a = false
is_tier_c tier_b = false

-- The interval between two reminders, `REMIND` where the tier has none of its own.
abbrev pub interval_of : ℕ → Tier → Options → ℕ
interval_of remind tier o = given o.repeat (if is_tier_a tier then remind else 0)

-- A call of `alert`.
pub record Call : Type 0 where
  pub now : ℕ
  pub text : Text
  pub force : Bool
  pub tier : Tier
  pub options : Options

abbrev pub is_quiet : Call → Bool
is_quiet c = given c.options.quiet (is_tier_c c.tier)

abbrev pub opened_at : Call → Option Alert → Alert
opened_at c (some st) = st
opened_at c none = record {
  since = c.now;
  last_sent = 0;
  delivered = false;
  reminders = 0;
  text = c.text;
  tier = c.tier;
  recovers = false;
  quiet = false;
}

-- The state with the text and the options of this call.
abbrev pub renewed : Call → Alert → Alert
renewed c st = record st {
  text = c.text;
  tier = c.tier;
  recovers = given c.options.recovers (is_tier_a c.tier);
  quiet = is_quiet c;
}

abbrev pub is_due : ℕ → Call → Alert → Bool
is_due interval c st = st.delivered && (ltb 0 interval && leb (st.last_sent + interval) c.now)

abbrev pub is_plain : Call → Alert → Bool
is_plain c st = not st.delivered || c.force

abbrev pub counted : Call → Alert → Alert
counted c st = if is_plain c st then st else record st { reminders = suc st.reminders }

abbrev pub message_of : Call → Alert → Message
message_of c st =
    if is_plain c st
    then plain c.text
    else reminder st.reminders st.since (dur (c.now - st.since)) c.text

-- The state after the attempt: an outage is delivered only when Telegram took the message.
abbrev pub marked : Call → Alert → Bool → Alert
marked c st true = record st { last_sent = c.now; delivered = true }
marked c st false = record st { last_sent = if st.delivered then st.last_sent else 0 }

-- The attempt, where one is due.
abbrev pub notify : Line → ℕ → Call → Alert → Box → Box × Alert
notify net interval c st b =
    let numbered = counted c st in
    let (tried, okay) = send_raw attempts net (message_of c numbered) b in
    if is_plain c st || is_due interval c st then (tried, marked c numbered okay) else (b, st)

abbrev pub attend : Line → ℕ → Call → Alert → Box → Box × Alert
attend net remind c st b =
    if is_quiet c
    then (b, record st { delivered = true })
    else notify net (interval_of remind c.tier c.options) c st b

-- The file of a key: `isalnum` is a function of Python's library.
unfoldable pub file_of : (ℕ → Bool) → Text → Text
file_of is_alnum key =
    map (λ (c : ℕ). if is_alnum c || ((c == 45) || ((c == 95) || (c == 46))) then c else 95) key

-- `alert`, for the file of its key.
unfoldable pub alert : Line → ℕ → Text → Call → Box → Box
unfolding flush send_raw lookup put
alert net remind file c b =
    let flushed = flush net c.now b in
    let (tried, st) =
      attend net remind c (renewed c (opened_at c (lookup file flushed.alerts))) flushed in
    record tried { alerts = put file st tried.alerts }

-- `os.remove`
unfoldable pub remove {ℓ} : {A : Type ℓ} → Text → Table A → Table A
unfolding text_eq
remove file [] = []
remove file ((k, a) ∷ es) =
    let rest = remove file es in if text_eq file k then rest else (k, a) ∷ rest

abbrev pub close_alert : Line → ℕ → Text → Text → Option Alert → Box → Box × Bool
close_alert net now file text none b = (b, false)
close_alert net now file text (some st) b =
    let m = recovery text (dur (now - st.since)) st.reminders in
    let (tried, okay) = send_raw attempts net m b in
    let told = queue_unless okay now m tried in
    if st.quiet || not st.recovers
    then (record b { alerts = remove file b.alerts }, true)
    else (record told { alerts = remove file told.alerts }, true)

-- `clear`
unfoldable pub clear : Line → ℕ → Text → Text → Box → Box × Bool
unfolding flush send_raw lookup remove
clear net now file text b =
    let flushed = flush net now b in
    close_alert net now file text (lookup file flushed.alerts) flushed

abbrev name_leb : Text × Alert → Text × Alert → Bool
name_leb x y = text_leb x.0 y.0

-- `active` and `active_detail`: the open alerts, in the order of their names.
unfoldable pub active : Box → List (Text × ℕ × Bool)
unfolding sort text_leb
active b = map (λ (e : Text × Alert). (e.0, e.1.since, e.1.delivered)) (sort name_leb b.alerts)

unfoldable pub active_detail : Box → List (Text × Alert)
unfolding sort text_leb
active_detail b = sort name_leb b.alerts
