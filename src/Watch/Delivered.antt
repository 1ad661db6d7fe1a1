-- ===== src/Watch/Delivered.antt =====
-- An alert reaches Telegram when the line is up again.
use minisserver_compose.Prelude.{
  ℕ, zero, suc, ◌+◌, ◌≤◌, ◌<◌, ◌≡◌, refl, ap, ◌∙◌, ◌⊎◌, inl, inr, Bool, true, false, ◌||◌, Option,
  none, some, List, [], ◌∷◌, Bool-cases, arith, leb, leb→le, leb→lt, length, Text, lookup, put,
  lookup-put, if-both,
}
use mathlib.Core.Option.{some-injective}
use minisserver_compose.Watch.{
  Line, Message, Item, Alert, Box, Call, send_raw, flush_items, flush, alert, attend, notify,
  is_quiet, opened_at, renewed, marked, counted, is_plain, attempts, one_post, late, is_stale,
  try_item, interval_of, is_due,
}

-- The line is up from some post on.
abbrev pub IsUpFrom : ℕ → Line → Type 0
IsUpFrom n net = (k : ℕ) → n ≤ k → net k ≡ true

send_raw-posts :
    (n : ℕ) (net : Line) (m : Message) (b : Box) → b.posts ≤ (send_raw n net m b).0.posts
unfolding send_raw
send_raw-posts zero net m b = omega arith
send_raw-posts (suc n) net m b = elim (Bool-cases (net b.posts)) [
  | inl y ↦ rw (y, send_raw) (omega arith)
  | inr z ↦ rw (z, send_raw) (omega (arith, send_raw-posts n net m (one_post b)))
]

-- The last post was made in vain.
abbrev LastFailed : Line → ℕ → Box → Type 0
LastFailed net before b = (k : ℕ) × (before ≤ k) × (net k ≡ false) × (b.posts ≡ suc k)

failed_again :
    (n : ℕ) (net : Line) (m : Message) (before : ℕ) (b : Box)
    → LastFailed net before b
    → (send_raw n net m b).1 ≡ false
    → LastFailed net before (send_raw n net m b).0
unfolding send_raw
failed_again zero net m before b last h = last
failed_again (suc n) net m before b (k, le, down, e) h = elim (Bool-cases (net b.posts)) [
  | inl y ↦ absurd (ground (arith, y))
  | inr z ↦
      let again : LastFailed net before (one_post b) = (b.posts, omega (arith, le, e), z, refl) in
      rw (z, send_raw) (failed_again n net m before (one_post b) again (ground (arith, z)))
]

send_raw_fails :
    (n : ℕ) (net : Line) (m : Message) (b : Box)
    → (send_raw (suc n) net m b).1 ≡ false
    → LastFailed net b.posts (send_raw (suc n) net m b).0
unfolding send_raw
send_raw_fails n net m b h = elim (Bool-cases (net b.posts)) [
  | inl y ↦ absurd (ground (arith, y))
  | inr z ↦
      let once : LastFailed net b.posts (one_post b) = (b.posts, omega arith, z, refl) in
      rw (z, send_raw) (failed_again n net m b.posts (one_post b) once (ground (arith, z)))
]

try_item-posts :
    (net : Line) (now : ℕ) (i : Item) (b : Box) → b.posts ≤ (try_item net now i b).0.posts
try_item-posts net now i b =
    if-both (λ (x : Box × Bool). b.posts ≤ x.0.posts) (is_stale now i) (omega arith)
      (send_raw-posts 1 net (late now i) b)

flush_items-posts :
    (net : Line) (now : ℕ) (is : List Item) (b : Box) → b.posts ≤ (flush_items net now is b).0.posts
unfolding flush_items
flush_items-posts net now [] b = omega arith
flush_items-posts net now (i ∷ is) b =
    let tried = (try_item net now i b).0 in
    omega (arith, try_item-posts net now i b, flush_items-posts net now is tried)

flush-posts : (net : Line) (now : ℕ) (b : Box) → b.posts ≤ (flush net now b).posts
unfolding flush
flush-posts net now b = flush_items-posts net now b.outbox b

-- The state of the outage after a call: it is delivered, or the call has posted in vain.
data Progress (net : Line) (before : ℕ) : Box × Alert → Type 0 where
  told : {b : Box} {st : Alert} → st.delivered ≡ true → Progress net before (b, st)
  vain : {b : Box} {st : Alert} → LastFailed net before b → Progress net before (b, st)

marked-Progress :
    (net : Line) (before : ℕ) (c : Call) (st : Alert) (x : Box × Bool)
    → (x.1 ≡ false → LastFailed net before x.0)
    → Progress net before (x.0, marked c st x.1)
marked-Progress net before c st (b, true) h = told refl
marked-Progress net before c st (b, false) h = vain (h refl)

notify-Progress :
    (net : Line) (interval : ℕ) (c : Call) (st : Alert) (b : Box)
    → Progress net b.posts (notify net interval c st b)
notify-Progress net interval c st b = elim (Bool-cases (is_plain c st || is_due interval c st)) [
  | inl y ↦ rw y (
      marked-Progress net b.posts c (counted c st) (send_raw attempts net _ b)
        (send_raw_fails 2 net _ b))
  | inr n ↦ rw n (told (ground (arith, n)))
]

attend-Progress :
    (net : Line) (remind : ℕ) (c : Call) (st : Alert) (b : Box)
    → Progress net b.posts (attend net remind c st b)
attend-Progress net remind c st b =
    if-both (Progress net b.posts) (is_quiet c) (told refl)
      (notify-Progress net (interval_of remind c.tier c.options) c st b)

-- An outage that is delivered stays so.
marked-delivered :
    (c : Call) (st : Alert) (o : Bool) → st.delivered ≡ true → (marked c st o).delivered ≡ true
marked-delivered c st true h = refl
marked-delivered c st false h = h

attend-delivered :
    (net : Line) (remind : ℕ) (c : Call) (st : Alert) (b : Box)
    → st.delivered ≡ true
    → (attend net remind c st b).1.delivered ≡ true
attend-delivered net remind c st b h =
    let interval = interval_of remind c.tier c.options in
    let numbered : (counted c st).delivered ≡ true =
      if-both (λ (x : Alert). x.delivered ≡ true) (is_plain c st) h h in
    if-both (λ (x : Box × Alert). x.1.delivered ≡ true) (is_quiet c) refl
      (if-both (λ (x : Box × Alert). x.1.delivered ≡ true) (is_plain c st || is_due interval c st)
        (marked-delivered c (counted c st) _ numbered) h)

-- The outage of this file is delivered.
abbrev pub IsTold : Text → Box → Type 0
IsTold file b = (st : Alert) × (lookup file b.alerts ≡ some st) × (st.delivered ≡ true)

send_raw-alerts :
    (n : ℕ) (net : Line) (m : Message) (b : Box) → (send_raw n net m b).0.alerts ≡ b.alerts
unfolding send_raw
send_raw-alerts zero net m b = refl
send_raw-alerts (suc n) net m b = elim (Bool-cases (net b.posts)) [
  | inl y ↦ rw (y, send_raw) refl
  | inr z ↦ rw (z, send_raw) (send_raw-alerts n net m (one_post b))
]

flush_items-alerts :
    (net : Line) (now : ℕ) (is : List Item) (b : Box)
    → (flush_items net now is b).0.alerts ≡ b.alerts
unfolding flush_items
flush_items-alerts net now [] b = refl
flush_items-alerts net now (i ∷ is) b =
    flush_items-alerts net now is (try_item net now i b).0
    ∙ if-both (λ (x : Box × Bool). x.0.alerts ≡ b.alerts) (is_stale now i) refl
        (send_raw-alerts 1 net (late now i) b)

pub flush-alerts : (net : Line) (now : ℕ) (b : Box) → (flush net now b).alerts ≡ b.alerts
unfolding flush
flush-alerts net now b = flush_items-alerts net now b.outbox b

alert_keeps :
    (net : Line) (remind : ℕ) (file : Text) (c : Call) (b : Box)
    → IsTold file b
    → IsTold file (alert net remind file c b)
unfolding alert
alert_keeps net remind file c b (st, found, h) =
    let flushed = flush net c.now b in
    let same : lookup file flushed.alerts ≡ some st =
      ap (lookup file) (flush-alerts net c.now b) ∙ found in
    (_, lookup-put file _ _, go (lookup file flushed.alerts) same)
  where
    go :
        (o : Option Alert)
        → o ≡ some st
        → (attend net remind c (renewed c (opened_at c o)) (flush net c.now b)).1.delivered ≡ true
    go none e = absurd (cc)
    go (some s) e =
        attend-delivered net remind c (renewed c s) (flush net c.now b)
          (ap (λ (x : Alert). x.delivered) (some-injective s st e) ∙ h)

alert_tries :
    (net : Line) (remind : ℕ) (file : Text) (c : Call) (b : Box)
    → IsTold file (alert net remind file c b) ⊎ LastFailed net b.posts (alert net remind file c b)
unfolding alert
alert_tries net remind file c b =
    let flushed = flush net c.now b in
    let st = renewed c (opened_at c (lookup file flushed.alerts)) in
    go (attend net remind c st flushed) (attend-Progress net remind c st flushed)
  where
    put_back : Box × Alert → Box
    put_back (tried, st) = record tried { alerts = put file st tried.alerts }

    go :
        (x : Box × Alert)
        → Progress net (flush net c.now b).posts x
        → IsTold file (put_back x) ⊎ LastFailed net b.posts (put_back x)
    go (tried, st) (told h) = inl (st, lookup-put file st tried.alerts, h)
    go (tried, st) (vain (k, le, down, e)) =
        inr (k, omega (arith, le, flush-posts net c.now b), down, e)

-- The calls of one watchdog that finds the fault each time.
unfoldable pub alert_all : Line → ℕ → Text → List Call → Box → Box
unfolding alert
alert_all net remind file [] b = b
alert_all net remind file (c ∷ cs) b = alert_all net remind file cs (alert net remind file c b)

IsTold-stays :
    (net : Line) (remind : ℕ) (file : Text) (cs : List Call) (b : Box)
    → IsTold file b
    → IsTold file (alert_all net remind file cs b)
unfolding alert_all
IsTold-stays net remind file [] b h = h
IsTold-stays net remind file (c ∷ cs) b h =
    IsTold-stays net remind file cs (alert net remind file c b) (alert_keeps net remind file c b h)

IsTold-in_time :
    (net : Line) (remind : ℕ) (file : Text) (n : ℕ)
    → IsUpFrom n net
    → (cs : List Call) (b : Box) → n < length cs + b.posts
    → (b.posts ≤ n) ⊎ (1 ≤ length cs)
    → IsTold file (alert_all net remind file cs b)
unfolding alert_all
IsTold-in_time net remind file n up [] b enough some_left =
    absurd (ground (arith, enough, some_left))
IsTold-in_time net remind file n up (c ∷ cs) b enough some_left =
    elim (alert_tries net remind file c b) [
      | inl h ↦ IsTold-stays net remind file cs (alert net remind file c b) h
      | inr (k, le, down, e) ↦ elim (Bool-cases (leb n k)) [
        | inl late_enough ↦ absurd (cc (up k (leb→le n k late_enough), down))
        | inr early ↦
            let low : k < n = leb→lt n k early in
            IsTold-in_time net remind file n up cs (alert net remind file c b)
              (omega (arith, enough, le, e)) (inl (omega (arith, low, e)))
      ]
    ]

-- Raised more than `n` times, the outage is delivered after the last call.
pub IsTold-at_last :
    (net : Line) (remind : ℕ) (file : Text) (n : ℕ)
    → IsUpFrom n net
    → (cs : List Call) (b : Box) → n < length cs
    → IsTold file (alert_all net remind file cs b)
IsTold-at_last net remind file n up cs b enough =
    IsTold-in_time net remind file n up cs b (omega (arith, enough)) (inr (omega (arith, enough)))
