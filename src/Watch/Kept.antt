-- ===== src/Watch/Kept.antt =====
-- No message is lost: what cannot be delivered waits in the outbox.
use minisserver_compose.Prelude.{
  ℕ, zero, suc, ◌+◌, ◌-◌, ◌*◌, ◌≤◌, ◌≡◌, refl, sym, ap, ◌∙◌, subst, ◌⊎◌, inl, inr, Bool, true,
  false, List, [], ◌∷◌, Bool-cases, if◌then◌else◌, arith, Text, In, here, there, In-append_left,
  In_last, if-both,
}
use minisserver_compose.Watch.{
  Line, Message, plain, Item, Box, send_raw, flush_items, flush, try_item, keep_unless, late,
  is_stale, one_post, send, attempts, queue_unless, delayed, dur,
}

-- A message that Telegram took stays so.
pub send_raw-In :
    (n : ℕ) (net : Line) (m k : Message) (b : Box) → In k b.sent → In k (send_raw n net m b).0.sent
unfolding send_raw
send_raw-In zero net m k b i = i
send_raw-In (suc n) net m k b i = elim (Bool-cases (net b.posts)) [
  | inl y ↦ rw (y, send_raw) (In-append_left b.sent (m ∷ []) i)
  | inr z ↦ rw (z, send_raw) (send_raw-In n net m k (one_post b) i)
]

-- An attempt that succeeds has delivered its message.
pub send_raw_delivers :
    (n : ℕ) (net : Line) (m : Message) (b : Box)
    → (send_raw n net m b).1 ≡ true
    → In m (send_raw n net m b).0.sent
unfolding send_raw
send_raw_delivers zero net m b h = absurd (cc)
send_raw_delivers (suc n) net m b h = elim (Bool-cases (net b.posts)) [
  | inl y ↦ rw (y, send_raw) (In_last b.sent)
  | inr z ↦ rw (z, send_raw) (send_raw_delivers n net m (one_post b) (ground (arith, z)))
]

try_item-In :
    (net : Line) (now : ℕ) (i : Item) (k : Message) (b : Box)
    → In k b.sent
    → In k (try_item net now i b).0.sent
try_item-In net now i k b h =
    if-both (λ (x : Box × Bool). In k x.0.sent) (is_stale now i) h
      (send_raw-In 1 net (late now i) k b h)

pub flush_items-In :
    (net : Line) (now : ℕ) (is : List Item) (k : Message) (b : Box)
    → In k b.sent
    → In k (flush_items net now is b).0.sent
unfolding flush_items
flush_items-In net now [] k b h = h
flush_items-In net now (i ∷ is) k b h =
    flush_items-In net now is k (try_item net now i b).0 (try_item-In net now i k b h)

In-keep_unless :
    (o : Bool) (i j : Item) (kept : List Item) → In i kept → In i (keep_unless o j kept)
In-keep_unless true i j kept h = h
In-keep_unless false i j kept h = there h

In_kept : (o : Bool) (i : Item) (kept : List Item) → o ≡ false → In i (keep_unless o i kept)
In_kept true i kept h = absurd (cc)
In_kept false i kept h = here refl

flush_items_keeps :
    (net : Line) (now : ℕ) (is : List Item) (b : Box) (i : Item)
    → In i is
    → is_stale now i ≡ false
    → In (late now i) (flush_items net now is b).0.sent ⊎ In i (flush_items net now is b).1
unfolding flush_items
flush_items_keeps net now [] b i h fresh = elim h [ ]
flush_items_keeps net now (j ∷ is) b i (there h) fresh =
    elim (flush_items_keeps net now is (try_item net now j b).0 i h fresh) [
      | inl s ↦ inl s
      | inr w ↦ inr (In-keep_unless (try_item net now j b).1 i j _ w)
    ]
flush_items_keeps net now (j ∷ is) b i (here e) fresh =
    let shape : is_stale now j ≡ false = ap (is_stale now) (sym e) ∙ fresh in
    let tried = send_raw 1 net (late now j) b in
    let same : try_item net now j b ≡ tried =
      ap (λ (o : Bool). if o then (b, true) else tried) shape in
    elim (Bool-cases (tried.1)) [
      | inl y ↦
          let told =
            subst (λ (z : Item). In (late now z) tried.0.sent) (sym e)
              (send_raw_delivers 1 net (late now j) b y) in
          inl (
            flush_items-In net now is (late now i) (try_item net now j b).0
              (subst (λ (x : Box × Bool). In (late now i) x.0.sent) (sym same) told))
      | inr n ↦
          let rest = (flush_items net now is (try_item net now j b).0).1 in
          let waits =
            In_kept (try_item net now j b).1 j rest (ap (λ (x : Box × Bool). x.1) same ∙ n) in
          inr
            (subst (λ (z : Item). In z (keep_unless (try_item net now j b).1 j rest)) (sym e) waits)
    ]

flush_keeps :
    (net : Line) (now : ℕ) (b : Box) (i : Item)
    → In i b.outbox
    → is_stale now i ≡ false
    → In (late now i) (flush net now b).sent ⊎ In i (flush net now b).outbox
unfolding flush
flush_keeps net now b i h fresh = flush_items_keeps net now b.outbox b i h fresh

flush-In :
    (net : Line) (now : ℕ) (k : Message) (b : Box) → In k b.sent → In k (flush net now b).sent
unfolding flush
flush-In net now k b h = flush_items-In net now b.outbox k b h

abbrev pub queued : ℕ → Text → Item
queued now text = record { at = now; message = plain text }

send_keeps :
    (net : Line) (now : ℕ) (text : Text) (b : Box)
    → In (plain text) (send net now text b).0.sent
      ⊎ In (queued now text) (send net now text b).0.outbox
unfolding send
send_keeps net now text b =
    go (send_raw attempts net (plain text) (flush net now b))
      (send_raw_delivers attempts net (plain text) (flush net now b))
  where
    go :
        (x : Box × Bool)
        → (x.1 ≡ true → In (plain text) x.0.sent)
        → In (plain text) (queue_unless x.1 now (plain text) x.0).sent
          ⊎ In (queued now text) (queue_unless x.1 now (plain text) x.0).outbox
    go (tried, true) h = inl (h refl)
    go (tried, false) h = inr (In_last tried.outbox)

-- A one-off message is not lost: after `send` and a later `flush` within 48 hours, whatever Telegram
-- answered to their posts, it took the message itself, or the message with its delay, or the message
-- waits in the outbox.
pub send_flush :
    (net line : Line) (now later : ℕ) (text : Text) (b : Box)
    → later ≤ now + 48 * 3600
    → In (plain text) (flush line later (send net now text b).0).sent
      ⊎ (In
            (delayed (dur (later - now)) (plain text))
            (flush line later (send net now text b).0).sent
          ⊎ In (queued now text) (flush line later (send net now text b).0).outbox)
send_flush net line now later text b le = elim (send_keeps net now text b) [
  | inl took ↦ inl (flush-In line later (plain text) (send net now text b).0 took)
  | inr waits ↦
      inr (flush_keeps line later (send net now text b).0 (queued now text) waits (ground arith))
]
