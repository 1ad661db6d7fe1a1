-- ===== src/Watch/Told.antt =====
-- An outage that is marked as delivered was told: Telegram took its message.
use minisserver_compose.Prelude.{
  ℕ, suc, ◌-◌, not, subst, if◌then◌else◌, ◌<◌, ◌≡◌, ◌≢◌, refl, ap, sym, ◌∙◌, ◌⊎◌, inl, inr, Bool,
  true, false, ◌||◌, Option, none, some, List, [], ◌∷◌, Bool-cases, length, Text, lookup,
  lookup-put, In, here, there, if-both,
}
use mathlib.Core.Option.{some-injective}
use minisserver_compose.Watch.{
  Line, Message, plain, reminder, dur, Alert, Box, Call, tier_a, tier_b, tier_c, Tier, send_raw,
  flush, alert, attend, notify, is_quiet, is_tier_c, given, opened_at, renewed, marked, counted,
  message_of, is_plain, attempts, interval_of, is_due,
}
use minisserver_compose.Watch.Kept.{send_raw-In, send_raw_delivers, flush_items-In}
use minisserver_compose.Watch.Delivered.{IsUpFrom, IsTold, alert_all, flush-alerts, IsTold-at_last}

-- A call whose messages are not held back.
abbrev pub IsNoisy : Call → Type 0
IsNoisy c = (c.options.quiet ≡ some false) ⊎ ((c.options.quiet ≡ none) × (c.tier ≢ tier_c))

is_tier_c-ne : (t : Tier) → t ≢ tier_c → is_tier_c t ≡ false
is_tier_c-ne tier_a h = refl
is_tier_c-ne tier_b h = refl
is_tier_c-ne tier_c h = absurd (h refl)

is_quiet-noisy : (c : Call) → IsNoisy c → is_quiet c ≡ false
is_quiet-noisy c (inl e) = ap (λ (o : Option Bool). given o (is_tier_c c.tier)) e
is_quiet-noisy c (inr (e, ne)) =
    ap (λ (o : Option Bool). given o (is_tier_c c.tier)) e ∙ is_tier_c-ne c.tier ne

attend-In :
    (net : Line) (remind : ℕ) (c : Call) (st : Alert) (m : Message) (b : Box)
    → In m b.sent
    → In m (attend net remind c st b).0.sent
attend-In net remind c st m b i =
    if-both (λ (x : Box × Alert). In m x.0.sent) (is_quiet c) i
      (if-both (λ (x : Box × Alert). In m x.0.sent) (is_plain c st || is_due _ c st)
        (send_raw-In attempts net (message_of c (counted c st)) m b i) i)

-- A call that finds the outage undelivered sends its own text.
attend_new :
    (net : Line) (remind : ℕ) (c : Call) (st : Alert) (b : Box)
    → IsNoisy c
    → st.delivered ≡ false
    → attend net remind c st b ≡ (
      (send_raw attempts net (plain c.text) b).0,
      marked c st (send_raw attempts net (plain c.text) b).1,
    )
attend_new net remind c st b noisy new =
    let interval = interval_of remind c.tier c.options in
    let after : Message → Alert → Box × Alert =
      λ m a. ((send_raw attempts net m b).0, marked c a (send_raw attempts net m b).1) in
    let first : is_plain c st ≡ true = ap (λ (d : Bool). not d || c.force) new in
    let same : counted c st ≡ st =
      ap (λ (p : Bool). if p then st else record st { reminders = suc st.reminders }) first in
    let text : message_of c st ≡ plain c.text =
      ap
        (λ (p : Bool).
          if p
          then plain c.text
          else reminder st.reminders st.since (dur (c.now - st.since)) c.text)
        first in
    ap (λ (q : Bool). if q then (b, record st { delivered = true }) else notify net interval c st b)
      (is_quiet-noisy c noisy)
    ∙ (ap
          (λ (p : Bool).
            if p || is_due interval c st
            then after (message_of c (counted c st)) (counted c st)
            else (b, st))
          first
        ∙ (ap (λ (a : Alert). after (message_of c a) a) same
            ∙ ap (λ (m : Message). after m st) text))

-- An outage that this call marks as delivered, it has told.
attend_tells :
    (net : Line) (remind : ℕ) (c : Call) (st : Alert) (b : Box)
    → IsNoisy c
    → st.delivered ≡ false
    → (attend net remind c st b).1.delivered ≡ true
    → In (plain c.text) (attend net remind c st b).0.sent
attend_tells net remind c st b noisy new h =
    let e = attend_new net remind c st b noisy new in
    let done = sym (ap (λ (x : Box × Alert). x.1.delivered) e) ∙ h in
    subst (λ (x : Box × Alert). In (plain c.text) x.0.sent) (sym e)
      (go (send_raw attempts net (plain c.text) b) (send_raw_delivers attempts net (plain c.text) b)
        done)
  where
    go :
        (x : Box × Bool)
        → (x.1 ≡ true → In (plain c.text) x.0.sent)
        → (marked c st x.1).delivered ≡ true
        → In (plain c.text) x.0.sent
    go (d, true) sent k = sent refl
    go (d, false) sent k = absurd (cc (k, new))

-- Of some of these calls Telegram took the message.
abbrev pub IsSent : List Call → Box → Type 0
IsSent cs b = (c : Call) × In c cs × In (plain c.text) b.sent

-- What is marked as delivered was told.
abbrev IsHonest : Text → List Call → Box → Type 0
IsHonest file cs b =
    (st : Alert) → lookup file b.alerts ≡ some st → st.delivered ≡ true → IsSent cs b

flush-IsSent :
    (net : Line) (now : ℕ) (cs : List Call) (b : Box) → IsSent cs b → IsSent cs (flush net now b)
unfolding flush
flush-IsSent net now cs b (c, i, j) = (c, i, flush_items-In net now b.outbox (plain c.text) b j)

attend-IsSent :
    (net : Line) (remind : ℕ) (cs : List Call) (c : Call) (o : Option Alert) (b : Box)
    → In c cs
    → IsNoisy c
    → ((st : Alert) → o ≡ some st → st.delivered ≡ true → IsSent cs b)
    → (attend net remind c (renewed c (opened_at c o)) b).1.delivered ≡ true
    → IsSent cs (attend net remind c (renewed c (opened_at c o)) b).0
attend-IsSent net remind cs c none b i noisy before h =
    (c, i, attend_tells net remind c (renewed c (opened_at c none)) b noisy refl h)
attend-IsSent net remind cs c (some st) b i noisy before h = elim (Bool-cases st.delivered) [
  | inl y ↦
      let (d, j, k) = before st refl y in
      (d, j, attend-In net remind c (renewed c st) (plain d.text) b k)
  | inr n ↦ (c, i, attend_tells net remind c (renewed c st) b noisy n h)
]

alert-IsHonest :
    (net : Line) (remind : ℕ) (file : Text) (cs : List Call) (c : Call) (b : Box)
    → In c cs
    → IsNoisy c
    → IsHonest file cs b
    → IsHonest file cs (alert net remind file c b)
unfolding alert
alert-IsHonest net remind file cs c b i noisy honest st found told =
    let flushed = flush net c.now b in
    let o = lookup file flushed.alerts in
    let x = attend net remind c (renewed c (opened_at c o)) flushed in
    let same : x.1 ≡ st = some-injective x.1 st (sym (lookup-put file x.1 x.0.alerts) ∙ found) in
    attend-IsSent net remind cs c o flushed i noisy
      (λ s e h.
        flush-IsSent net c.now cs b
          (honest s (sym (ap (lookup file) (flush-alerts net c.now b)) ∙ e) h))
      (ap (λ (a : Alert). a.delivered) same ∙ told)

alert_all-IsHonest :
    (net : Line) (remind : ℕ) (file : Text) (all_calls cs : List Call) (b : Box)
    → ((c : Call) → In c cs → In c all_calls × IsNoisy c)
    → IsHonest file all_calls b
    → IsHonest file all_calls (alert_all net remind file cs b)
unfolding alert_all
alert_all-IsHonest net remind file all_calls [] b h honest = honest
alert_all-IsHonest net remind file all_calls (c ∷ cs) b h honest =
    let (i, noisy) = h c (here refl) in
    alert_all-IsHonest net remind file all_calls cs (alert net remind file c b)
      (λ d j. h d (there j)) (alert-IsHonest net remind file all_calls c b i noisy honest)

-- An alert is not lost to an outage of the line: where Telegram answers from the `n`-th post on,
-- whatever the outbox holds, an outage that is not marked as delivered yet and is raised more than `n`
-- times by calls that are not quiet is marked as delivered after the last call, and Telegram has taken
-- the message of one of these calls.
pub alert_all-IsTold :
    (net : Line) (remind : ℕ) (file : Text) (n : ℕ)
    → IsUpFrom n net
    → (cs : List Call) (b : Box) → n < length cs
    → ((c : Call) → In c cs → IsNoisy c)
    → ((st : Alert) → lookup file b.alerts ≡ some st → st.delivered ≡ false)
    → IsTold file (alert_all net remind file cs b) × IsSent cs (alert_all net remind file cs b)
alert_all-IsTold net remind file n up cs b enough noisy new =
    let (st, found, told) = IsTold-at_last net remind file n up cs b enough in
    let honest =
      alert_all-IsHonest net remind file cs cs b (λ c i. (i, noisy c i))
        (λ s e h. absurd (cc (new s e, h))) in
    ((st, found, told), honest st found told)
