-- ===== src/Watch/Examples.antt =====
-- The theorems on alerts at concrete inputs.
use minisserver_compose.Prelude.{
  ℕ, ◌⊎◌, ◌≡◌, ◌≢◌, refl, sym, subst, inr, here, there, false, none, some, lookup, List, [], ◌∷◌,
  leb, le→leb, arith, codes, In,
}
use minisserver_compose.Watch.{
  Line, plain, delayed, dur, Alert, Box, Call, tier_a, tier_c, flush, send,
}
use minisserver_compose.Watch.Delivered.{IsTold, IsUpFrom, alert_all}
use minisserver_compose.Watch.Told.{IsNoisy, IsSent, alert_all-IsTold}
use minisserver_compose.Watch.Kept.{queued, send_flush}

-- The first two posts fail.
abbrev line : Line
line k = leb 2 k

abbrev empty_box : Box
empty_box = record { outbox = []; alerts = []; sent = []; posts = 0 }

abbrev call_at : ℕ → Call
call_at now = record {
  now = now;
  text = codes "disk full";
  force = false;
  tier = tier_a;
  options = record { repeat = none; recovers = none; quiet = none };
}

abbrev calls : List Call
calls = call_at 100 ∷ call_at 400 ∷ call_at 700 ∷ []

line-IsUpFrom : IsUpFrom 2 line
line-IsUpFrom k le = le→leb 2 k le

tier_a-ne : tier_a ≢ tier_c
tier_a-ne e = absurd (cc (e))

same_quiet : (c : Call) {now : ℕ} → c ≡ call_at now → IsNoisy c
same_quiet c {now} e = subst IsNoisy (sym e) (inr (refl, tier_a-ne))

calls-IsNoisy : (c : Call) → In c calls → IsNoisy c
calls-IsNoisy c (here e) = same_quiet c e
calls-IsNoisy c (there (here e)) = same_quiet c e
calls-IsNoisy c (there (there (here e))) = same_quiet c e
calls-IsNoisy c (there (there (there i))) = elim i [ ]

nothing_open :
    (st : Alert) → lookup (codes "disk") empty_box.alerts ≡ some st → st.delivered ≡ false
unfolding lookup
nothing_open st e = absurd (cc (e))

alert_all-IsTold_example :
    IsTold (codes "disk") (alert_all line 21600 (codes "disk") calls empty_box)
    × IsSent calls (alert_all line 21600 (codes "disk") calls empty_box)
alert_all-IsTold_example =
    alert_all-IsTold line 21600 (codes "disk") 2 line-IsUpFrom calls empty_box (omega arith)
      calls-IsNoisy nothing_open

abbrev down : Line
down k = false

abbrev sent_box : Box
sent_box = (send down 1000 (codes "hello") empty_box).0

send_flush_example :
    In (plain (codes "hello")) (flush line 5000 sent_box).sent
    ⊎ (In (delayed (dur 4000) (plain (codes "hello"))) (flush line 5000 sent_box).sent
        ⊎ In (queued 1000 (codes "hello")) (flush line 5000 sent_box).outbox)
send_flush_example = send_flush down line 1000 5000 (codes "hello") empty_box (omega arith)
