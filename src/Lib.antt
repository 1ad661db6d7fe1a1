-- ===== src/Lib.antt =====
-- The server's own services, from the repository's root: the schedule service of portal/schedules,
-- which keeps the times at which plugs, vacuum and children's devices may run, the gateway of
-- portal/gateway, through which people sign in, the fetch relay of relay, which fetches an
-- allow-listed set of pages for one caller through the house's address, the job of adguard that
-- renders the children's DNS rules, and the alerts of _system/lib.
--
-- Schedules models portal/schedules/sched/model.py. A request's JSON is `Prelude.Json`; guardrails
-- (`validate_guardrails`) and flags are read by Schedules/Limits, rules (`validate_rules`) by
-- Schedules/Rules and Schedules/RuleLoop, one check after the other as the loop makes them, then
-- across rules: Schedules/Weekly has the overlap and the gap of windows in the week, Schedules/Daily
-- the triggers and the open minutes of a day, and Schedules/Validate composes them. What raises in
-- Python is an error of `Schedules.Types.Result`. Schedules/Edges has what Home Assistant fires on a
-- day (`day_edges`) and the state that the reconcile script computes (`target_state`); Schedules/Runs
-- has the edges between two moments, the next one, skipped dates and timed runs (`validate_run`), and
-- Schedules/Child the children's exceptions, windows and status. Times of a day are minutes, read by
-- Schedules/Time (`parse_hhmm`); a moment is a local wall clock time in milliseconds, as Python adds
-- to datetimes of one zone, and a calendar gives the weekday and the text of a day.
--
-- Audit models the audit of portal/schedules/sched/store.py (`_audit`, `verify_audit`): the SQLite
-- table is the list of its rows, in the order of their numbers.
--
-- People models portal/gateway/gw/people.py with portal/gateway/gw/auth.py: the tables of
-- portal/gateway/gw/db.py are lists of rows (`Prelude.Rows` has the queries), a method takes them and
-- gives them back with what it returned or raised, and what it drew at random is an argument.
-- People/Admins has the people and the last admin, People/Setup the setup links, People/Login the
-- throttle, the one check of credentials and both sign-ins, People/Enrol the enrolment codes,
-- People/Phones the tokens and their revocation, People/Sessions the web sessions, People/Totp and
-- People/Passwords what auth.py computes, and People/Requests puts all methods that write one after
-- the other, in any order. A clock is in milliseconds and is read once by a call.
--
-- Watch models _system/lib/watchnotify.py: the outbox, the state of each outage, and the posts, each
-- answered by a line that is an argument; Watch/Delivered has the outages that are marked as
-- delivered, Watch/Told what was taken for them, Watch/Kept the outbox. A message is kept as what it tells, not as its text.
--
-- Policy models adguard/childpolicy.py, adguard/childsnapshot.py and the baseline of
-- portal/schedules/sched/child_invariants.py: the lines of AdGuard's block, printed and merged,
-- and Policy/Clients the settings of a child's client.
--
-- Relay models relay/relay.py. A request (`Handler.do_GET`, Relay/Handler) passes the kill switch and
-- the daily count (Relay/Store), the signature (Relay/Auth), then the fetch (Relay/Fetch): at each
-- hop the URL rules (Relay/Url), the breaker (Relay/Store), the token bucket of the host (Relay/Gate,
-- its limits from Relay/Limits), and the hop itself (Relay/Hop): the resolved addresses, the body
-- and its limits. The state is passed on explicitly: the state file, the gates, and what
-- authentication remembers. Clocks are milliseconds and tokens millionths, so that every step is
-- exact; requests that share state are taken one after the other, in the order in which they take
-- the lock. The clock readings, the network's answers and the rounds of a wait are arguments, and a
-- theorem holds for all of them. A fetch recurses on the redirects that are left, three at first; a
-- body's reads are a finite sequence because the deadline ends it; nothing else needs fuel.
--
-- Parameters stand for code that is not in the repository: `Relay.Url.Library` and
-- `Relay.Hop.Address` for Python's URL and address functions, `Relay.Auth.Crypto` for `int` and the
-- keyed digest, `read_number` for `float`, `Audit.Codec` for JSON and SHA-256, `People.Lib` for
-- digests, base64 and the methods of texts, `Schedules.Runs.Calendar` for dates, `Policy.Clients.Server`
-- for AdGuard's two requests on clients, and `strip` and
-- `isalnum`. Digests of signatures and of the audit have no collisions, and those of the audit are of
-- one length; JSON and base64 read back what they wrote. No theorem on people supposes anything of
-- the digest of a token.
--
-- The allow-list is read once for a request in the model, while the code reads its file at each call,
-- so a change of the file within a fetch is not covered. The steps of a call that the code takes under
-- one lock or in one transaction after another are one step here: calls that run together are not
-- covered either.
--
-- Not modelled: texts of messages and logs, sockets and TLS, time zones and their changes, the
-- uniqueness errors of SQLite, `People.list`, a phone's model and app version, the rest of the
-- schedule store, its API and its applier, the gateway's API and its other state machines, the
-- verification of the snapshots of adguard, and the watches of _system.
pub mod Prelude
pub mod Schedules
pub mod Relay
pub mod Audit
pub mod People
pub mod Watch
pub mod Policy
