-- ===== src/Policy.antt =====
-- The children's DNS policy: adguard/childpolicy.py, which renders AdGuard's rules, with
-- adguard/childsnapshot.py and the baseline of portal/schedules/sched/child_invariants.py.
pub mod Rendered
pub mod Clients
pub mod Merged
pub mod Examples
use minisserver_compose.Prelude.{
  ℕ, zero, suc, ◌+◌, ◌-◌, ◌≡◌, refl, Bool, true, false, not, ◌&&◌, ◌||◌, Option, none, some, List,
  [], ◌∷◌, ◌++◌, ltb, leb, ◌==◌, if◌then◌else◌, any, all, map, keep_if, length, take, drop, Text,
  codes, text_eq, text_leb, member, each_once, starts_with, ends_with, sort,
}

-- `line.split("#", 1)[0]`
abbrev before_hash : Text → Text
before_hash [] = []
before_hash (c ∷ s) = let rest = before_hash s in if c == 35 then [] else c ∷ rest

abbrev is_empty : Text → Bool
is_empty [] = true
is_empty (c ∷ s) = false

-- `read_list` of a file's lines; `strip` is `str.strip`.
unfoldable pub read_list : (Text → Text) → List Text → List Text
read_list strip [] = []
read_list strip (l ∷ ls) =
    let entry = strip (before_hash l) in
    let rest = read_list strip ls in if is_empty entry then rest else entry ∷ rest

-- `is_under` of childpolicy.py, with one parent, and with several.
unfoldable pub is_under : Text → Text → Bool
unfolding text_eq ends_with
is_under domain parent = text_eq domain parent || ends_with domain (46 ∷ parent)

unfoldable pub is_under_any : Text → List Text → Bool
unfolding is_under
is_under_any domain parents = any (is_under domain) parents

-- A service of AdGuard's catalogue.
pub record Service : Type 0 where
  pub id : Text
  pub rules : List Text

-- `r[2:-1]`
abbrev inner : Text → Text
inner r = take (length r - 3) (drop 2 r)

abbrev is_domain_rule : Text → Bool
is_domain_rule r = starts_with r (codes "||") && ends_with r (codes "^")

-- `service_domains`
unfoldable pub service_domains : List Service → List Text → List Text
unfolding text_eq starts_with ends_with
service_domains [] ids = []
service_domains (s ∷ ss) ids =
    (if member s.id ids then map inner (keep_if is_domain_rule s.rules) else [])
    ++ service_domains ss ids

-- The local time of a run: the weekday from Monday, which is 0, and the hour.
pub record Clock : Type 0 where
  pub weekday : ℕ
  pub hour : ℕ

abbrev pub is_sunday : Clock → Bool
is_sunday now = now.weekday == 6

-- `schedule_state`: Sunday, and whether the window of 16 to 19 is open.
unfoldable pub schedule_state : Clock → Bool × Bool
schedule_state now = (is_sunday now, not (is_sunday now) && (leb 16 now.hour && ltb now.hour 19))

-- An active override of a client, by its address.
pub record Override : Type 0 where
  pub client : Text
  pub target : Text

-- The lists that a run reads.
pub record Files : Type 0 where
  pub always : List Text
  pub weekdays : List Text
  pub extra_allow : List Text
  pub extra_deny : List Text
  pub catalogue : List Service

-- A rule of the block, for a client's address.
pub data Line : Type 0 where
  begins ends : Line
  catch_all : Text → Line
  denies : Text → Text → Line
  allows : Text → Text → Line

abbrev for_client : Text → Text
for_client ip = codes "^$client=" ++ ip

abbrev pub begin_mark : Text
begin_mark =
    codes "! BEGIN child-policy (managed by apply-child-policy.py - do not edit between markers)"

abbrev pub end_mark : Text
end_mark = codes "! END child-policy"

unfoldable pub print : Line → Text
print begins = begin_mark
print ends = end_mark
print (catch_all ip) = codes "||*" ++ for_client ip
print (denies d ip) = codes "||" ++ (d ++ for_client ip)
print (allows d ip) = codes "@@||" ++ (d ++ for_client ip)

abbrev pub targets_of : Text → List Override → List Text
targets_of ip os =
    map (λ (o : Override). o.target) (keep_if (λ (o : Override). text_eq o.client ip) os)

-- `set(...)`, sorted.
abbrev pub sorted_set : List Text → List Text
sorted_set ts = sort text_leb (each_once ts)

abbrev pub denied : Files → List Text
denied f = sorted_set f.extra_deny

-- What a gated service opens: in the window, or by an override.
abbrev gate : Files → Bool → List Text → Text → List Text
gate f in_window targets t =
    if in_window || member t targets then service_domains f.catalogue (t ∷ []) else []

-- `allowed`, before the denied domains are taken away.
unfoldable pub allowed : Files → Clock → List Text → List Text
unfolding service_domains schedule_state text_eq
allowed f now targets =
    let (sunday, in_window) = schedule_state now in
    f.always
    ++ (service_domains f.catalogue (codes "telegram" ∷ [])
        ++ (f.extra_allow
            ++ ((if not sunday || member (codes "maps") targets then f.weekdays else [])
                ++ (gate f in_window targets (codes "youtube")
                    ++ gate f in_window targets (codes "roblox")))))

abbrev pub deny_lines : Files → Text → List Line
deny_lines f ip = map (λ (d : Text). denies d ip) (denied f)

abbrev pub allow_lines : Files → Clock → Text → List Text → List Line
allow_lines f now ip targets =
    map (λ (d : Text). allows d ip)
      (sorted_set (keep_if (λ (d : Text). not (is_under_any d (denied f))) (allowed f now targets)))

-- The lines of a client: an override of everything lifts the catch-all, never the denied domains.
unfoldable pub client_lines : Files → Clock → List Override → Text → List Line
unfolding text_eq text_leb sort allowed is_under_any
client_lines f now os ip =
    let targets = targets_of ip os in
    if member (codes "all") targets
    then deny_lines f ip
    else catch_all ip ∷ (deny_lines f ip ++ allow_lines f now ip targets)

unfoldable pub all_lines : Files → Clock → List Override → List Text → List Line
unfolding client_lines
all_lines f now os [] = []
all_lines f now os (ip ∷ ips) = client_lines f now os ip ++ all_lines f now os ips

-- `render_block`, for the addresses of the clients.
unfoldable pub render_block : Files → Clock → List Override → List Text → List Line
unfolding all_lines
render_block f now os ips = begins ∷ (all_lines f now os ips ++ (ends ∷ []))

-- What stands outside the markers.
unfoldable pub outside : Bool → List Text → List Text
unfolding text_eq
outside skipping [] = []
outside skipping (r ∷ rs) =
    let skipped = outside true rs in
    let kept = outside false rs in
    if text_eq r begin_mark
    then skipped
    else if text_eq r end_mark
    then kept
    else if skipping
    then skipped
    else r ∷ kept

-- `merge_rules`
unfoldable pub merge_rules : List Text → List Text → List Text
unfolding outside
merge_rules existing block = outside false existing ++ block

-- `TELEGRAM_CORE`, behind the always-on hosts.
abbrev required_always : List Text
required_always =
    codes "connectivitycheck.gstatic.com"
    ∷ codes "connectivitycheck.android.com"
    ∷ codes "time.android.com"
    ∷ codes "mtalk.google.com"
    ∷ codes "fcm.googleapis.com"
    ∷ codes "firebaseinstallations.googleapis.com"
    ∷ codes "android.apis.google.com"
    ∷ codes "accuweather.com"
    ∷ codes "awxcdn.com"
    ∷ codes "www.googleapis.com"
    ∷ codes "android.googleapis.com"
    ∷ codes "play.googleapis.com"
    ∷ codes "play-fe.googleapis.com"
    ∷ codes "deviceintegritytokens-pa.googleapis.com"
    ∷ codes "kidsmanagement-pa.googleapis.com"
    ∷ codes "www.google.com"
    ∷ []

abbrev telegram_core : List Text
telegram_core =
    codes "telegram.org"
    ∷ codes "t.me"
    ∷ codes "telegram.me"
    ∷ codes "telesco.pe"
    ∷ codes "cdn-telegram.org"
    ∷ codes "telegram.dog"
    ∷ codes "tdesktop.com"
    ∷ []

-- `deny_breaks_baseline`, whether it finds a host: the set has no order.
unfoldable pub deny_breaks_baseline : Text → Bool
unfolding is_under
deny_breaks_baseline domain =
    any (λ (h : Text). is_under h domain || is_under domain h) (required_always ++ telegram_core)

-- What the job reads of a device of the snapshot.
pub record TimedException : Type 0 where
  pub target : Text
  pub expires_ts : ℕ

pub record Device : Type 0 where
  pub id : Text
  pub ip : Text
  pub deny_extra : List Text
  pub exceptions : List TimedException

-- `policy_from`: each device's denied domains that leave the baseline alone, and the others.
unfoldable pub policy_from : List Device → List Device × List (Text × Text)
unfolding deny_breaks_baseline
policy_from [] = ([], [])
policy_from (d ∷ ds) =
    let (kept, ignored) = policy_from ds in
    (
      record d { deny_extra = keep_if (λ (x : Text). not (deny_breaks_baseline x)) d.deny_extra }
          ∷ kept,
      map (λ (x : Text). (d.id, x)) (keep_if deny_breaks_baseline d.deny_extra) ++ ignored,
    )

-- `active_overrides` of a snapshot.
unfoldable pub active_overrides : List Device → ℕ → List Override
active_overrides [] now = []
active_overrides (d ∷ ds) now =
    map (λ (x : TimedException). record { client = d.ip; target = x.target })
      (keep_if (λ (x : TimedException). ltb now x.expires_ts) d.exceptions)
    ++ active_overrides ds now

-- `mode`: anything unexpected means the old path.
pub data Mode : Type 0 where
  files snapshot : Mode

abbrev mode_of : List Text → Mode
mode_of [] = files
mode_of (l ∷ ls) = if text_eq l (codes "snapshot") then snapshot else files

unfoldable pub mode : (Text → Text) → Option (List Text) → Mode
unfolding read_list text_eq
mode strip none = files
mode strip (some ls) = mode_of (read_list strip ls)

-- `_record_result`: the count of failures in a row, and what is reported.
pub data Report : Type 0 where
  nothing clears alerts : Report

unfoldable pub record_result : Bool → ℕ → ℕ × Report
record_result true n = (0, if leb 5 n then clears else nothing)
record_result false n = (suc n, if leb 5 (suc n) then alerts else nothing)

-- `shadow_record`: how often the two sources were compared, and differed.
pub record Shadow : Type 0 where
  pub checked : ℕ
  pub mismatches : ℕ
  pub last_mismatch : Option ℕ

unfoldable pub shadow_record : Bool → ℕ → Shadow → Shadow
shadow_record true now st = record st { checked = suc st.checked }
shadow_record false now st = record st {
  checked = suc st.checked;
  mismatches = suc st.mismatches;
  last_mismatch = some now;
}
