-- ===== src/Policy/Clients.antt =====
-- The clients of AdGuard that adguard/childpolicy.py keeps: `desired_client`, `client_matches` and
-- `ensure_client`.
pub mod Settled
use minisserver_compose.Prelude.{
  ◌≡◌, Bool, true, false, ◌&&◌, Option, none, some, List, [], ◌∷◌, ◌++◌, all, map, if◌then◌else◌,
  Text, codes, text_eq, text_leb, sort, Table, lookup,
}

-- What the job reads and writes of a client; AdGuard lists every flag of one.
pub record Client : Type 0 where
  pub name : Text
  pub ids : List Text
  pub tags : List Text
  pub upstreams : List Text
  pub use_global_settings : Bool
  pub filtering_enabled : Bool
  pub parental_enabled : Bool
  pub use_global_blocked_services : Bool
  pub blocked_services : List Text
  pub safe_search : Table Bool

abbrev if_any : Text → List Text
if_any [] = []
if_any (c ∷ s) = (c ∷ s) ∷ []

-- The engines that are forced, and those that are not.
abbrev engines : Table Bool
engines =
    (codes "enabled", true)
    ∷ (codes "bing", true)
    ∷ (codes "duckduckgo", true)
    ∷ (codes "ecosia", false)
    ∷ (codes "google", true)
    ∷ (codes "pixabay", false)
    ∷ (codes "yandex", false)
    ∷ (codes "youtube", true)
    ∷ []

-- `desired_client`
unfoldable pub desired_client : Text → Text → Text → Client
desired_client ip name mac = record {
  name = name;
  ids = (ip ∷ []) ++ if_any mac;
  tags = [];
  upstreams = [];
  use_global_settings = false;
  filtering_enabled = true;
  parental_enabled = false;
  use_global_blocked_services = false;
  blocked_services = [];
  safe_search = engines;
}

abbrev pub same_flag : Bool → Bool → Bool
same_flag true b = b
same_flag false true = false
same_flag false false = true

unfoldable pub same_texts : List Text → List Text → Bool
unfolding text_eq
same_texts [] [] = true
same_texts [] (t ∷ ts) = false
same_texts (s ∷ ss) [] = false
same_texts (s ∷ ss) (t ∷ ts) = text_eq s t && same_texts ss ts

-- `ss.get(k) == v`
abbrev pub has_engine : Table Bool → Text × Bool → Bool
has_engine found (k, v) = elim (lookup k found) [ none ↦ false | some b ↦ same_flag b v ]

abbrev pub lowered_ids : (Text → Text) → Client → List Text
lowered_ids lower c = sort text_leb (map lower c.ids)

-- `client_matches`; `lower` is `str.lower`.
unfoldable pub client_matches : (Text → Text) → Client → Client → Bool
unfolding same_texts sort text_leb lookup text_eq
client_matches lower existing want =
    same_flag existing.use_global_settings want.use_global_settings
    && (same_flag existing.filtering_enabled want.filtering_enabled
        && (same_flag existing.parental_enabled want.parental_enabled
            && (same_flag existing.use_global_blocked_services want.use_global_blocked_services
                && (same_texts existing.blocked_services want.blocked_services
                    && (same_texts (lowered_ids lower existing) (lowered_ids lower want)
                        && all (has_engine existing.safe_search) want.safe_search)))))

-- `{c["name"]: c ...}[name]`: of two clients with one name, the last.
unfoldable pub named : Text → List Client → Option Client
unfolding text_eq
named name [] = none
named name (c ∷ cs) = elim (named name cs) [
  | some d ↦ some d
  | none ↦ if text_eq name c.name then some c else none
]

-- The two requests that AdGuard answers by changing its clients.
pub record Server : Type 0 where
  pub add : Client → List Client → List Client
  pub update : Client → List Client → List Client

pub data Change : Type 0 where
  added updated : Change

abbrev pub ensure_named :
    (Text → Text) → Server → Client → List Client → Option Client → List Client × Option Change
ensure_named lower server want cs none = (server.add want cs, some added)
ensure_named lower server want cs (some c) =
    if client_matches lower c want then (cs, none) else (server.update want cs, some updated)

-- `ensure_client`
unfoldable pub ensure_client :
    (Text → Text) → Server → Text → Text → Text → List Client → List Client × Option Change
unfolding desired_client client_matches named
ensure_client lower server ip name mac cs =
    ensure_named lower server (desired_client ip name mac) cs (named name cs)
