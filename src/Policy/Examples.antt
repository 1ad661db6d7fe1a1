-- ===== src/Policy/Examples.antt =====
-- The theorems on the children's policy at concrete inputs.
use minisserver_compose.Prelude.{
  ◌≡◌, All, text_eq→ne, refl, List, [], ◌∷◌, map, Text, codes, here, ap, ◌∙◌, not, none, some, ◌++◌,
  keep_if, text_eq, text_eq_refl,
}
use minisserver_compose.Policy.{Files, Clock, Override, print, render_block, merge_rules}
use minisserver_compose.Policy.Clients.{Client, Server, named, ensure_client}
use minisserver_compose.Policy.Clients.Settled.{stored, ensure_client_again}
use minisserver_compose.Policy.Rendered.{IsGuarding, render_block-IsGuarding}
use minisserver_compose.Policy.Merged.{IsOther, merge_rules_again}

abbrev lists : Files
lists = record {
  always = codes "time.android.com" ∷ [];
  weekdays = codes "mapy.cz" ∷ [];
  extra_allow = codes "games.example.org" ∷ [];
  extra_deny = codes "example.org" ∷ [];
  catalogue = record { id = codes "youtube"; rules = codes "||youtube.com^" ∷ [] } ∷ [];
}

abbrev monday : Clock
monday = record { weekday = 0; hour = 17 }

abbrev sunday : Clock
sunday = record { weekday = 6; hour = 17 }

abbrev tablet : Text
tablet = codes "192.168.31.40"

abbrev opened : List Override
opened = record { client = codes "192.168.31.41"; target = codes "all" } ∷ []

abbrev clients : List Text
clients = tablet ∷ codes "192.168.31.41" ∷ []

render_block-IsGuarding_example :
    IsGuarding lists opened tablet (render_block lists monday opened clients)
render_block-IsGuarding_example =
    render_block-IsGuarding lists monday opened clients tablet (here refl)

abbrev by_hand : List Text
by_hand = codes "||ads.example^" ∷ []

abbrev put_behind : List Text
put_behind = codes "||tracker.example^" ∷ []

by_hand-IsOther : All IsOther by_hand
unfolding text_eq
by_hand-IsOther = ((text_eq→ne _ _ refl, text_eq→ne _ _ refl), tt)

put_behind-IsOther : All IsOther put_behind
unfolding text_eq
put_behind-IsOther = ((text_eq→ne _ _ refl, text_eq→ne _ _ refl), tt)

merge_rules_again_example :
    (merge_rules by_hand (map print (render_block lists monday opened clients))
      ≡ by_hand ++ map print (render_block lists monday opened clients))
    × (merge_rules
          (by_hand ++ (map print (render_block lists monday opened clients) ++ put_behind))
          (map print (render_block lists sunday [] clients))
        ≡ (by_hand ++ put_behind) ++ map print (render_block lists sunday [] clients))
merge_rules_again_example =
    merge_rules_again by_hand put_behind lists lists monday sunday opened [] clients clients
      by_hand-IsOther put_behind-IsOther

abbrev same_text : Text → Text
same_text s = s

-- A server that keeps a client as the last of its name.
abbrev server : Server
server = record {
  add = λ c cs. cs ++ (c ∷ []);
  update = λ c cs. keep_if (λ (d : Client). not (text_eq c.name d.name)) cs ++ (c ∷ []);
}

last_named : (c : Client) (cs : List Client) → named c.name (cs ++ (c ∷ [])) ≡ some c
unfolding named
last_named c [] = rw (text_eq_refl c.name) refl
last_named c (d ∷ cs) = rw (last_named c cs) refl

map_same : (ss : List Text) → ss ≡ map same_text ss
map_same [] = refl
map_same (s ∷ ss) = ap (λ (ts : List Text). s ∷ ts) (map_same ss)

same_client : (c : Client) → c ≡ stored same_text c
same_client c = ap (λ (ids : List Text). record c { ids = ids }) (map_same c.ids)

ensure_client_again_example :
    ensure_client same_text server tablet
      (codes "tablet")
      []
      (ensure_client same_text server tablet (codes "tablet") [] []).0
    ≡ ((ensure_client same_text server tablet (codes "tablet") [] []).0, none)
ensure_client_again_example =
    ensure_client_again same_text server (λ s. refl)
      (λ c cs _. last_named c cs ∙ ap some (same_client c))
      (λ c _ cs _.
        last_named c (keep_if (λ (d : Client). not (text_eq c.name d.name)) cs)
        ∙ ap some (same_client c))
      tablet (codes "tablet") [] []
