-- ===== src/Policy/Clients/Settled.antt =====
-- A second run of `ensure_client` of adguard/childpolicy.py changes nothing.
use minisserver_compose.Prelude.{
  ◌≡◌, refl, ap, ◌∙◌, inl, inr, Bool, true, ◌&&◌, Option, none, some, List, [], ◌∷◌, map,
  if◌then◌else◌, Bool-cases, Text, text_eq, text_eq_refl, text_leb, sort, lookup,
}
use minisserver_compose.Policy.Clients.{
  Client, Server, updated, desired_client, same_texts, lowered_ids, client_matches, named,
  ensure_named, ensure_client,
}

-- A client as AdGuard keeps it: the addresses in lower case.
abbrev pub stored : (Text → Text) → Client → Client
stored lower c = record c { ids = map lower c.ids }

same_texts_refl : (ss : List Text) → same_texts ss ss ≡ true
unfolding same_texts
same_texts_refl [] = refl
same_texts_refl (s ∷ ss) = rw (text_eq_refl s) (same_texts_refl ss)

map_twice :
    (f : Text → Text)
    → ((s : Text) → f (f s) ≡ f s)
    → (ss : List Text) → map f (map f ss) ≡ map f ss
map_twice f h [] = refl
map_twice f h (s ∷ ss) = let rest = map_twice f h ss in cc (h s, rest)

stored-matches :
    (lower : Text → Text)
    → ((s : Text) → lower (lower s) ≡ lower s)
    → (ip name mac : Text)
    → client_matches lower (stored lower (desired_client ip name mac)) (desired_client ip name mac)
      ≡ true
unfolding client_matches desired_client lookup text_eq same_texts
stored-matches lower twice ip name mac =
    let want = desired_client ip name mac in
    let same = map_twice lower twice want.ids in
    ap (λ (ids : List Text). same_texts (sort text_leb ids) (lowered_ids lower want) && true) same
    ∙ ap (λ (b : Bool). b && true) (same_texts_refl (lowered_ids lower want))

-- A second run settles: AdGuard, which keeps what it is sent, with the addresses in lower case, under
-- the name it was sent for, is left alone by the run after one that added or updated the client, and
-- by the run after one that found it right.
pub ensure_client_again :
    (lower : Text → Text) (server : Server)
    → ((s : Text) → lower (lower s) ≡ lower s)
    → ((c : Client) (cs : List Client)
        → named c.name cs ≡ none
        → named c.name (server.add c cs) ≡ some (stored lower c))
    → ((c d : Client) (cs : List Client)
        → named c.name cs ≡ some d
        → named c.name (server.update c cs) ≡ some (stored lower c))
    → (ip name mac : Text) (cs : List Client)
    → ensure_client lower server ip name mac (ensure_client lower server ip name mac cs).0
      ≡ ((ensure_client lower server ip name mac cs).0, none)
unfolding ensure_client desired_client
ensure_client_again lower server twice adds updates ip name mac cs = go (named name cs) refl
  where
    want : Client
    want = desired_client ip name mac

    settled :
        (ds : List Client)
        → named name ds ≡ some (stored lower want)
        → ensure_named lower server want ds (named name ds) ≡ (ds, none)
    settled ds found =
        ap (ensure_named lower server want ds) found
        ∙ ap (λ (b : Bool). if b then (ds, none) else (server.update want ds, some updated))
            (stored-matches lower twice ip name mac)

    go :
        (o : Option Client)
        → named name cs ≡ o
        → ensure_named lower server want
            (ensure_named lower server want cs o).0
            (named name (ensure_named lower server want cs o).0)
          ≡ ((ensure_named lower server want cs o).0, none)
    go none e = settled (server.add want cs) (adds want cs e)
    go (some c) e = elim (Bool-cases (client_matches lower c want)) [
      | inl y ↦ rw y (
          ap (ensure_named lower server want cs) e
          ∙ ap (λ (b : Bool). if b then (cs, none) else (server.update want cs, some updated)) y)
      | inr n ↦ rw n (settled (server.update want cs) (updates want c cs e))
    ]
