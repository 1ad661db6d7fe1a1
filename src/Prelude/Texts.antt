-- ===== src/Prelude/Texts.antt =====
-- Python's `str` as the list of its code points, with the comparisons and the searches that the
-- program makes of it.
use Prim.Native.Nat.{ℕ}
use Prim.Native.Char.{code}
use Prim.Native.String.{String}
use mathlib.Core.Path.{◌≡◌, refl, ap, sym, ◌∙◌}
use mathlib.Core.Logic.{◌↔◌, ◌≢◌, inl, inr}
use mathlib.Core.Bool.{Bool, true, false, ◌&&◌, ◌||◌}
use mathlib.Core.List.{List, [], ◌∷◌, ◌++◌, reverse, reverse-reverse, reverse-append}
use native.Mathlib.Omega.{arith}
use minisserver_compose.Prelude.Tests.{ltb, ◌==◌, if◌then◌else◌, Bool-cases}
use minisserver_compose.Prelude.Lists.{In, here, there}

abbrev pub Text : Type 0
Text = List ℕ

-- A literal.
abbrev pub codes : String → Text
codes String.[] = []
codes (String.◌∷◌ c s) = code c ∷ codes s

unfoldable pub text_eq : Text → Text → Bool
text_eq [] [] = true
text_eq [] (d ∷ t) = false
text_eq (c ∷ s) [] = false
text_eq (c ∷ s) (d ∷ t) = (c == d) && text_eq s t

pub text_eq_refl : (s : Text) → text_eq s s ≡ true
unfolding text_eq
text_eq_refl [] = refl
text_eq_refl (c ∷ s) = ground (arith, text_eq_refl s)

pub text_eq→eq : (s t : Text) → text_eq s t ≡ true → s ≡ t
unfolding text_eq
text_eq→eq [] [] h = refl
text_eq→eq [] (d ∷ t) h = cc
text_eq→eq (c ∷ s) [] h = cc
text_eq→eq (c ∷ s) (d ∷ t) h = ground (arith, text_eq→eq s t)

-- Lexicographic by code point, as Python compares texts.
unfoldable pub text_leb : Text → Text → Bool
text_leb [] t = true
text_leb (c ∷ s) [] = false
text_leb (c ∷ s) (d ∷ t) = ltb c d || ((c == d) && text_leb s t)

pub text_leb-total : (s t : Text) → text_leb s t ≡ false → text_leb t s ≡ true
unfolding text_leb
text_leb-total [] t h = cc
text_leb-total (c ∷ s) [] h = refl
text_leb-total (c ∷ s) (d ∷ t) h = ground (arith, text_leb-total s t)

pub text_leb_trans :
    (s t u : Text) → text_leb s t ≡ true → text_leb t u ≡ true → text_leb s u ≡ true
unfolding text_leb
text_leb_trans [] t u h k = refl
text_leb_trans (c ∷ s) [] u h k = cc
text_leb_trans (c ∷ s) (d ∷ t) [] h k = cc
text_leb_trans (c ∷ s) (d ∷ t) (e ∷ u) h k = ground (arith, text_leb_trans s t u)

abbrev pub member : Text → List Text → Bool
member s [] = false
member s (t ∷ ts) = text_eq s t || member s ts

-- A set of texts, as a list without repetitions.
abbrev pub each_once : List Text → List Text
each_once [] = []
each_once (t ∷ ts) = let rest = each_once ts in if member t ts then rest else t ∷ rest

abbrev pub elem : ℕ → List ℕ → Bool
elem n [] = false
elem n (m ∷ ms) = (n == m) || elem n ms

-- `s.startswith(p)`
unfoldable pub starts_with : Text → Text → Bool
starts_with s [] = true
starts_with [] (p ∷ ps) = false
starts_with (c ∷ s) (p ∷ ps) = (c == p) && starts_with s ps

-- `s.endswith(p)`
unfoldable pub ends_with : Text → Text → Bool
unfolding starts_with
ends_with s p = starts_with (reverse s) (reverse p)

-- `s.split(sep)` for a separator of one character: the piece before it, and the pieces behind it.
unfoldable pub split_from : ℕ → Text → Text → List Text
split_from sep piece [] = piece ∷ []
split_from sep piece (c ∷ s) = elim (c == sep) [
  | true ↦ piece ∷ split_from sep [] s
  | false ↦ split_from sep (piece ++ c ∷ []) s
]

unfoldable pub split : ℕ → Text → List Text
unfolding split_from
split sep s = split_from sep [] s

pub text_eq_iff : (s t : Text) → (text_eq s t ≡ true) ↔ (s ≡ t)
text_eq_iff s t = (text_eq→eq s t, λ e. rw e (text_eq_refl t))

pub starts_with-append : (s p : Text) → starts_with s p ≡ true → (rest : Text) × (s ≡ p ++ rest)
unfolding starts_with
starts_with-append s [] h = (s, refl)
starts_with-append [] (p ∷ ps) h = absurd (cc)
starts_with-append (c ∷ s) (p ∷ ps) h =
    let (rest, e) = starts_with-append s ps (ground arith) in
    let same : c ≡ p = ground arith in (rest, cc (e, same))

pub ends_with-append : (s p : Text) → ends_with s p ≡ true → (front : Text) × (s ≡ front ++ p)
unfolding ends_with
ends_with-append s p h =
    let (rest, e) = starts_with-append (reverse s) (reverse p) h in
    (
      reverse rest,
      sym (reverse-reverse s)
          ∙ ap reverse e
          ∙ reverse-append (reverse p) rest
          ∙ ap (λ (t : Text). reverse rest ++ t) (reverse-reverse p),
    )

starts_with-append_left : (p rest : Text) → starts_with (p ++ rest) p ≡ true
unfolding starts_with
starts_with-append_left [] [] = refl
starts_with-append_left [] (c ∷ rest) = refl
starts_with-append_left (c ∷ p) rest =
    let same = starts_with-append_left p rest in ground (arith, same)

pub ends_with-append_right : (front p : Text) → ends_with (front ++ p) p ≡ true
unfolding ends_with
ends_with-append_right front p =
    rw (reverse-append front p) (starts_with-append_left (reverse p) (reverse front))

pub member-In : (s : Text) (ts : List Text) → member s ts ≡ true → In s ts
member-In s [] h = absurd (cc)
member-In s (t ∷ ts) h = elim (Bool-cases (text_eq s t)) [
  | inl y ↦ here (text_eq→eq s t y)
  | inr n ↦ there (member-In s ts (ground (arith, n)))
]

pub text_eq→ne : (s t : Text) → text_eq s t ≡ false → s ≢ t
text_eq→ne s t h e = absurd (cc (ap (λ (x : Text). text_eq x t) e, text_eq_refl t, h))
