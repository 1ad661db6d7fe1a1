-- ===== src/Prelude/Tables.antt =====
-- A dictionary with texts for keys, as the association list of its entries in their order.
use mathlib.Core.Path.{◌≡◌, ap, ◌∙◌, sym}
use mathlib.Core.Logic.{◌≢◌, inl, inr}
use mathlib.Core.Bool.{Bool, true}
use mathlib.Core.Option.{Option, none, some}
use mathlib.Core.List.{List, [], ◌∷◌}
use native.Mathlib.Omega.{arith}
use minisserver_compose.Prelude.Tests.{if◌then◌else◌, Bool-cases}
use minisserver_compose.Prelude.Texts.{Text, text_eq, text_eq→eq, text_eq_refl}

abbrev pub Table {ℓ} : Type ℓ → Type ℓ
Table A = List (Text × A)

module _ {ℓ} {A : Type ℓ} where
  -- `d.get(k)`
  unfoldable pub lookup : Text → Table A → Option A
  lookup k [] = none
  lookup k ((j, a) ∷ es) = let rest = lookup k es in if text_eq k j then some a else rest

  -- `d[k] = a`
  unfoldable pub put : Text → A → Table A → Table A
  put k a [] = (k, a) ∷ []
  put k a ((j, b) ∷ es) =
      let rest = put k a es in if text_eq k j then (j, a) ∷ es else (j, b) ∷ rest

  -- `del d[k]` for the entries whose value does not pass the test.
  unfoldable pub keep_values : (A → Bool) → Table A → Table A
  keep_values p [] = []
  keep_values p ((k, a) ∷ es) = let rest = keep_values p es in if p a then (k, a) ∷ rest else rest

  pub lookup-put : (k : Text) (a : A) (es : Table A) → lookup k (put k a es) ≡ some a
  unfolding lookup put
  lookup-put k a [] = rw (text_eq_refl k)
  lookup-put k a ((j, b) ∷ es) = elim (Bool-cases (text_eq k j)) [
    | inl y ↦ rw (y, y)
    | inr n ↦ rw (n, n) (lookup-put k a es)
  ]

  pub lookup-put_other :
      (k j : Text) (a : A) (es : Table A) → k ≢ j → lookup k (put j a es) ≡ lookup k es
  unfolding lookup put
  lookup-put_other k j a [] d = elim (Bool-cases (text_eq k j)) [
    | inl y ↦ absurd (d (text_eq→eq k j y))
    | inr n ↦ rw n
  ]
  lookup-put_other k j a ((i, b) ∷ es) d = elim (Bool-cases (text_eq j i)) [
    | inl y ↦ elim (Bool-cases (text_eq k i)) [
      | inl z ↦ absurd (d (text_eq→eq k i z ∙ sym (text_eq→eq j i y)))
      | inr n ↦ rw (y, n)
    ]
    | inr n ↦ elim (Bool-cases (text_eq k i)) [
      | inl z ↦ rw (n, z)
      | inr m ↦ rw (n, m) (lookup-put_other k j a es d)
    ]
  ]

  pub lookup-keep_values :
      (p : A → Bool) (k : Text) (a : A) (es : Table A)
      → lookup k es ≡ some a
      → p a ≡ true
      → lookup k (keep_values p es) ≡ some a
  unfolding lookup keep_values
  lookup-keep_values p k a [] h t = absurd (cc)
  lookup-keep_values p k a ((j, b) ∷ es) h t = elim (Bool-cases (text_eq k j)) [
    | inl y ↦
        let same : b ≡ a = ground (arith, y) in
        let kept : p b ≡ true = ap p same ∙ t in rw (kept, y) (ap some same)
    | inr n ↦
        let ih = lookup-keep_values p k a es (ground (arith, n)) t in
        elim (Bool-cases (p b)) [ inl q ↦ rw (q, n) ih | inr q ↦ rw q ih ]
  ]
