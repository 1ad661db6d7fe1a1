-- ===== src/Prelude/Rows.antt =====
-- A table of a database as the list of its rows: what SELECT, UPDATE, DELETE and COUNT with a
-- condition do to it.
use Prim.Native.Nat.{ℕ, suc, ◌+◌}
use mathlib.Core.Path.{◌≡◌, refl, sym}
use mathlib.Core.Logic.{inl, inr}
use mathlib.Core.Bool.{Bool, true, false, not}
use mathlib.Core.Option.{Option, none, some}
use mathlib.Core.List.{List, [], ◌∷◌, ◌++◌}
use native.Mathlib.Omega.{arith}
use minisserver_compose.Prelude.Tests.{if◌then◌else◌, Bool-cases}
use minisserver_compose.Prelude.Lists.{keep_if}

module _ {ℓ} {A : Type ℓ} where
  -- The first row that passes.
  unfoldable pub first_of : (A → Bool) → List A → Option A
  first_of p [] = none
  first_of p (x ∷ xs) = let rest = first_of p xs in if p x then some x else rest

  -- The rows that pass, changed.
  unfoldable pub change_if : (A → Bool) → (A → A) → List A → List A
  change_if p f [] = []
  change_if p f (x ∷ xs) = (if p x then f x else x) ∷ change_if p f xs

  -- The rows that do not pass.
  unfoldable pub drop_if : (A → Bool) → List A → List A
  drop_if p xs = keep_if (λ (x : A). not (p x)) xs

  unfoldable pub count_if : (A → Bool) → List A → ℕ
  count_if p [] = 0
  count_if p (x ∷ xs) = let rest = count_if p xs in if p x then suc rest else rest

  pub first_of-true : (p : A → Bool) (xs : List A) {x : A} → first_of p xs ≡ some x → p x ≡ true
  unfolding first_of
  first_of-true p [] h = absurd (cc)
  first_of-true p (y ∷ ys) h = elim (Bool-cases (p y)) [
    | inl t ↦ cc (t, h)
    | inr n ↦ first_of-true p ys (cc (n, h))
  ]

  -- A change that turns every row that it touches into one that fails the test leaves none.
  pub first_of-change_if :
      (p q : A → Bool) (f : A → A) (xs : List A)
      → ((x : A) → q x ≡ true → p x ≡ true)
      → ((x : A) → q (f x) ≡ false)
      → first_of q (change_if p f xs) ≡ none
  unfolding first_of change_if
  first_of-change_if p q f [] covers fails = refl
  first_of-change_if p q f (x ∷ xs) covers fails =
      let rest = first_of-change_if p q f xs covers fails in
      elim (Bool-cases (p x)) [
        | inl y ↦ rw (y, fails x) rest
        | inr n ↦ elim (Bool-cases (q x)) [
          | inl z ↦ absurd (cc (covers x z, n))
          | inr m ↦ rw (n, m) rest
        ]
      ]

  pub count_if-append :
      (p : A → Bool) (xs ys : List A) → count_if p (xs ++ ys) ≡ count_if p xs + count_if p ys
  unfolding count_if
  count_if-append p [] ys = omega arith
  count_if-append p (x ∷ xs) ys = ground (arith, count_if-append p xs ys)

  -- Rows that are changed count as before where the change keeps the test.
  pub count_if-change_if :
      (p q : A → Bool) (f : A → A) (xs : List A)
      → ((x : A) → p x ≡ true → q (f x) ≡ q x)
      → count_if q (change_if p f xs) ≡ count_if q xs
  unfolding count_if change_if
  count_if-change_if p q f [] keeps = refl
  count_if-change_if p q f (x ∷ xs) keeps =
      let rest = count_if-change_if p q f xs keeps in
      elim (Bool-cases (p x)) [ inl y ↦ rw (y, keeps x y, rest) refl | inr n ↦ rw (n, rest) refl ]

  -- A change that keeps the test leaves the first row that passes where it is.
  pub first_of-change_if_same :
      (p q : A → Bool) (f : A → A) (xs : List A) {x : A}
      → ((y : A) → q (f y) ≡ q y)
      → first_of q xs ≡ some x
      → first_of q (change_if p f xs) ≡ some (if p x then f x else x)
  unfolding first_of change_if
  first_of-change_if_same p q f [] keeps h = absurd (cc)
  first_of-change_if_same p q f (y ∷ ys) {x} keeps h = elim (Bool-cases (q y)) [
    | inl t ↦
        let same : y ≡ x = ground (arith, t) in
        elim (Bool-cases (p y)) [
          | inl z ↦ rw (z, keeps y, t, sym same, z) refl
          | inr n ↦ rw (n, t, sym same, n) refl
        ]
    | inr n ↦
        let rest = first_of-change_if_same p q f ys keeps (cc (n, h)) in
        elim (Bool-cases (p y)) [ inl z ↦ rw (z, keeps y, n) rest | inr m ↦ rw (m, n) rest ]
  ]

  pub first_of-append :
      (q : A → Bool) (xs ys : List A) {x : A}
      → first_of q xs ≡ some x
      → first_of q (xs ++ ys) ≡ some x
  unfolding first_of
  first_of-append q [] ys h = absurd (cc)
  first_of-append q (x ∷ xs) ys h = elim (Bool-cases (q x)) [
    | inl t ↦ cc (t, h)
    | inr n ↦ rw n (first_of-append q xs ys (cc (n, h)))
  ]

module _ {ℓ} {A : Type ℓ} (q marked : A → Bool) where
  -- The first row that passes `q` is marked.
  abbrev pub FirstIs : List A → Type ℓ
  FirstIs xs = (x : A) × (first_of q xs ≡ some x) × (marked x ≡ true)

  pub FirstIs-append : (xs ys : List A) → FirstIs xs → FirstIs (xs ++ ys)
  FirstIs-append xs ys (x, h, m) = (x, first_of-append q xs ys h, m)

  pub FirstIs-change_if :
      (p : A → Bool) (f : A → A) (xs : List A)
      → ((y : A) → q (f y) ≡ q y)
      → ((y : A) → marked y ≡ true → marked (f y) ≡ true)
      → FirstIs xs
      → FirstIs (change_if p f xs)
  FirstIs-change_if p f xs keeps stays (x, h, m) = (
    if p x then f x else x,
    first_of-change_if_same p q f xs keeps h,
    elim (Bool-cases (p x)) [ inl y ↦ rw y (stays x m) | inr n ↦ rw n m ],
  )
