-- ===== src/Prelude/Sort.antt =====
-- Python's `sorted` and `list.sort` with a total order on keys: a stable insertion sort.
use Prim.Native.Nat.{suc}
use native.Mathlib.Omega.{arith}
use mathlib.Core.Path.{◌≡◌, refl, ap, ◌∙◌}
use mathlib.Core.Logic.{◌⊎◌, inl, inr}
use mathlib.Core.Bool.{Bool, true, false, ◌||◌}
use mathlib.Core.List.{List, [], ◌∷◌}
use minisserver_compose.Prelude.Tests.{if◌then◌else◌, Bool-cases}
use minisserver_compose.Prelude.Lists.{All, All-mono, Pairwise, length, any, In, here, there}

module _ {ℓ} {A : Type ℓ} (le : A → A → Bool) where
  unfoldable pub insert_sorted : A → List A → List A
  insert_sorted a [] = a ∷ []
  insert_sorted a (x ∷ xs) =
      let rest = insert_sorted a xs in if le a x then a ∷ x ∷ xs else x ∷ rest

  unfoldable pub sort : List A → List A
  unfolding insert_sorted
  sort [] = []
  sort (x ∷ xs) = insert_sorted x (sort xs)

  abbrev pub IsSorted : List A → Type 0
  IsSorted xs = Pairwise (λ x y. le x y ≡ true) xs

-- What holds of every element holds of every element in any order.
module _ {ℓ κ} {A : Type ℓ} (le : A → A → Bool) (P : A → Type κ) where
  pub All-insert_sorted : (a : A) (xs : List A) → P a → All P xs → All P (insert_sorted le a xs)
  unfolding insert_sorted
  All-insert_sorted a [] p h = (p, h)
  All-insert_sorted a (x ∷ xs) p h = elim (Bool-cases (le a x)) [
    | inl e ↦ rw e (p, h)
    | inr e ↦ rw e (h.0, All-insert_sorted a xs p h.1)
  ]

  pub All-of_insert_sorted : (a : A) (xs : List A) → All P (insert_sorted le a xs) → P a × All P xs
  unfolding insert_sorted
  All-of_insert_sorted a [] h = h
  All-of_insert_sorted a (x ∷ xs) h = elim (Bool-cases (le a x)) [
    | inl e ↦ rw e at h
    | inr e ↦ let h' = (rw e at h) in let r = All-of_insert_sorted a xs h'.1 in (r.0, (h'.0, r.1))
  ]

  pub All-sort : (xs : List A) → All P xs → All P (sort le xs)
  unfolding sort
  All-sort [] h = tt
  All-sort (x ∷ xs) h = All-insert_sorted x (sort le xs) h.0 (All-sort xs h.1)

  pub All-of_sort : (xs : List A) → All P (sort le xs) → All P xs
  unfolding sort
  All-of_sort [] h = tt
  All-of_sort (x ∷ xs) h =
      let r = All-of_insert_sorted x (sort le xs) h in (r.0, All-of_sort xs r.1)

-- A symmetric relation between all pairs does not depend on the order.
module _ {ℓ κ} {A : Type ℓ} (le : A → A → Bool) (R : A → A → Type κ)
    (symmetric : (x y : A) → R x y → R y x) where
  Pairwise-of_insert_sorted :
      (a : A) (xs : List A) → Pairwise R (insert_sorted le a xs) → All (R a) xs × Pairwise R xs
  unfolding insert_sorted
  Pairwise-of_insert_sorted a [] h = h
  Pairwise-of_insert_sorted a (x ∷ xs) h = elim (Bool-cases (le a x)) [
    | inl e ↦ rw e at h
    | inr e ↦
        let h' = (rw e at h) in
        let r = Pairwise-of_insert_sorted a xs h'.1 in
        let q = All-of_insert_sorted le (R x) a xs h'.0 in ((symmetric x a q.0, r.0), (q.1, r.1))
  ]

  pub Pairwise-of_sort : (xs : List A) → Pairwise R (sort le xs) → Pairwise R xs
  unfolding sort
  Pairwise-of_sort [] h = tt
  Pairwise-of_sort (x ∷ xs) h =
      let r = Pairwise-of_insert_sorted x (sort le xs) h in
      (All-of_sort le (R x) xs r.0, Pairwise-of_sort xs r.1)

module _ {ℓ} {A : Type ℓ} (le : A → A → Bool) (total : (x y : A) → le x y ≡ false → le y x ≡ true)
    (trans : (x y z : A) → le x y ≡ true → le y z ≡ true → le x z ≡ true) where
  insert_sorted-IsSorted :
      (a : A) (xs : List A) → IsSorted le xs → IsSorted le (insert_sorted le a xs)
  unfolding insert_sorted
  insert_sorted-IsSorted a [] h = (tt, tt)
  insert_sorted-IsSorted a (x ∷ xs) h = elim (Bool-cases (le a x)) [
    | inl e ↦ rw e ((e, All-mono _ _ (λ y. trans a x y e) xs h.0), h)
    | inr e ↦ rw e (
      All-insert_sorted le (λ y. le x y ≡ true) a xs (total a x e) h.0,
      insert_sorted-IsSorted a xs h.1,
    )
  ]

  pub sort-IsSorted : (xs : List A) → IsSorted le (sort le xs)
  unfolding sort
  sort-IsSorted [] = tt
  sort-IsSorted (x ∷ xs) = insert_sorted-IsSorted x (sort le xs) (sort-IsSorted xs)

-- A symmetric relation between all pairs holds in any order, so also in the sorted one.
module _ {ℓ κ} {A : Type ℓ} (le : A → A → Bool) (R : A → A → Type κ)
    (symmetric : (x y : A) → R x y → R y x) where
  Pairwise-insert_sorted :
      (a : A) (xs : List A) → All (R a) xs → Pairwise R xs → Pairwise R (insert_sorted le a xs)
  unfolding insert_sorted
  Pairwise-insert_sorted a [] h p = (tt, tt)
  Pairwise-insert_sorted a (x ∷ xs) h p = elim (Bool-cases (le a x)) [
    | inl e ↦ rw e (h, p)
    | inr e ↦ rw e (
      All-insert_sorted le (R x) a xs (symmetric a x h.0) p.0,
      Pairwise-insert_sorted a xs h.1 p.1,
    )
  ]

  pub Pairwise-sort : (xs : List A) → Pairwise R xs → Pairwise R (sort le xs)
  unfolding sort
  Pairwise-sort [] p = tt
  Pairwise-sort (x ∷ xs) p =
      Pairwise-insert_sorted x (sort le xs) (All-sort le (R x) xs p.0) (Pairwise-sort xs p.1)

module _ {ℓ} {A : Type ℓ} (le : A → A → Bool) where
  length-insert_sorted : (a : A) (xs : List A) → length (insert_sorted le a xs) ≡ suc (length xs)
  unfolding insert_sorted
  length-insert_sorted a [] = refl
  length-insert_sorted a (x ∷ xs) = ground (arith, length-insert_sorted a xs)

  pub length-sort : (xs : List A) → length (sort le xs) ≡ length xs
  unfolding sort
  length-sort [] = refl
  length-sort (x ∷ xs) = length-insert_sorted x (sort le xs) ∙ ap suc (length-sort xs)

  any-insert_sorted :
      (p : A → Bool) (a : A) (xs : List A) → any p (insert_sorted le a xs) ≡ (p a || any p xs)
  unfolding insert_sorted
  any-insert_sorted p a [] = refl
  any-insert_sorted p a (x ∷ xs) = ground (arith, any-insert_sorted p a xs)

  pub any-sort : (p : A → Bool) (xs : List A) → any p (sort le xs) ≡ any p xs
  unfolding sort
  any-sort p [] = refl
  any-sort p (x ∷ xs) = any-insert_sorted p x (sort le xs) ∙ ap (λ b. p x || b) (any-sort p xs)

  In-of_insert_sorted : (e a : A) (xs : List A) → In e (insert_sorted le a xs) → (e ≡ a) ⊎ In e xs
  unfolding insert_sorted
  In-of_insert_sorted e a [] (here h) = inl h
  In-of_insert_sorted e a [] (there i) = elim i [ ]
  In-of_insert_sorted e a (x ∷ xs) i = split_test (le a x) (In-of_insert_sorted e a xs) i
    where
      split_test :
          (b : Bool)
          → (In e (insert_sorted le a xs) → (e ≡ a) ⊎ In e xs)
          → In e (if b then a ∷ x ∷ xs else x ∷ insert_sorted le a xs)
          → (e ≡ a) ⊎ In e (x ∷ xs)
      split_test true ih (here h) = inl h
      split_test true ih (there j) = inr j
      split_test false ih (here h) = inr (here h)
      split_test false ih (there j) = elim (ih j) [ inl h ↦ inl h | inr k ↦ inr (there k) ]

  In-insert_sorted : (e a : A) (xs : List A) → (e ≡ a) ⊎ In e xs → In e (insert_sorted le a xs)
  unfolding insert_sorted
  In-insert_sorted e a [] (inl h) = here h
  In-insert_sorted e a [] (inr i) = elim i [ ]
  In-insert_sorted e a (x ∷ xs) i = split_test (le a x) (In-insert_sorted e a xs) i
    where
      split_test :
          (b : Bool)
          → ((e ≡ a) ⊎ In e xs → In e (insert_sorted le a xs))
          → (e ≡ a) ⊎ In e (x ∷ xs)
          → In e (if b then a ∷ x ∷ xs else x ∷ insert_sorted le a xs)
      split_test true ih (inl h) = here h
      split_test true ih (inr j) = there j
      split_test false ih (inl h) = there (ih (inl h))
      split_test false ih (inr (here h)) = here h
      split_test false ih (inr (there j)) = there (ih (inr j))

  pub In-sort : (e : A) (xs : List A) → In e xs → In e (sort le xs)
  unfolding sort
  In-sort e [] i = i
  In-sort e (x ∷ xs) (here h) = In-insert_sorted e x (sort le xs) (inl h)
  In-sort e (x ∷ xs) (there i) = In-insert_sorted e x (sort le xs) (inr (In-sort e xs i))

  pub In-of_sort : (e : A) (xs : List A) → In e (sort le xs) → In e xs
  unfolding sort
  In-of_sort e [] i = i
  In-of_sort e (x ∷ xs) i = elim (In-of_insert_sorted e x (sort le xs) i) [
    | inl h ↦ here h
    | inr j ↦ there (In-of_sort e xs j)
  ]
