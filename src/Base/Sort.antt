-- ===== src/Base/Sort.antt =====
-- `ORDER BY`: a stable insertion sort by a Boolean order, its members and its order.
use Prim.Native.Nat.{ℕ, zero, suc}
use mathlib.Core.Path.{◌≡◌, refl}
use mathlib.Core.Logic.{◌⊎◌, inl, inr}
use mathlib.Core.Bool.{Bool, true, false}
use mathlib.Core.List.{List, [], ◌∷◌}
use native.Mathlib.Omega.{arith}
use rust_agent.Base.Tests.{if◌then◌else◌, Bool-cases}
use rust_agent.Base.Lists.{In, All, take, length}

module _ {A : Type 0} (le : A → A → Bool) where
  abbrev pub insert_by : A → List A → List A
  insert_by a [] = a ∷ []
  insert_by a (x ∷ xs) = if le a x then a ∷ x ∷ xs else x ∷ insert_by a xs

  abbrev pub sort_by : List A → List A
  sort_by [] = []
  sort_by (x ∷ xs) = insert_by x (sort_by xs)

  abbrev pub IsSorted : List A → Type 0
  IsSorted [] = Unit
  IsSorted (x ∷ xs) = All (λ y. le x y ≡ true) xs × IsSorted xs

  In-insert_by : (a b : A) (xs : List A) → In a (insert_by b xs) → (a ≡ b) ⊎ In a xs
  In-insert_by a b [] m = m
  In-insert_by a b (x ∷ xs) m = ground (arith, In-insert_by a b xs)

  insert_by-In : (a b : A) (xs : List A) → (a ≡ b) ⊎ In a xs → In a (insert_by b xs)
  insert_by-In a b [] m = m
  insert_by-In a b (x ∷ xs) m = ground (arith, insert_by-In a b xs)

  length-insert_by : (a : A) (xs : List A) → length (insert_by a xs) ≡ suc (length xs)
  length-insert_by a [] = refl
  length-insert_by a (x ∷ xs) = ground (arith, length-insert_by a xs)

  pub length-sort_by : (xs : List A) → length (sort_by xs) ≡ length xs
  length-sort_by [] = refl
  length-sort_by (x ∷ xs) = omega (arith, length-insert_by x (sort_by xs), length-sort_by xs)

  pub In-sort_by : (a : A) (xs : List A) → In a (sort_by xs) → In a xs
  In-sort_by a [] m = m
  In-sort_by a (x ∷ xs) m = ground (arith, In-insert_by a x (sort_by xs), In-sort_by a xs)

  pub sort_by-In : (a : A) (xs : List A) → In a xs → In a (sort_by xs)
  sort_by-In a [] m = m
  sort_by-In a (x ∷ xs) m = ground (arith, insert_by-In a x (sort_by xs), sort_by-In a xs)

  All-insert_by : (P : A → Type 0) (b : A) (xs : List A) → P b → All P xs → All P (insert_by b xs)
  All-insert_by P b [] p h = (p, tt)
  All-insert_by P b (x ∷ xs) p h = elim (Bool-cases (le b x)) [
    | inl e ↦ rw e (p, h)
    | inr e ↦ rw e (h.0, All-insert_by P b xs p h.1)
  ]

  All-take :
      (x : A) (n : ℕ) (xs : List A)
      → All (λ y. le x y ≡ true) xs
      → All (λ y. le x y ≡ true) (take n xs)
  All-take x zero xs h = tt
  All-take x (suc n) [] h = tt
  All-take x (suc n) (y ∷ ys) (l, h) = (l, All-take x n ys h)

  pub take-IsSorted : (n : ℕ) (xs : List A) → IsSorted xs → IsSorted (take n xs)
  take-IsSorted zero xs h = tt
  take-IsSorted (suc n) [] h = tt
  take-IsSorted (suc n) (x ∷ xs) (l, h) = (All-take x n xs l, take-IsSorted n xs h)

  module _ (total : (a b : A) → le a b ≡ false → le b a ≡ true)
      (trans : (a b c : A) → le a b ≡ true → le b c ≡ true → le a c ≡ true) where
    below :
        (a x : A) (xs : List A)
        → le a x ≡ true
        → All (λ y. le x y ≡ true) xs
        → All (λ y. le a y ≡ true) xs
    below a x [] e h = tt
    below a x (y ∷ ys) e h = (trans a x y e h.0, below a x ys e h.1)

    insert_by-IsSorted : (a : A) (xs : List A) → IsSorted xs → IsSorted (insert_by a xs)
    insert_by-IsSorted a [] h = (tt, tt)
    insert_by-IsSorted a (x ∷ xs) (l, h) = elim (Bool-cases (le a x)) [
      | inl e ↦ rw e ((e, below a x xs e l), (l, h))
      | inr e ↦
          rw e (All-insert_by (λ y. le x y ≡ true) a xs (total a x e) l, insert_by-IsSorted a xs h)
    ]

    pub sort_by-IsSorted : (xs : List A) → IsSorted (sort_by xs)
    sort_by-IsSorted [] = tt
    sort_by-IsSorted (x ∷ xs) = insert_by-IsSorted x (sort_by xs) (sort_by-IsSorted xs)
