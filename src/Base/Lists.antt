-- ===== src/Base/Lists.antt =====
-- Lists: Boolean filters and searches as Rust's iterators make them, and what they give.
use Prim.Native.Nat.{ℕ, zero, suc, ◌+◌, ◌≤◌}
use mathlib.Core.Path.{◌≡◌, refl, sym, ap, subst}
use mathlib.Core.Logic.{◌⊎◌, inl, inr}
use mathlib.Core.Bool.{Bool, true, false, ◌||◌}
use mathlib.Core.Option.{Option, none, some}
use mathlib.Core.List.{List, [], ◌∷◌, ◌++◌, map}
use native.Mathlib.Omega.{arith}
use rust_agent.Base.Tests.{if◌then◌else◌, Bool-cases}

module _ {ℓ} {A : Type ℓ} where
  abbrev pub length : List A → ℕ
  length [] = 0
  length (x ∷ xs) = suc (length xs)

  abbrev pub is_empty : List A → Bool
  is_empty [] = true
  is_empty (x ∷ xs) = false

  abbrev pub take : ℕ → List A → List A
  take zero xs = []
  take (suc n) [] = []
  take (suc n) (x ∷ xs) = x ∷ take n xs

  abbrev pub drop : ℕ → List A → List A
  drop zero xs = xs
  drop (suc n) [] = []
  drop (suc n) (x ∷ xs) = drop n xs

  -- `iter().filter(p)`
  abbrev pub filter : (A → Bool) → List A → List A
  filter p [] = []
  filter p (x ∷ xs) = if p x then x ∷ filter p xs else filter p xs

  -- `iter().any(p)`
  abbrev pub any : (A → Bool) → List A → Bool
  any p [] = false
  any p (x ∷ xs) = p x || any p xs

  -- `iter().find(p)`
  abbrev pub find : (A → Bool) → List A → Option A
  find p [] = none
  find p (x ∷ xs) = if p x then some x else find p xs

  -- The number of entries that pass the test: `SELECT COUNT(*) … WHERE`.
  abbrev pub count_if : (A → Bool) → List A → ℕ
  count_if p [] = 0
  count_if p (x ∷ xs) = if p x then suc (count_if p xs) else count_if p xs

  abbrev pub All {κ} : (A → Type κ) → List A → Type κ
  All P [] = Unit
  All P (x ∷ xs) = P x × All P xs

  pub length-append : (xs ys : List A) → length (xs ++ ys) ≡ length xs + length ys
  length-append [] ys = omega arith
  length-append (x ∷ xs) ys = omega (arith, length-append xs ys)

  pub All-append {κ} : (P : A → Type κ) (xs ys : List A) → All P xs → All P ys → All P (xs ++ ys)
  All-append P [] ys _ hy = hy
  All-append P (x ∷ xs) ys (px, hx) hy = (px, All-append P xs ys hx hy)

  pub take_all : (n : ℕ) (xs : List A) → length xs ≤ n → take n xs ≡ xs
  take_all zero [] h = refl
  take_all zero (x ∷ xs) h = absurd (omega arith)
  take_all (suc n) [] h = refl
  take_all (suc n) (x ∷ xs) h = ap (λ ys. x ∷ ys) (take_all n xs (omega arith))

module _ {A : Type 0} where
  -- Membership, with the place.
  abbrev pub In : A → List A → Type 0
  In a [] = ⊥
  In a (x ∷ xs) = (a ≡ x) ⊎ In a xs

  pub is_empty-In : (a : A) (xs : List A) → is_empty xs ≡ true → In a xs → ⊥
  is_empty-In a [] h m = m
  is_empty-In a (x ∷ xs) h m = cc

  pub All-In {κ} : (P : A → Type κ) (a : A) (xs : List A) → All P xs → In a xs → P a
  All-In P a [] h m = absurd m
  All-In P a (x ∷ xs) h (inl e) = subst P (sym e) h.0
  All-In P a (x ∷ xs) h (inr m) = All-In P a xs h.1 m

  pub All-of_In {κ} : (P : A → Type κ) (xs : List A) → ((a : A) → In a xs → P a) → All P xs
  All-of_In P [] f = tt
  All-of_In P (x ∷ xs) f = (f x (inl refl), All-of_In P xs (λ a m. f a (inr m)))

  pub In-take : (a : A) (n : ℕ) (xs : List A) → In a (take n xs) → In a xs
  In-take a zero xs m = absurd m
  In-take a (suc n) [] m = m
  In-take a (suc n) (x ∷ xs) (inl e) = inl e
  In-take a (suc n) (x ∷ xs) (inr m) = inr (In-take a n xs m)

  module _ (p : A → Bool) where
    pub In-filter : (a : A) (xs : List A) → In a (filter p xs) → In a xs × (p a ≡ true)
    In-filter a [] m = absurd m
    In-filter a (x ∷ xs) m = ground (arith, In-filter a xs)

    pub filter-In : (a : A) (xs : List A) → In a xs → p a ≡ true → In a (filter p xs)
    filter-In a [] m h = m
    filter-In a (x ∷ xs) m h = ground (arith, filter-In a xs)

    -- A filter leaves nothing exactly when no entry passes.
    pub filter-is_empty : (xs : List A) → is_empty (filter p xs) ≡ true → All (λ a. p a ≡ false) xs
    filter-is_empty [] h = tt
    filter-is_empty (x ∷ xs) h = ground (arith, filter-is_empty xs)

    pub filter-witness :
        (xs : List A) → is_empty (filter p xs) ≡ false → (a : A) × In a xs × (p a ≡ true)
    filter-witness [] h = cc
    filter-witness (x ∷ xs) h = elim (Bool-cases (p x)) [
      | inl e ↦ (x, inl refl, e)
      | inr e ↦ let (a, m, k) = filter-witness xs (rw e at h) in (a, inr m, k)
    ]

    pub In-filter-ne-empty :
        (a : A) (xs : List A) → In a xs → p a ≡ true → is_empty (filter p xs) ≡ false
    In-filter-ne-empty a [] m h = absurd m
    In-filter-ne-empty a (x ∷ xs) m h = ground (arith, In-filter-ne-empty a xs)

    pub any_sound : (xs : List A) → any p xs ≡ true → (a : A) × In a xs × (p a ≡ true)
    any_sound [] h = cc
    any_sound (x ∷ xs) h = elim (Bool-cases (p x)) [
      | inl e ↦ (x, inl refl, e)
      | inr e ↦ let (a, m, k) = any_sound xs (rw e at h) in (a, inr m, k)
    ]

    pub any-In : (a : A) (xs : List A) → In a xs → p a ≡ true → any p xs ≡ true
    any-In a [] m h = absurd m
    any-In a (x ∷ xs) m h = ground (arith, any-In a xs)

    pub any-eq-false : (xs : List A) → any p xs ≡ false → All (λ a. p a ≡ false) xs
    any-eq-false [] h = tt
    any-eq-false (x ∷ xs) h = ground (arith, any-eq-false xs)

    pub find_sound : (xs : List A) (a : A) → find p xs ≡ some a → In a xs × (p a ≡ true)
    find_sound [] a h = cc
    find_sound (x ∷ xs) a h = ground (arith, find_sound xs a)

    pub find-none : (xs : List A) → find p xs ≡ none → All (λ a. p a ≡ false) xs
    find-none [] h = tt
    find-none (x ∷ xs) h = ground (arith, find-none xs)

module _ {A B : Type 0} (f : A → B) where
  pub In-map : (b : B) (xs : List A) → In b (map f xs) → (a : A) × In a xs × (b ≡ f a)
  In-map b [] m = absurd m
  In-map b (x ∷ xs) (inl e) = (x, inl refl, e)
  In-map b (x ∷ xs) (inr m) = let (a, n, e) = In-map b xs m in (a, inr n, e)

module _ {A : Type 0} where
  pub In-append_left : (a : A) (xs ys : List A) → In a xs → In a (xs ++ ys)
  In-append_left a [] ys m = absurd m
  In-append_left a (x ∷ xs) ys (inl e) = inl e
  In-append_left a (x ∷ xs) ys (inr m) = inr (In-append_left a xs ys m)

  pub In-append-cases : (a : A) (xs ys : List A) → In a (xs ++ ys) → In a xs ⊎ In a ys
  In-append-cases a [] ys m = inr m
  In-append-cases a (x ∷ xs) ys (inl e) = inl (inl e)
  In-append-cases a (x ∷ xs) ys (inr m) = elim (In-append-cases a xs ys m) [
    | inl n ↦ inl (inr n)
    | inr n ↦ inr n
  ]

  pub In-append_right : (a : A) (xs ys : List A) → In a ys → In a (xs ++ ys)
  In-append_right a [] ys m = m
  In-append_right a (x ∷ xs) ys m = inr (In-append_right a xs ys m)
