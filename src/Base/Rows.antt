-- ===== src/Base/Rows.antt =====
-- Rows of a table with a key: what an `UPDATE … WHERE` does to them.
use Prim.Native.Nat.{ℕ}
use mathlib.Core.Path.{◌≡◌, refl, sym, ap, ◌∙◌}
use mathlib.Core.Logic.{◌≢◌, inl, inr}
use mathlib.Core.Bool.{Bool, true, false}
use mathlib.Core.List.{List, [], ◌∷◌, ◌++◌, map}
use native.Mathlib.Omega.{arith}
use rust_agent.Base.Tests.{if◌then◌else◌, Bool-cases, ◌==◌, ==_iff}
use rust_agent.Base.Lists.{All, In, All-In, All-append, any, any_sound, filter}

module _ {A : Type 0} where
  -- `UPDATE … SET f WHERE p`
  abbrev pub update_rows : (A → Bool) → (A → A) → List A → List A
  update_rows p f rows = map (λ r. if p r then f r else r) rows

  module _ (p : A → Bool) (f : A → A) where
    pub update_rows-All :
        (P : A → Type 0) (rows : List A)
        → ((r : A) → In r rows → p r ≡ true → P r → P (f r))
        → All P rows
        → All P (update_rows p f rows)
    update_rows-All P [] keep h = tt
    update_rows-All P (r ∷ rows) keep (x, h) =
        let rest = update_rows-All P rows (λ s m. keep s (inr m)) h in
        elim (Bool-cases (p r)) [
          | inl e ↦ rw e (keep r (inl refl) e x, rest)
          | inr e ↦ rw e (x, rest)
        ]

    pub update_rows-In_kept :
        (r : A) (rows : List A) → p r ≡ false → In r rows → In r (update_rows p f rows)
    update_rows-In_kept r [] h m = m
    update_rows-In_kept r (x ∷ rows) h (inl e) = inl (ground arith)
    update_rows-In_kept r (x ∷ rows) h (inr m) = inr (update_rows-In_kept r rows h m)

    pub update_rows-In_changed :
        (r : A) (rows : List A) → p r ≡ true → In r rows → In (f r) (update_rows p f rows)
    update_rows-In_changed r [] h m = m
    update_rows-In_changed r (x ∷ rows) h (inl e) = inl (ground arith)
    update_rows-In_changed r (x ∷ rows) h (inr m) = inr (update_rows-In_changed r rows h m)

  module _ (key : A → ℕ) where
    abbrev pub has_key : ℕ → A → Bool
    has_key n r = key r == n

    -- The rows whose key is one of those chosen: `WHERE table.id = chosen.id`.
    abbrev pub is_chosen : List A → A → Bool
    is_chosen chosen r = any (has_key (key r)) chosen

    -- The primary key.
    abbrev pub HasUniqueKeys : List A → Type 0
    HasUniqueKeys [] = Unit
    HasUniqueKeys (x ∷ xs) = All (λ r. key r ≢ key x) xs × HasUniqueKeys xs

    pub HasUniqueKeys-eq :
        (r s : A) (rows : List A)
        → HasUniqueKeys rows
        → In r rows
        → In s rows
        → key r ≡ key s
        → r ≡ s
    HasUniqueKeys-eq r s [] u m n e = absurd m
    HasUniqueKeys-eq r s (x ∷ xs) (fresh, u) (inl p) (inl q) e = p ∙ sym q
    HasUniqueKeys-eq r s (x ∷ xs) (fresh, u) (inl p) (inr n) e =
        absurd (All-In (λ y. key y ≢ key x) s xs fresh n (sym e ∙ ap key p))
    HasUniqueKeys-eq r s (x ∷ xs) (fresh, u) (inr m) (inl q) e =
        absurd (All-In (λ y. key y ≢ key x) r xs fresh m (e ∙ ap key q))
    HasUniqueKeys-eq r s (x ∷ xs) (fresh, u) (inr m) (inr n) e = HasUniqueKeys-eq r s xs u m n e

    -- A chosen row is one of those that were chosen.
    pub is_chosen-In :
        (chosen rows : List A) (r : A)
        → HasUniqueKeys rows
        → ((c : A) → In c chosen → In c rows)
        → In r rows
        → is_chosen chosen r ≡ true
        → In r chosen
    is_chosen-In chosen rows r u listed m h =
        let (c, n, e) = any_sound (has_key (key r)) chosen h in
        let same = HasUniqueKeys-eq c r rows u (listed c n) m ((==_iff (key c) (key r)).0 e) in
        rw (sym same) n

    pub All-fresh-filter :
        (n : ℕ) (p : A → Bool) (rows : List A)
        → All (λ r. key r ≢ n) rows
        → All (λ r. key r ≢ n) (filter p rows)
    All-fresh-filter n p [] h = tt
    All-fresh-filter n p (x ∷ xs) (ne, h) = ground (arith, All-fresh-filter n p xs h)

    pub filter-HasUniqueKeys :
        (p : A → Bool) (rows : List A) → HasUniqueKeys rows → HasUniqueKeys (filter p rows)
    filter-HasUniqueKeys p [] u = tt
    filter-HasUniqueKeys p (x ∷ xs) (fresh, u) =
        let rest = filter-HasUniqueKeys p xs u in
        elim (Bool-cases (p x)) [
          | inl e ↦ rw e (All-fresh-filter (key x) p xs fresh, rest)
          | inr e ↦ rw e rest
        ]

    pub append-HasUniqueKeys :
        (xs ys : List A)
        → HasUniqueKeys xs
        → HasUniqueKeys ys
        → All (λ x. All (λ y. key y ≢ key x) ys) xs
        → HasUniqueKeys (xs ++ ys)
    append-HasUniqueKeys [] ys u v h = v
    append-HasUniqueKeys (x ∷ xs) ys (fresh, u) v (apart, h) =
        (All-append (λ y. key y ≢ key x) xs ys fresh apart, append-HasUniqueKeys xs ys u v h)

    module _ (f : A → A) (keeps : (r : A) → key (f r) ≡ key r) where
      map-fresh :
          (n : ℕ) (rows : List A) → All (λ r. key r ≢ n) rows → All (λ r. key r ≢ n) (map f rows)
      map-fresh n [] h = tt
      map-fresh n (x ∷ xs) (ne, h) = (λ e. ne (sym (keeps x) ∙ e), map-fresh n xs h)

      pub map-HasUniqueKeys : (rows : List A) → HasUniqueKeys rows → HasUniqueKeys (map f rows)
      map-HasUniqueKeys [] u = tt
      map-HasUniqueKeys (x ∷ xs) (fresh, u) =
          rw (keeps x) (map-fresh (key x) xs fresh, map-HasUniqueKeys xs u)

    pub update_rows-HasUniqueKeys :
        (p : A → Bool) (f : A → A)
        → ((r : A) → key (f r) ≡ key r)
        → (rows : List A) → HasUniqueKeys rows
        → HasUniqueKeys (update_rows p f rows)
    update_rows-HasUniqueKeys p f keeps rows u =
        map-HasUniqueKeys (λ r. if p r then f r else r)
          (λ r. elim (Bool-cases (p r)) [ inl e ↦ rw e (keeps r) | inr e ↦ rw e refl ]) rows u
