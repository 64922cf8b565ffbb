-- ===== src/Runs/Rows.antt =====
-- Rows of the table of runs: distinct identifiers, and what an `UPDATE` does to the rows.
use rust_agent.Base.{
  ℕ, suc, Bool, true, false, ◌&&◌, ◌==◌, arith, All, In, count_if, ◌∷◌, ◌≢◌, ◌≡◌, All-In, sym,
  Bool-cases, inl, [], ◌∙◌, refl, inr, ap, subst,
}
use rust_agent.Runs.{Run, Table, update_where}

-- The primary key.
abbrev pub HasUniqueIds : Table → Type 0
HasUniqueIds [] = Unit
HasUniqueIds (x ∷ xs) = All (λ r. r.id ≢ x.id) xs × HasUniqueIds xs

module _ (p : Run → Bool) (f : Run → Run) where
  pub update_where-All :
      (P : Run → Type 0) (rows : Table)
      → ((r : Run) → In r rows → p r ≡ true → P r → P (f r))
      → All P rows
      → All P (update_where p f rows)
  update_where-All P [] keep h = tt
  update_where-All P (r ∷ rows) keep (x, h) =
      let rest = update_where-All P rows (λ s m. keep s (inr m)) h in
      elim (Bool-cases (p r)) [
        | inl e ↦ rw e (keep r (inl refl) e x, rest)
        | inr e ↦ rw e (x, rest)
      ]

  -- A row that the condition does not select stays.
  pub update_where-In :
      (r : Run) (rows : Table) → p r ≡ false → In r rows → In r (update_where p f rows)
  update_where-In r [] h m = m
  update_where-In r (x ∷ rows) h (inl e) = inl (ground arith)
  update_where-In r (x ∷ rows) h (inr m) = inr (update_where-In r rows h m)

  pub update_where-In_hit :
      (r : Run) (rows : Table) → p r ≡ true → In r rows → In (f r) (update_where p f rows)
  update_where-In_hit r [] h m = m
  update_where-In_hit r (x ∷ rows) h (inl e) = inl (ground arith)
  update_where-In_hit r (x ∷ rows) h (inr m) = inr (update_where-In_hit r rows h m)

  module _ (keeps_id : (r : Run) → (f r).id ≡ r.id) where
    update_where-fresh :
        (n : ℕ) (rows : Table)
        → All (λ r. r.id ≢ n) rows
        → All (λ r. r.id ≢ n) (update_where p f rows)
    update_where-fresh n rows h =
        update_where-All (λ r. r.id ≢ n) rows (λ r _ _ x e. x (sym (keeps_id r) ∙ e)) h

    pub update_where-HasUniqueIds :
        (rows : Table) → HasUniqueIds rows → HasUniqueIds (update_where p f rows)
    update_where-HasUniqueIds [] h = tt
    update_where-HasUniqueIds (x ∷ xs) (fresh, h) =
        let rest = update_where-HasUniqueIds xs h in
        elim (Bool-cases (p x)) [
          | inl e ↦ rw (e, keeps_id x) (update_where-fresh x.id xs fresh, rest)
          | inr e ↦ rw e (update_where-fresh x.id xs fresh, rest)
        ]

pub In-fresh : (r : Run) (n : ℕ) (rows : Table) → All (λ x. x.id ≢ n) rows → In r rows → r.id ≢ n
In-fresh r n rows h m = All-In (λ x. x.id ≢ n) r rows h m

-- Rows with one identifier are one row.
pub HasUniqueIds-eq :
    (r s : Run) (rows : Table) → HasUniqueIds rows → In r rows → In s rows → r.id ≡ s.id → r ≡ s
HasUniqueIds-eq r s [] h m n e = absurd m
HasUniqueIds-eq r s (x ∷ xs) (fresh, h) (inl p) (inl q) e = p ∙ sym q
HasUniqueIds-eq r s (x ∷ xs) (fresh, h) (inl p) (inr n) e =
    absurd (In-fresh s x.id xs fresh n (sym e ∙ ap (λ y. y.id) p))
HasUniqueIds-eq r s (x ∷ xs) (fresh, h) (inr m) (inl q) e =
    absurd (In-fresh r x.id xs fresh m (e ∙ ap (λ y. y.id) q))
HasUniqueIds-eq r s (x ∷ xs) (fresh, h) (inr m) (inr n) e = HasUniqueIds-eq r s xs h m n e

-- A condition on one identifier selects nothing where it is not.
module _ (n : ℕ) (c : Run → Bool) where
  abbrev pub with_id : Run → Bool
  with_id r = r.id == n && c r

  update_where-absent :
      (f : Run → Run) (rows : Table) → All (λ r. r.id ≢ n) rows → update_where with_id f rows ≡ rows
  update_where-absent f [] h = refl
  update_where-absent f (x ∷ xs) h = ground (arith, update_where-absent f xs)

  pub count_if-absent : (rows : Table) → All (λ r. r.id ≢ n) rows → count_if with_id rows ≡ 0
  count_if-absent [] h = refl
  count_if-absent (x ∷ xs) h = ground (arith, count_if-absent xs)

  with_id-id : (r : Run) → with_id r ≡ true → r.id ≡ n
  with_id-id r h = ground arith

  with_id-ne : (r : Run) → r.id ≢ n → with_id r ≡ false
  with_id-ne r h = ground arith

  -- An update of one row that brings it under `q` adds one to the count of `q`.
  pub count_if-update_where :
      (q : Run → Bool) (f : Run → Run) (r : Run) (rows : Table)
      → HasUniqueIds rows
      → In r rows
      → with_id r ≡ true
      → q r ≡ false
      → q (f r) ≡ true
      → count_if q (update_where with_id f rows) ≡ suc (count_if q rows)
  count_if-update_where q f r [] u m h k l = absurd m
  count_if-update_where q f r (x ∷ xs) (fresh, u) (inl e) h k l =
      let h' = subst (λ y. with_id y ≡ true) e h in
      let k' = subst (λ y. q y ≡ false) e k in
      let l' = subst (λ y. q (f y) ≡ true) e l in
      let fresh' = subst (λ j. All (λ y. y.id ≢ j) xs) (with_id-id x h') fresh in
      rw (h', l', k', update_where-absent f xs fresh') refl
  count_if-update_where q f r (x ∷ xs) (fresh, u) (inr m) h k l =
      let ne : x.id ≢ n = λ e. In-fresh r x.id xs fresh m (with_id-id r h ∙ sym e) in
      let ih = count_if-update_where q f r xs u m h k l in rw (with_id-ne x ne) (ground (arith, ih))
