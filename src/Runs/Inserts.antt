-- ===== src/Runs/Inserts.antt =====
-- The two `INSERT INTO runs` of core/src/db.rs: what holds of the table after them.
use rust_agent.Runs.Rows.{HasUniqueIds}
use rust_agent.Base.{
  ◌≡◌, ℕ, In, any, Text, ◌++◌, ◌==◌, Option, false, ◌∷◌, All, [], inl, some, ◌≢◌, inr, Bool-cases,
  arith, subst, ap, eq_of_some, Option-cases, All-append, sym,
}
use rust_agent.Runs.{Run, Table, NewRun}
use rust_agent.Runs.Creation.{
  insert_run, create_run_with_semantic_dedupe_key, is_duplicate, keyed_row,
}

module _ (P : Table → Type 0) where
  pub insert_run-holds :
      (row : Run) (t t' : Table)
      → (any (λ r. r.id == row.id) t ≡ false → P (t ++ row ∷ []))
      → insert_run row t ≡ some t'
      → P t'
  unfolding insert_run
  insert_run-holds row t t' h e = elim (Bool-cases (any (λ r. r.id == row.id) t)) [
    | inl taken ↦ cc (rw (taken, insert_run) at e)
    | inr free ↦ subst P (eq_of_some (rw (free, insert_run) at e)) (h free)
  ]

  -- A duplicate leaves the table.
  pub keyed-holds :
      (now : ℕ) (n : NewRun) (key : Text) (t t' : Table) (made : Option Run)
      → P t
      → (is_duplicate n key t ≡ false
          → any (λ r. r.id == n.id) t ≡ false
          → P (t ++ keyed_row now n key ∷ []))
      → create_run_with_semantic_dedupe_key now n key t ≡ some (t', made)
      → P t'
  unfolding create_run_with_semantic_dedupe_key
  keyed-holds now n key t t' made same h e = elim (Bool-cases (is_duplicate n key t)) [
    | inl there ↦
        subst P (ap (λ x. x.0) (eq_of_some (rw (there, create_run_with_semantic_dedupe_key) at e)))
          same
    | inr absent ↦ elim (Option-cases (insert_run (keyed_row now n key) t)) [
      | inl taken ↦ cc (rw (absent, taken, create_run_with_semantic_dedupe_key) at e)
      | inr (u, new) ↦
          subst P
            (ap (λ x. x.0)
              (eq_of_some (rw (absent, new, create_run_with_semantic_dedupe_key) at e)))
            (insert_run-holds (keyed_row now n key) t u (h absent) new)
    ]
  ]

pub append-HasUniqueIds_fresh :
    (r : Run) (t : Table) → HasUniqueIds t → All (λ x. x.id ≢ r.id) t → HasUniqueIds (t ++ r ∷ [])
append-HasUniqueIds_fresh r [] h m = (tt, tt)
append-HasUniqueIds_fresh r (x ∷ t) (fresh, u) (ne, h) = (
  All-append (λ y. y.id ≢ x.id) t (r ∷ []) fresh (λ e. ne (sym e), tt),
  append-HasUniqueIds_fresh r t u h,
)

none_taken : (n : ℕ) (t : Table) → any (λ r. r.id == n) t ≡ false → All (λ r. r.id ≢ n) t
none_taken n [] h = tt
none_taken n (x ∷ t) h = ground (arith, none_taken n t)

pub append-HasUniqueIds :
    (row : Run) (t : Table)
    → HasUniqueIds t
    → any (λ r. r.id == row.id) t ≡ false
    → HasUniqueIds (t ++ row ∷ [])
append-HasUniqueIds row t u free = append-HasUniqueIds_fresh row t u (none_taken row.id t free)

pub In-append_left : (r : Run) (t u : Table) → In r t → In r (t ++ u)
In-append_left r [] u m = absurd m
In-append_left r (x ∷ t) u (inl e) = inl e
In-append_left r (x ∷ t) u (inr m) = inr (In-append_left r t u m)
