-- ===== src/Runs/Dedupe.antt =====
-- The creation of a run under a dedupe key, core/src/db.rs: what stands in the table after it.
use rust_agent.Runs.{Run, Table, NewRun, queued}
use rust_agent.Runs.Creation.{
  is_duplicate, keyed_row, has_dedupe_key, insert_run, create_run_with_semantic_dedupe_key,
  get_active_run_id_by_semantic_dedupe_key, created_after,
}
use rust_agent.Runs.ActiveKeys.{count_if-eq, HasUniqueActiveKeys}
use rust_agent.Runs.Inserts.{insert_run-holds}
use rust_agent.Base.{
  refl, In-filter, inl, inr, ap, sym, subst, ◌∙◌, any_sound, eq_of_some, Bool-cases, Option-cases,
  text_eq_refl, filter-In, sort_by-In, In-sort_by, ◌≡◌, Text, In, List, ℕ, Option, some, ◌++◌, true,
  [], ◌∷◌, none, sort_by, ◌⊎◌, filter,
}
use rust_agent.Runs.Lifecycle.{create_keyed, next, Reach-empty-IsConsistent, Reach}

head_id :
    (r : Run) (xs : List Run)
    → In r xs
    → ((x : Run) → In x xs → x ≡ r)
    → (elim xs [ [] ↦ none | x ∷ rest ↦ some x.id ]) ≡ some r.id
head_id r [] m one = absurd m
head_id r (x ∷ xs) m one = ap (λ y. some y.id) (one x (inl refl))

-- The query finds the one active run of a key.
get_active_run_id_by_semantic_dedupe_key-eq :
    (tenant key : Text) (r : Run) (t : Table)
    → HasUniqueActiveKeys t
    → In r t
    → has_dedupe_key tenant key r ≡ true
    → get_active_run_id_by_semantic_dedupe_key tenant key t ≡ some r.id
unfolding get_active_run_id_by_semantic_dedupe_key
get_active_run_id_by_semantic_dedupe_key-eq tenant key r t u m h =
    let q = has_dedupe_key tenant key in
    head_id r (sort_by created_after (filter q t))
      (sort_by-In created_after r (filter q t) (filter-In q r t m h))
      λ x n.
        let (k, e) = In-filter q x t (In-sort_by created_after x (filter q t) n) in
        count_if-eq q x r t (u tenant key) k m e h

-- `r` is the one active run of the tenant and the key in the new table, which is the old one if no
-- run was made.
pub record IsTheRun (tenant key : Text) (t t' : Table) (made : Option Run) (r : Run) : Type 0 where
  pub stored : In r t'
  pub active : has_dedupe_key tenant key r ≡ true
  pub only : (s : Run) → In s t' → has_dedupe_key tenant key s ≡ true → s ≡ r
  pub found : get_active_run_id_by_semantic_dedupe_key tenant key t' ≡ some r.id
  pub kept : ((made ≡ none) × (t' ≡ t)) ⊎ ((made ≡ some r) × (t' ≡ t ++ r ∷ []))

IsTheRun-of_stored :
    (tenant key : Text) (t t' : Table) (made : Option Run) (r : Run)
    → HasUniqueActiveKeys t'
    → In r t'
    → has_dedupe_key tenant key r ≡ true
    → ((made ≡ none) × (t' ≡ t)) ⊎ ((made ≡ some r) × (t' ≡ t ++ r ∷ []))
    → IsTheRun tenant key t t' made r
IsTheRun-of_stored tenant key t t' made r u m h kept = record {
  stored = m;
  active = h;
  only = λ s n k. count_if-eq (has_dedupe_key tenant key) s r t' (u tenant key) n m k h;
  found = get_active_run_id_by_semantic_dedupe_key-eq tenant key r t' u m h;
  kept = kept;
}

In-append_last : (r : Run) (t : Table) → In r (t ++ r ∷ [])
In-append_last r [] = inl refl
In-append_last r (x ∷ t) = inr (In-append_last r t)

insert_run-eq : (row : Run) (t t' : Table) → insert_run row t ≡ some t' → t' ≡ t ++ row ∷ []
insert_run-eq row t t' e = insert_run-holds (λ x. x ≡ t ++ row ∷ []) row t t' (λ free. refl) e

-- In any table that the statements reach from the empty one, a creation of a queued run under a
-- dedupe key that is no error leaves exactly one run that waits or runs under that tenant and key,
-- and the query for the key finds it: it is the new run, added to the table, or else none is made and
-- the table is as before.
pub create_run_with_semantic_dedupe_key-IsTheRun :
    (now : ℕ) (n : NewRun) (key : Text) (t t' : Table) (made : Option Run)
    → Reach [] t
    → n.status ≡ queued
    → create_run_with_semantic_dedupe_key now n key t ≡ some (t', made)
    → (r : Run) × IsTheRun n.tenant_id key t t' made r
unfolding create_run_with_semantic_dedupe_key
create_run_with_semantic_dedupe_key-IsTheRun now n key t t' made p q e =
    let after : Reach [] t' = next p (create_keyed now n key q e) in
    let (_, u, _) = Reach-empty-IsConsistent after in
    elim (Bool-cases (is_duplicate n key t)) [
      | inl there ↦
          let pair = eq_of_some (rw (there, create_run_with_semantic_dedupe_key) at e) in
          let (r, m, h) = any_sound (has_dedupe_key n.tenant_id key) t (rw q at there) in
          let same : t ≡ t' = ap (λ x. x.0) pair in
          (
            r,
            IsTheRun-of_stored n.tenant_id key t t' made r u (subst (In r) same m) h
                (inl (sym (ap (λ x. x.1) pair), sym same)),
          )
      | inr absent ↦ elim (Option-cases (insert_run (keyed_row now n key) t)) [
        | inl taken ↦ cc (rw (absent, taken, create_run_with_semantic_dedupe_key) at e)
        | inr (w, new) ↦
            let pair = eq_of_some (rw (absent, new, create_run_with_semantic_dedupe_key) at e) in
            let row = keyed_row now n key in
            let same : t' ≡ t ++ row ∷ [] = sym (ap (λ x. x.0) pair) ∙ insert_run-eq row t w new in
            (
              row,
              IsTheRun-of_stored n.tenant_id key t t' made row u
                  (subst (In row) (sym same) (In-append_last row t))
                  (rw (q, text_eq_refl n.tenant_id, text_eq_refl key) refl)
                  (inr (sym (ap (λ x. x.1) pair), same)),
            )
      ]
    ]
