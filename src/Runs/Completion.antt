-- ===== src/Runs/Completion.antt =====
-- A run of core/src/db.rs is completed at most once, and by the worker that holds its lease.
use rust_agent.Runs.Lifecycle.{
  create_keyed, Step, Reach, create, claim, renew, succeed, fail, requeue, here, next, is_done,
  requeue_hit-is_expired, Step-HasUniqueIds, Reach-HasUniqueIds,
}
use rust_agent.Runs.Inserts.{insert_run-holds, keyed-holds, In-append_left}
use rust_agent.Base.{
  ℕ, Bool, true, false, All, In, count_if, Text, ◌≡◌, ◌∷◌, arith, All-of_In, refl, ◌==◌, Bool-cases,
  inl, [], subst, inr,
}
use rust_agent.Json.{Value}
use rust_agent.Runs.{
  Run, Table, claim_row, claim_hit, claimed, renew_run_lease, renew_hit, renewed,
  mark_run_succeeded, is_held, as_succeeded, mark_run_failed, as_failed, requeue_expired_runs,
  requeue_hit, requeued, expired_runs, new_row, update_where,
}
use rust_agent.Runs.Creation.{keyed_row}
use rust_agent.Runs.Rows.{HasUniqueIds, update_where-In, update_where-In_hit, HasUniqueIds-eq}

-- No statement touches a row that is done.
Step-is_done :
    {t u : Table} (r : Run) → Step t u → HasUniqueIds t → is_done r ≡ true → In r t → In r u
unfolding claim_row renew_run_lease mark_run_succeeded mark_run_failed requeue_expired_runs
Step-is_done {t} r (create now n {t' = u} q e) un d m =
    insert_run-holds (In r) (new_row now n) t u (λ free. In-append_left r t (new_row now n ∷ []) m)
      e
Step-is_done {t} r (create_keyed now n key {t' = u} {made = x} q e) un d m =
    keyed-holds (In r) now n key t u x m
      (λ absent free. In-append_left r t (keyed_row now n key ∷ []) m) e
Step-is_done {t} r (claim now worker millis id) un d m =
    update_where-In (claim_hit now id) (claimed now worker millis) r t (ground arith) m
Step-is_done {t} r (renew now id worker millis) un d m =
    update_where-In (renew_hit now id worker) (renewed now millis) r t (ground arith) m
Step-is_done {t} r (succeed now id worker) un d m =
    update_where-In (is_held id worker) (as_succeeded now) r t (ground arith) m
Step-is_done {t} r (fail now id worker error) un d m =
    update_where-In (is_held id worker) (as_failed now error) r t (ground arith) m
Step-is_done {t} r (requeue now limit) un d m =
    update_where-In (requeue_hit (expired_runs now limit t)) requeued r t
      (elim (Bool-cases (requeue_hit (expired_runs now limit t) r)) [
        | inl e ↦ absurd (ground (arith, requeue_hit-is_expired now limit t r un m e))
        | inr e ↦ e
      ])
      m

-- A run that has succeeded or failed keeps its row unchanged under every later statement of any
-- worker: its outcome, its times and its attempts are final.
pub Reach-is_done :
    {s t : Table} (r : Run) → Reach s t → HasUniqueIds s → is_done r ≡ true → In r s → In r t
Reach-is_done r here u d m = m
Reach-is_done r (next p st) u d m =
    Step-is_done r st (Reach-HasUniqueIds p u) d (Reach-is_done r p u d m)

-- The row that a worker holds.
count_if-some :
    (p : Run → Bool) (t : Table) → (count_if p t == 1) ≡ true → (r : Run) × In r t × (p r ≡ true)
count_if-some p [] h = cc
count_if-some p (x ∷ t) h = elim (Bool-cases (p x)) [
  | inl e ↦ (x, inl refl, e)
  | inr e ↦ let (r, m, k) = count_if-some p t (rw e at h) in (r, inr m, k)
]

count_if-done :
    (id : ℕ) (worker : Text) (r : Run) (t : Table)
    → HasUniqueIds t
    → In r t
    → r.id ≡ id
    → is_done r ≡ true
    → All (λ x. is_held id worker x ≡ false) t
count_if-done id worker r t u m e d = All-of_In _ t λ x n. elim (Bool-cases (is_held id worker x)) [
  | inl h ↦
      let same : x ≡ r = HasUniqueIds-eq x r t u n m (ground arith) in
      absurd (ground (arith, subst (λ y. is_held id worker y ≡ true) same h))
  | inr h ↦ h
]

count_if-none : (p : Run → Bool) (t : Table) → All (λ x. p x ≡ false) t → count_if p t ≡ 0
count_if-none p [] h = refl
count_if-none p (x ∷ t) (e, h) = rw e (count_if-none p t h)

-- No worker completes a run that is done.
done_is_not_marked :
    (now id : ℕ) (worker : Text) (error : Value) (r : Run) (t : Table)
    → HasUniqueIds t
    → In r t
    → r.id ≡ id
    → is_done r ≡ true
    → ((mark_run_succeeded now id worker t).1 ≡ false)
      × ((mark_run_failed now id worker error t).1 ≡ false)
unfolding mark_run_succeeded mark_run_failed
done_is_not_marked now id worker error r t u m e d =
    let zero_held = count_if-none (is_held id worker) t (count_if-done id worker r t u m e d) in
    (rw zero_held refl, rw zero_held refl)

-- Once a worker has completed a run, with success, it was the run's owner, and from then on, after
-- any statements of any workers, nobody completes that run again: neither with success nor with
-- failure, the same worker included.
pub mark_run_succeeded_once :
    (s : Table) (now id : ℕ) (worker : Text)
    → HasUniqueIds s
    → (mark_run_succeeded now id worker s).1 ≡ true
    → ((r : Run) × In r s × (is_held id worker r ≡ true))
      × ((t : Table) (later : ℕ) (other : Text) (error : Value)
          → Reach (mark_run_succeeded now id worker s).0 t
          → ((mark_run_succeeded later id other t).1 ≡ false)
            × ((mark_run_failed later id other error t).1 ≡ false))
unfolding mark_run_succeeded
mark_run_succeeded_once s now id worker u h =
    let (r, m, k) = count_if-some (is_held id worker) s h in
    let after = update_where (is_held id worker) (as_succeeded now) s in
    let u' : HasUniqueIds after = Step-HasUniqueIds (succeed now id worker) u in
    let m' = update_where-In_hit (is_held id worker) (as_succeeded now) r s k m in
    (
      (r, m, k),
      λ t later other error p.
          done_is_not_marked later id other error (as_succeeded now r) t (Reach-HasUniqueIds p u')
            (Reach-is_done (as_succeeded now r) p u' refl m') (ground arith) refl,
    )
