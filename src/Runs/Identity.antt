-- ===== src/Runs/Identity.antt =====
-- The identifiers of the runs under the statements of core/src/db.rs: none is ever removed.
use rust_agent.Runs.Lifecycle.{
  create_keyed, Step, create, claim, renew, succeed, fail, requeue, Reach, here, next,
}
use rust_agent.Runs.Inserts.{insert_run-holds, keyed-holds}
use rust_agent.Base.{
  ℕ, Bool, true, ◌≡◌, any, ◌==◌, ◌++◌, ◌∷◌, [], refl, Bool-cases, inl, inr, arith, ◌||◌,
}
use rust_agent.Runs.{
  Run, Table, new_row, update_where, claim_row, renew_run_lease, mark_run_succeeded,
  mark_run_failed, requeue_expired_runs, claim_hit, claimed, renew_hit, renewed, is_held,
  as_succeeded, as_failed, requeue_hit, expired_runs, requeued,
}
use rust_agent.Runs.Creation.{keyed_row}

-- Whether a run has the identifier.
abbrev pub has_run : ℕ → Table → Bool
has_run n t = any (λ r. r.id == n) t

pub has_run-append : (n : ℕ) (t u : Table) → has_run n (t ++ u) ≡ has_run n t || has_run n u
has_run-append n [] u = refl
has_run-append n (r ∷ t) u = ground (arith, has_run-append n t u)

has_run-update_where :
    (n : ℕ) (p : Run → Bool) (f : Run → Run)
    → ((r : Run) → (f r).id ≡ r.id)
    → (t : Table) → has_run n (update_where p f t) ≡ has_run n t
has_run-update_where n p f keeps [] = refl
has_run-update_where n p f keeps (r ∷ t) =
    let rest = has_run-update_where n p f keeps t in
    elim (Bool-cases (p r)) [ inl e ↦ rw (e, keeps r, rest) refl | inr e ↦ rw (e, rest) refl ]

has_run-Step : (n : ℕ) {t u : Table} → Step t u → has_run n t ≡ true → has_run n u ≡ true
unfolding claim_row renew_run_lease mark_run_succeeded mark_run_failed requeue_expired_runs
has_run-Step n {t} (create now m {t' = u} q e) h =
    insert_run-holds (λ x. has_run n x ≡ true) (new_row now m) t u
      (λ free. rw (has_run-append n t (new_row now m ∷ []), h) refl) e
has_run-Step n {t} (create_keyed now m key {t' = u} {made = x} q e) h =
    keyed-holds (λ y. has_run n y ≡ true) now m key t u x h
      (λ absent free. rw (has_run-append n t (keyed_row now m key ∷ []), h) refl) e
has_run-Step n {t} (claim now worker millis id) h =
    rw (has_run-update_where n (claim_hit now id) (claimed now worker millis) (λ r. refl) t) h
has_run-Step n {t} (renew now id worker millis) h =
    rw (has_run-update_where n (renew_hit now id worker) (renewed now millis) (λ r. refl) t) h
has_run-Step n {t} (succeed now id worker) h =
    rw (has_run-update_where n (is_held id worker) (as_succeeded now) (λ r. refl) t) h
has_run-Step n {t} (fail now id worker error) h =
    rw (has_run-update_where n (is_held id worker) (as_failed now error) (λ r. refl) t) h
has_run-Step n {t} (requeue now limit) h =
    rw (has_run-update_where n (requeue_hit (expired_runs now limit t)) requeued (λ r. refl) t) h

pub has_run-Reach : (n : ℕ) {t u : Table} → Reach t u → has_run n t ≡ true → has_run n u ≡ true
has_run-Reach n here h = h
has_run-Reach n (next r st) h = has_run-Step n st (has_run-Reach n r h)
