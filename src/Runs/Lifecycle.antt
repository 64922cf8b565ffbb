-- ===== src/Runs/Lifecycle.antt =====
-- The life of a run under any interleaving of the statements of core/src/db.rs, each of them atomic
-- and at any time, by any worker and with any arguments.
use rust_agent.Runs.ActiveKeys.{
  HasUniqueActiveKeys, update_where-HasUniqueActiveKeys, append-HasUniqueActiveKeys,
  keyed_row-is_new,
}
use rust_agent.Runs.Inserts.{insert_run-holds, keyed-holds, append-HasUniqueIds}
use rust_agent.Base.{
  ℕ, Bool, true, All, In, is_some, ◌≤◌, arith, ◌≡◌, ◌||◌, some, Text, ◌==◌, subst, All-append,
  any_sound, ◌∷◌, In-take, [], sort_by, filter, In-filter, In-sort_by, ==_iff, refl, Option,
}
use rust_agent.Json.{Value}
use rust_agent.Runs.{
  Run, Table, NewRun, queued, succeeded, failed, status_eq, is_running, claim_row, claimed,
  renew_run_lease, mark_run_succeeded, mark_run_failed, requeue_expired_runs, claim_hit, new_row,
  renew_hit, renewed, is_held, as_succeeded, as_failed, requeue_hit, expired_runs, is_expired,
  requeued, expires_before,
}
use rust_agent.Runs.Creation.{create_run, create_run_with_semantic_dedupe_key, keyed_row}
use rust_agent.Runs.Rows.{
  HasUniqueIds, update_where-All, HasUniqueIds-eq, update_where-HasUniqueIds,
}

pub data Step (t : Table) : Table → Type 0 where
  create :
      (now : ℕ) (n : NewRun) {t' : Table}
      → n.status ≡ queued
      → create_run now n t ≡ some t'
      → Step t t'
  create_keyed :
      (now : ℕ) (n : NewRun) (key : Text) {t' : Table} {made : Option Run}
      → n.status ≡ queued
      → create_run_with_semantic_dedupe_key now n key t ≡ some (t', made)
      → Step t t'
  claim : (now : ℕ) (worker : Text) (millis id : ℕ) → Step t (claim_row now worker millis id t).0
  renew :
      (now id : ℕ) (worker : Text) (millis : ℕ) → Step t (renew_run_lease now id worker millis t).0
  succeed : (now id : ℕ) (worker : Text) → Step t (mark_run_succeeded now id worker t).0
  fail :
      (now id : ℕ) (worker : Text) (error : Value)
      → Step t (mark_run_failed now id worker error t).0
  requeue : (now limit : ℕ) → Step t (requeue_expired_runs now limit t).0

pub data Reach (s : Table) : Table → Type 0 where
  here : Reach s s
  next : {t u : Table} → Reach s t → Step t u → Reach s u

pub Reach-trans : {s t u : Table} → Reach s t → Reach t u → Reach s u
Reach-trans r here = r
Reach-trans r (next q st) = next (Reach-trans r q) st

abbrev pub is_done : Run → Bool
is_done r = status_eq r.status succeeded || status_eq r.status failed

-- A row is leased, with an owner and an end, exactly while it runs, and then it has been started
-- and counted; it has a time of finish exactly when it is done.
pub record IsConsistent (r : Run) : Type 0 where
  pub owned : is_some r.lease_owner ≡ is_running r
  pub timed : is_some r.lease_expires_at ≡ is_running r
  pub begun : is_running r ≡ true → is_some r.started_at ≡ true
  pub tried : is_running r ≡ true → 1 ≤ r.attempts
  pub finished : is_some r.finished_at ≡ is_done r

-- The rows that a requeue changes are expired, since the identifiers are distinct.
pub requeue_hit-is_expired :
    (now limit : ℕ) (t : Table) (r : Run)
    → HasUniqueIds t
    → In r t
    → requeue_hit (expired_runs now limit t) r ≡ true
    → is_expired now r ≡ true
requeue_hit-is_expired now limit t r u m h =
    let (e, n, same) = any_sound (λ e. e.id == r.id) (expired_runs now limit t) h in
    let sorted = In-take e limit (sort_by expires_before (filter (is_expired now) t)) n in
    let (k, x) = In-filter (is_expired now) e t (In-sort_by expires_before e _ sorted) in
    subst (λ y. is_expired now y ≡ true) (HasUniqueIds-eq e r t u k m ((==_iff e.id r.id).0 same)) x

Step-IsConsistent :
    {t u : Table} → Step t u → HasUniqueIds t → All IsConsistent t → All IsConsistent u
unfolding claim_row renew_run_lease mark_run_succeeded mark_run_failed requeue_expired_runs
Step-IsConsistent {t} (create now n {t' = u} q e) un h =
    insert_run-holds (All IsConsistent) (new_row now n) t u
      (λ free. All-append IsConsistent t (new_row now n ∷ []) h (ground arith, tt)) e
Step-IsConsistent {t} (create_keyed now n key {t' = u} {made = m} q e) un h =
    keyed-holds (All IsConsistent) now n key t u m h
      (λ absent free. All-append IsConsistent t (keyed_row now n key ∷ []) h (ground arith, tt)) e
Step-IsConsistent {t} (claim now worker millis id) un h =
    update_where-All (claim_hit now id) (claimed now worker millis) IsConsistent t
      (λ r _ e x. ground arith) h
Step-IsConsistent {t} (renew now id worker millis) un h =
    update_where-All (renew_hit now id worker) (renewed now millis) IsConsistent t
      (λ r _ e x. ground arith) h
Step-IsConsistent {t} (succeed now id worker) un h =
    update_where-All (is_held id worker) (as_succeeded now) IsConsistent t (λ r _ e x. ground arith)
      h
Step-IsConsistent {t} (fail now id worker error) un h =
    update_where-All (is_held id worker) (as_failed now error) IsConsistent t
      (λ r _ e x. ground arith) h
Step-IsConsistent {t} (requeue now limit) un h =
    update_where-All (requeue_hit (expired_runs now limit t)) requeued IsConsistent t
      (λ r m e x. ground (arith, requeue_hit-is_expired now limit t r un m e)) h

pub Step-HasUniqueIds : {t u : Table} → Step t u → HasUniqueIds t → HasUniqueIds u
unfolding claim_row renew_run_lease mark_run_succeeded mark_run_failed requeue_expired_runs
Step-HasUniqueIds {t} (create now n {t' = u} q e) un =
    insert_run-holds HasUniqueIds (new_row now n) t u (append-HasUniqueIds (new_row now n) t un) e
Step-HasUniqueIds {t} (create_keyed now n key {t' = u} {made = m} q e) un =
    keyed-holds HasUniqueIds now n key t u m un
      (λ absent. append-HasUniqueIds (keyed_row now n key) t un) e
Step-HasUniqueIds {t} (claim now worker millis id) un =
    update_where-HasUniqueIds (claim_hit now id) (claimed now worker millis) (λ r. refl) t un
Step-HasUniqueIds {t} (renew now id worker millis) un =
    update_where-HasUniqueIds (renew_hit now id worker) (renewed now millis) (λ r. refl) t un
Step-HasUniqueIds {t} (succeed now id worker) un =
    update_where-HasUniqueIds (is_held id worker) (as_succeeded now) (λ r. refl) t un
Step-HasUniqueIds {t} (fail now id worker error) un =
    update_where-HasUniqueIds (is_held id worker) (as_failed now error) (λ r. refl) t un
Step-HasUniqueIds {t} (requeue now limit) un =
    update_where-HasUniqueIds (requeue_hit (expired_runs now limit t)) requeued (λ r. refl) t un

pub Reach-HasUniqueIds : {s t : Table} → Reach s t → HasUniqueIds s → HasUniqueIds t
Reach-HasUniqueIds here u = u
Reach-HasUniqueIds (next r st) u = Step-HasUniqueIds st (Reach-HasUniqueIds r u)

Step-HasUniqueActiveKeys :
    {t u : Table} → Step t u → HasUniqueIds t → HasUniqueActiveKeys t → HasUniqueActiveKeys u
unfolding claim_row renew_run_lease mark_run_succeeded mark_run_failed requeue_expired_runs
Step-HasUniqueActiveKeys {t} (create now n {t' = u} q e) un h =
    insert_run-holds HasUniqueActiveKeys (new_row now n) t u
      (λ free. append-HasUniqueActiveKeys (new_row now n) t (λ tenant key k. ground arith) h) e
Step-HasUniqueActiveKeys {t} (create_keyed now n key {t' = u} {made = m} q e) un h =
    keyed-holds HasUniqueActiveKeys now n key t u m h
      (λ absent free.
        append-HasUniqueActiveKeys (keyed_row now n key) t (keyed_row-is_new now n key t q absent)
          h)
      e
Step-HasUniqueActiveKeys {t} (claim now worker millis id) un h =
    update_where-HasUniqueActiveKeys (claim_hit now id) (claimed now worker millis) t
      (λ tenant key r _ e x. ground arith) h
Step-HasUniqueActiveKeys {t} (renew now id worker millis) un h =
    update_where-HasUniqueActiveKeys (renew_hit now id worker) (renewed now millis) t
      (λ tenant key r _ e x. x) h
Step-HasUniqueActiveKeys {t} (succeed now id worker) un h =
    update_where-HasUniqueActiveKeys (is_held id worker) (as_succeeded now) t
      (λ tenant key r _ e x. ground arith) h
Step-HasUniqueActiveKeys {t} (fail now id worker error) un h =
    update_where-HasUniqueActiveKeys (is_held id worker) (as_failed now error) t
      (λ tenant key r _ e x. ground arith) h
Step-HasUniqueActiveKeys {t} (requeue now limit) un h =
    update_where-HasUniqueActiveKeys (requeue_hit (expired_runs now limit t)) requeued t
      (λ tenant key r m e x. ground (arith, requeue_hit-is_expired now limit t r un m e)) h

pub Reach-HasUniqueActiveKeys :
    {s t : Table} → Reach s t → HasUniqueIds s → HasUniqueActiveKeys s → HasUniqueActiveKeys t
Reach-HasUniqueActiveKeys here u h = h
Reach-HasUniqueActiveKeys (next r st) u h =
    Step-HasUniqueActiveKeys st (Reach-HasUniqueIds r u) (Reach-HasUniqueActiveKeys r u h)

Reach-IsConsistent :
    {s t : Table} → Reach s t → HasUniqueIds s → All IsConsistent s → All IsConsistent t
Reach-IsConsistent here u h = h
Reach-IsConsistent (next r st) u h =
    Step-IsConsistent st (Reach-HasUniqueIds r u) (Reach-IsConsistent r u h)

pub Reach-empty-IsConsistent :
    {t : Table} → Reach [] t → HasUniqueIds t × HasUniqueActiveKeys t × All IsConsistent t
Reach-empty-IsConsistent r = (
  Reach-HasUniqueIds r tt,
  Reach-HasUniqueActiveKeys r tt (λ tenant key. omega arith),
  Reach-IsConsistent r tt tt,
)
