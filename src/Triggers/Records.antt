-- ===== src/Triggers/Records.antt =====
-- The rows of `trigger_runs` and the runs they name, under all steps of the scheduler.
use rust_agent.Base.{
  ℕ, Bool, true, false, ◌≡◌, ◌≢◌, not, is_some, refl, sym, subst, Text, List, [], ◌∷◌, ◌++◌, All,
  All-append, All-of_In, All-In, eq_of_some, arith, some, ◌==◌,
}
use rust_agent.Json.{Value}
use rust_agent.Runs.{Table, new_row}
use rust_agent.Runs.Creation.{insert_run}
use rust_agent.Runs.Identity.{has_run, has_run-append, has_run-Reach}
use rust_agent.Runs.Lifecycle.{
  Reach as RunReach, here as run_here, next as run_next, create as create_step,
  Reach-trans as RunReach-trans,
}
use rust_agent.Triggers.{
  Trigger, Scheduler, TriggerRun, TriggerRunStatus, created, failed, same_dedupe, failed_row,
  started_row, triggered_run,
}
use rust_agent.Triggers.Lifecycle.{
  Setting, Reach, here, next, RowsChange, quiet, failure, start, Step-RowsChange,
}

abbrev pub is_created : TriggerRunStatus → Bool
is_created created = true
is_created failed = false

-- No two rows have one trigger and one key.
abbrev pub HasUniqueKeysOf : List TriggerRun → Type 0
HasUniqueKeysOf [] = Unit
HasUniqueKeysOf (x ∷ xs) =
    All (λ r. same_dedupe r.trigger_id r.dedupe_key x ≡ false) xs × HasUniqueKeysOf xs

-- No two rows name one run.
abbrev pub HasOwnRuns : List TriggerRun → Type 0
HasOwnRuns [] = Unit
HasOwnRuns (x ∷ xs) =
    All (λ r. (id : ℕ) → r.run_id ≡ some id → x.run_id ≢ some id) xs × HasOwnRuns xs

-- A row that is created names a run of the table; one that failed names none and has an error.
pub record IsRecorded (runs : Table) (r : TriggerRun) : Type 0 where
  pub refers : (id : ℕ) → r.run_id ≡ some id → has_run id runs ≡ true
  pub made : is_created r.status ≡ is_some r.run_id
  pub told : is_some r.error_json ≡ not (is_some r.run_id)

pub record IsRecord (s : Scheduler) : Type 0 where
  pub unique : HasUniqueKeysOf s.trigger_runs
  pub own : HasOwnRuns s.trigger_runs
  pub recorded : All (IsRecorded s.runs) s.trigger_runs

HasUniqueKeysOf-append :
    (rows : List TriggerRun) (r : TriggerRun)
    → All (λ x. same_dedupe r.trigger_id r.dedupe_key x ≡ false) rows
    → HasUniqueKeysOf rows
    → HasUniqueKeysOf (rows ++ r ∷ [])
HasUniqueKeysOf-append [] r h u = (tt, tt)
HasUniqueKeysOf-append (x ∷ xs) r (new, h) (first, u) =
    (All-append _ xs (r ∷ []) first (new, tt), HasUniqueKeysOf-append xs r h u)

HasOwnRuns-append :
    (rows : List TriggerRun) (r : TriggerRun)
    → All (λ x. (id : ℕ) → r.run_id ≡ some id → x.run_id ≢ some id) rows
    → HasOwnRuns rows
    → HasOwnRuns (rows ++ r ∷ [])
HasOwnRuns-append [] r h u = (tt, tt)
HasOwnRuns-append (x ∷ xs) r (new, h) (first, u) =
    (All-append _ xs (r ∷ []) first (new, tt), HasOwnRuns-append xs r h u)

-- A table with the runs of another has what the rows name.
IsRecorded-kept :
    (t u : Table)
    → ((id : ℕ) → has_run id t ≡ true → has_run id u ≡ true)
    → (rows : List TriggerRun) → All (IsRecorded t) rows
    → All (IsRecorded u) rows
IsRecorded-kept t u keep [] h = tt
IsRecorded-kept t u keep (x ∷ xs) (r, h) = (
  record { refers = λ id e. keep id (r.refers id e); made = r.made; told = r.told },
  IsRecorded-kept t u keep xs h,
)

pub no_run : (id : ℕ) (t : Table) → All (λ r. (r.id == id) ≡ false) t → has_run id t ≡ false
no_run id [] h = refl
no_run id (r ∷ t) h = ground (arith, no_run id t)

quiet-IsRecord :
    {s s' : Scheduler}
    → s'.trigger_runs ≡ s.trigger_runs
    → RunReach s.runs s'.runs
    → IsRecord s
    → IsRecord s'
quiet-IsRecord {s} {s'} e r v = record {
  unique = rw e v.unique;
  own = rw e v.own;
  recorded =
      rw e (IsRecorded-kept s.runs s'.runs (λ id. has_run-Reach id r) s.trigger_runs v.recorded);
}

failure-IsRecord :
    (id scheduled_for : ℕ) (key : Text) (error : Value) (s s' : Scheduler)
    → s'.trigger_runs ≡ s.trigger_runs ++ failed_row id scheduled_for key error ∷ []
    → All (λ r. same_dedupe id key r ≡ false) s.trigger_runs
    → s'.runs ≡ s.runs
    → IsRecord s
    → IsRecord s'
failure-IsRecord id scheduled_for key error s s' e first same v =
    let row = failed_row id scheduled_for key error in
    record {
      unique = rw e (HasUniqueKeysOf-append s.trigger_runs row first v.unique);
      own = rw e (
          HasOwnRuns-append s.trigger_runs row (All-of_In _ s.trigger_runs (λ x m n q. absurd (cc)))
            v.own);
      recorded =
          rw (e, same)
            (All-append (IsRecorded s.runs) s.trigger_runs (row ∷ []) v.recorded
              (record { refers = λ n q. absurd (cc); made = refl; told = refl }, tt));
    }

start-IsRecord :
    (now run_id scheduled_for : ℕ) (key : Text) (input : Value) (t : Trigger) (s s' : Scheduler)
    → s'.trigger_runs ≡ s.trigger_runs ++ started_row t.id run_id scheduled_for key ∷ []
    → All (λ r. same_dedupe t.id key r ≡ false) s.trigger_runs
    → s'.runs ≡ s.runs ++ new_row now (triggered_run run_id input t) ∷ []
    → All (λ r. (r.id == run_id) ≡ false) s.runs
    → IsRecord s
    → IsRecord s'
start-IsRecord now run_id scheduled_for key input t s s' e first more fresh v =
    let row = started_row t.id run_id scheduled_for key in
    let run = new_row now (triggered_run run_id input t) in
    let absent = no_run run_id s.runs fresh in
    record {
      unique = rw e (HasUniqueKeysOf-append s.trigger_runs row first v.unique);
      own = rw e (
          HasOwnRuns-append s.trigger_runs row
            (All-of_In _ s.trigger_runs (λ x m n q k.
              let is_there =
                (All-In (IsRecorded s.runs) x s.trigger_runs v.recorded m).refers n k in
              let is_new : run_id ≡ n = eq_of_some q in cc))
            v.own);
      recorded =
          rw (e, more)
            (All-append (IsRecorded (s.runs ++ run ∷ [])) s.trigger_runs (row ∷ [])
              (IsRecorded-kept s.runs (s.runs ++ run ∷ [])
                (λ n h. rw (has_run-append n s.runs (run ∷ []), h) refl) s.trigger_runs v.recorded)
              (
                record {
                  refers = λ n q.
                      let is_new : run_id ≡ n = eq_of_some q in
                      rw (has_run-append n s.runs (run ∷ [])) (ground (arith, is_new));
                  made = refl;
                  told = refl;
                },
                tt,
              ));
    }

pub RowsChange-IsRecord : {s s' : Scheduler} → RowsChange s s' → IsRecord s → IsRecord s'
RowsChange-IsRecord (quiet e r) v = quiet-IsRecord e r v
RowsChange-IsRecord {s} {s'} (failure id scheduled_for key error e first same) v =
    failure-IsRecord id scheduled_for key error s s' e first same v
RowsChange-IsRecord {s} {s'} (start now run_id scheduled_for key input t e first more fresh) v =
    start-IsRecord now run_id scheduled_for key input t s s' e first more fresh v

-- What a step does to the runs is what statements of the table of runs do.
RowsChange-runs : {s s' : Scheduler} → RowsChange s s' → RunReach s.runs s'.runs
unfolding insert_run
RowsChange-runs {s} (quiet e r) = r
RowsChange-runs {s} (failure id scheduled_for key error e first same) =
    subst (RunReach s.runs) (sym same) run_here
RowsChange-runs {s} (start now run_id scheduled_for key input t e first more fresh) =
    subst (RunReach s.runs) (sym more) (
      run_next run_here (
        create_step now (triggered_run run_id input t) refl
          (rw (no_run run_id s.runs fresh, insert_run) refl)))

-- The scheduler refines the queue of runs: whatever its statements and transactions do, in whatever
-- order, the table of runs goes through steps that the statements of the queue take by themselves.
pub Reach-runs : {setting : Setting} {s t : Scheduler} → Reach setting s t → RunReach s.runs t.runs
Reach-runs here = run_here
Reach-runs (next r st) = RunReach-trans (Reach-runs r) (RowsChange-runs (Step-RowsChange st))

pub Reach-IsRecord :
    {setting : Setting} {s t : Scheduler} → Reach setting s t → IsRecord s → IsRecord t
Reach-IsRecord here v = v
Reach-IsRecord (next r st) v = RowsChange-IsRecord (Step-RowsChange st) (Reach-IsRecord r v)

abbrev pub empty_scheduler : Scheduler
empty_scheduler = record { triggers = []; events = []; trigger_runs = []; runs = [] }

-- From empty tables, under all steps in any order: no two rows of `trigger_runs` have one trigger
-- and one key, no two name one run, a row that is created names a run that is there, and a row that
-- failed names none and holds an error.
pub Reach-empty_scheduler-IsRecord :
    {setting : Setting} {t : Scheduler} → Reach setting empty_scheduler t → IsRecord t
Reach-empty_scheduler-IsRecord r =
    Reach-IsRecord r (record { unique = tt; own = tt; recorded = tt })
