-- ===== src/Triggers/Starts.antt =====
-- What the statements that start a run, or record a failure, leave in the tables.
use rust_agent.Base.{
  ℕ, false, ◌≡◌, sym, ap, Text, List, [], ◌∷◌, ◌++◌, All, some, Option-cases, Bool-cases, any,
  any-eq-false, inl, inr, eq_of_some, ◌==◌, ◌∙◌,
}
use rust_agent.Json.{Value}
use rust_agent.Runs.{Table, new_row}
use rust_agent.Runs.Creation.{create_run, insert_run}
use rust_agent.Triggers.{
  Trigger, Scheduler, TriggerRun, same_dedupe, insert_trigger_run, start_run, record_failure,
  started_row, failed_row, triggered_run, update_trigger,
}

create_run-added :
    (now run_id : ℕ) (input : Value) (t : Trigger) (rows rows' : Table)
    → create_run now (triggered_run run_id input t) rows ≡ some rows'
    → (rows' ≡ rows ++ new_row now (triggered_run run_id input t) ∷ [])
      × All (λ r. (r.id == run_id) ≡ false) rows
unfolding insert_run
create_run-added now run_id input t rows rows' e =
    elim (Bool-cases (any (λ r. r.id == run_id) rows)) [
      | inl taken ↦ absurd (cc (rw (taken, insert_run) at e))
      | inr free ↦ (
        sym (eq_of_some (rw (free, insert_run) at e)),
        any-eq-false (λ r. r.id == run_id) rows free,
      )
    ]

insert_trigger_run-added :
    (new : TriggerRun) (rows rows' : List TriggerRun)
    → insert_trigger_run new rows ≡ some rows'
    → (rows' ≡ rows ++ new ∷ [])
      × All (λ r. same_dedupe new.trigger_id new.dedupe_key r ≡ false) rows
unfolding insert_trigger_run
insert_trigger_run-added new rows rows' e =
    elim (Bool-cases (any (same_dedupe new.trigger_id new.dedupe_key) rows)) [
      | inl taken ↦ absurd (cc (rw (taken, insert_trigger_run) at e))
      | inr free ↦ (
        sym (eq_of_some (rw (free, insert_trigger_run) at e)),
        any-eq-false (same_dedupe new.trigger_id new.dedupe_key) rows free,
      )
    ]

-- A run is started: it is a new row under a new identifier, and so is its row of `trigger_runs`.
pub record IsStart (now run_id : ℕ) (input : Value) (key : Text) (scheduled_for : ℕ)
    (change : Trigger → Trigger) (t : Trigger) (s s' : Scheduler) : Type 0 where
  pub runs : s'.runs ≡ s.runs ++ new_row now (triggered_run run_id input t) ∷ []
  pub fresh : All (λ r. (r.id == run_id) ≡ false) s.runs
  pub rows : s'.trigger_runs ≡ s.trigger_runs ++ started_row t.id run_id scheduled_for key ∷ []
  pub first : All (λ r. same_dedupe t.id key r ≡ false) s.trigger_runs
  pub triggers : s'.triggers ≡ update_trigger t.id change s.triggers

-- A failure is recorded: no run, and a new row of `trigger_runs`.
pub record IsFailure (scheduled_for : ℕ) (key : Text) (error : Value) (change : Trigger → Trigger)
    (t : Trigger) (s s' : Scheduler) : Type 0 where
  pub runs : s'.runs ≡ s.runs
  pub rows : s'.trigger_runs ≡ s.trigger_runs ++ failed_row t.id scheduled_for key error ∷ []
  pub first : All (λ r. same_dedupe t.id key r ≡ false) s.trigger_runs
  pub triggers : s'.triggers ≡ update_trigger t.id change s.triggers

module _ (t : Trigger) (s s' : Scheduler) (key : Text) (change : Trigger → Trigger)
    (scheduled_for : ℕ) where
  pub start_run-IsStart :
      (now run_id : ℕ) (input : Value)
      → start_run now run_id input key scheduled_for change t s ≡ some s'
      → IsStart now run_id input key scheduled_for change t s s' × (s'.events ≡ s.events)
  unfolding start_run
  start_run-IsStart now run_id input e =
      elim (Option-cases (create_run now (triggered_run run_id input t) s.runs)) [
        | inl none_made ↦ absurd (cc (rw (none_made, start_run) at e))
        | inr (runs, made) ↦
            elim (Option-cases
              (insert_trigger_run (started_row t.id run_id scheduled_for key) s.trigger_runs)) [
                | inl taken ↦ absurd (cc (rw (made, taken, start_run) at e))
                | inr (rows, put) ↦
                    let same = eq_of_some (rw (made, put, start_run) at e) in
                    let (a, fresh) = create_run-added now run_id input t s.runs runs made in
                    let (b, first) =
                      insert_trigger_run-added (started_row t.id run_id scheduled_for key)
                        s.trigger_runs rows put in
                    (
                      record {
                        runs = sym (ap (λ x. x.runs) same) ∙ a;
                        fresh = fresh;
                        rows = sym (ap (λ x. x.trigger_runs) same) ∙ b;
                        first = first;
                        triggers = sym (ap (λ x. x.triggers) same);
                      },
                      sym (ap (λ x. x.events) same),
                    )
              ]
      ]

  pub record_failure-IsFailure :
      (error : Value)
      → record_failure scheduled_for key error change t s ≡ some s'
      → IsFailure scheduled_for key error change t s s' × (s'.events ≡ s.events)
  unfolding record_failure
  record_failure-IsFailure error e =
      elim (Option-cases
        (insert_trigger_run (failed_row t.id scheduled_for key error) s.trigger_runs)) [
          | inl taken ↦ absurd (cc (rw (taken, record_failure) at e))
          | inr (rows, put) ↦
              let same = eq_of_some (rw (put, record_failure) at e) in
              let (b, first) =
                insert_trigger_run-added (failed_row t.id scheduled_for key error) s.trigger_runs
                  rows put in
              (
                record {
                  runs = sym (ap (λ x. x.runs) same);
                  rows = sym (ap (λ x. x.trigger_runs) same) ∙ b;
                  first = first;
                  triggers = sym (ap (λ x. x.triggers) same);
                },
                sym (ap (λ x. x.events) same),
              )
        ]
