-- ===== src/Triggers/Lifecycle.antt =====
-- The scheduler's tables under any interleaving of the statements and transactions of
-- core/src/db.rs that change them, each of them atomic, at any time and with any arguments.
use rust_agent.Base.{
  ℕ, true, false, ◌≡◌, refl, sym, ap, subst, Text, List, [], ◌∷◌, ◌++◌, All, any, Option, some,
  Option-cases, Bool-cases, inl, inr, ◌⊎◌, update_rows, ◌==◌, find,
}
use rust_agent.Runs.{Table, new_row}
use rust_agent.Runs.Lifecycle.{
  Step as RunStep, Reach as RunReach, here as run_here, next as run_next,
}
use rust_agent.Json.{Value}
use rust_agent.Triggers.{
  Trigger, TriggerStatus, Scheduler, TriggerDispatchRecord, same_dedupe, failed_row, started_row,
  triggered_run, EventStatus, pending, processed, dead_lettered,
}
use rust_agent.Triggers.Config.{
  insert_trigger, UpdateTriggerParams, update_trigger_status, update_trigger_config, is_trigger_of,
}
use rust_agent.Triggers.Events.{
  is_enqueued, is_object, enqueue_trigger_event, requeue_dead_letter_trigger_event, is_event,
  event_requeued, compute_trigger_event_semantic_dedupe_key, is_conflict, new_event, event_refusal,
}
use rust_agent.Triggers.Manual.{ManualTriggerFireOutcome, fire_trigger_manually_with_limits}
use rust_agent.Triggers.Dispatch.{
  Environment, dispatch_next_due_interval_trigger_with_limits, dispatch_next_due_cron_trigger,
  dispatch_next_due_webhook_event,
}
use rust_agent.Triggers.Effects.{Effect, idle, noted, started, interval-Effect, cron-Effect}
use rust_agent.Triggers.EventEffects.{webhook-Effect, manual-Effect}

-- What the steps take from other code.
pub record Setting : Type 0 where
  pub env : Environment
  pub digest : Value → Text

module _ (setting : Setting) where
  pub data Step (s : Scheduler) : Scheduler → Type 0 where
    create :
        (t : Trigger) {ts : List Trigger}
        → insert_trigger t s.triggers ≡ some ts
        → Step s (record s { triggers = ts })
    set_status :
        (now : ℕ) (tenant : Text) (id : ℕ) (status : TriggerStatus)
        → Step s (record s { triggers = (update_trigger_status now tenant id status s.triggers).0 })
    configure :
        (now utc : ℕ) (tenant : Text) (id : ℕ) (p : UpdateTriggerParams) {ts : List Trigger}
        → {o : Option Trigger}
        → update_trigger_config setting.env.library setting.env.jitter_hash now utc tenant id p
            s.triggers
          ≡ some (ts, o)
        → Step s (record s { triggers = ts })
    enqueue :
        (now row_id : ℕ) (tenant : Text) (id : ℕ) (event_id : Text) (payload : Value)
        → Step s
            (enqueue_trigger_event setting.env.uuid_text setting.digest now row_id tenant id
              event_id payload s).0
    replay :
        (now : ℕ) (tenant : Text) (id : ℕ) (event_id : Text)
        → Step s (requeue_dead_letter_trigger_event now tenant id event_id s).0
    fire :
        (now utc run_id : ℕ) (tenant : Text) (id : ℕ) (key : Text) (payload : Option Value)
        → (tenant_max : ℕ) (o : ManualTriggerFireOutcome) {s' : Scheduler}
        → fire_trigger_manually_with_limits setting.env.uuid_text now utc run_id tenant id key
            payload tenant_max s
          ≡ some (s', o)
        → Step s s'
    dispatch_interval :
        (now utc run_id tenant_max : ℕ) (d : Option TriggerDispatchRecord) {s' : Scheduler}
        → dispatch_next_due_interval_trigger_with_limits setting.env now utc run_id tenant_max s
          ≡ some (s', d)
        → Step s s'
    dispatch_cron :
        (now run_id tenant_max : ℕ) (d : Option TriggerDispatchRecord) {s' : Scheduler}
        → dispatch_next_due_cron_trigger setting.env now run_id tenant_max s ≡ some (s', d)
        → Step s s'
    dispatch_webhook :
        (now utc run_id tenant_max : ℕ) (d : Option TriggerDispatchRecord) {s' : Scheduler}
        → dispatch_next_due_webhook_event setting.env now utc run_id tenant_max s ≡ some (s', d)
        → Step s s'
    work : {runs : Table} → RunStep s.runs runs → Step s (record s { runs = runs })

  pub data Reach (s : Scheduler) : Scheduler → Type 0 where
    here : Reach s s
    next : {t u : Scheduler} → Reach s t → Step t u → Reach s u

  pub Reach-trans : {s t u : Scheduler} → Reach s t → Reach t u → Reach s u
  Reach-trans r here = r
  Reach-trans r (next q st) = next (Reach-trans r q) st

-- What a step does to the runs and to the rows of `trigger_runs`: statements on the runs alone, a
-- row of a failure, or a run with its row.
pub data RowsChange (s s' : Scheduler) : Type 0 where
  quiet : s'.trigger_runs ≡ s.trigger_runs → RunReach s.runs s'.runs → RowsChange s s'
  failure :
      (id scheduled_for : ℕ) (key : Text) (error : Value)
      → s'.trigger_runs ≡ s.trigger_runs ++ failed_row id scheduled_for key error ∷ []
      → All (λ r. same_dedupe id key r ≡ false) s.trigger_runs
      → s'.runs ≡ s.runs
      → RowsChange s s'
  start :
      (now run_id scheduled_for : ℕ) (key : Text) (input : Value) (t : Trigger)
      → s'.trigger_runs ≡ s.trigger_runs ++ started_row t.id run_id scheduled_for key ∷ []
      → All (λ r. same_dedupe t.id key r ≡ false) s.trigger_runs
      → s'.runs ≡ s.runs ++ new_row now (triggered_run run_id input t) ∷ []
      → All (λ r. (r.id == run_id) ≡ false) s.runs
      → RowsChange s s'

quiet_same :
    {s s' : Scheduler} → s'.trigger_runs ≡ s.trigger_runs → s'.runs ≡ s.runs → RowsChange s s'
quiet_same {s} a b = quiet a (subst (RunReach s.runs) (sym b) run_here)

Effect-RowsChange :
    {now run_id tenant_max : ℕ} {s s' : Scheduler} {d : Option TriggerDispatchRecord}
    → Effect now run_id tenant_max s s' d
    → RowsChange s s'
Effect-RowsChange (idle e) = quiet_same (ap (λ x. x.trigger_runs) e) (ap (λ x. x.runs) e)
Effect-RowsChange (noted t scheduled_for key error change m k f c) =
    failure t.id scheduled_for key error f.rows f.first f.runs
Effect-RowsChange {now} {run_id} (started t input key scheduled_for change d m room k f c x y z) =
    start now run_id scheduled_for key input t f.rows f.first f.runs f.fresh

-- An event that is enqueued or refused leaves the other tables.
module _ (uuid_text : ℕ → Text) (digest : Value → Text) (now row_id : ℕ) (tenant : Text) (id : ℕ)
    (event_id : Text) (payload : Value) (s : Scheduler) where
  pub enqueue-cases :
      let r = enqueue_trigger_event uuid_text digest now row_id tenant id event_id payload s in
      let key = compute_trigger_event_semantic_dedupe_key uuid_text digest tenant id payload in
      let new = new_event now row_id tenant id event_id key payload in
      ((r.0 ≡ s) × (is_enqueued r.1 ≡ false))
      ⊎ ((r.0 ≡ record s { events = s.events ++ new ∷ [] })
          × (any (is_conflict new) s.events ≡ false)
          × (is_enqueued r.1 ≡ true))
  unfolding enqueue_trigger_event
  enqueue-cases =
      let key = compute_trigger_event_semantic_dedupe_key uuid_text digest tenant id payload in
      let new = new_event now row_id tenant id event_id key payload in
      elim (Bool-cases (is_object payload)) [
        | inr bad ↦ inl (rw bad (refl, refl))
        | inl good ↦ elim (Option-cases (find (is_trigger_of tenant id) s.triggers)) [
          | inl gone ↦ inl (rw (good, gone) (refl, refl))
          | inr (t, found) ↦ elim (Option-cases (event_refusal t)) [
            | inr (reason, refused) ↦ inl (rw (good, found, refused) (refl, refl))
            | inl taken ↦ elim (Bool-cases (any (is_conflict new) s.events)) [
              | inl clash ↦ inl (rw (good, found, taken, clash) (refl, refl))
              | inr fresh ↦ inr (rw (good, found, taken, fresh) (refl, refl, refl))
            ]
          ]
        ]
      ]

pub EventStatus-cases : (x : EventStatus) → (x ≡ dead_lettered) ⊎ ((x ≡ pending) ⊎ (x ≡ processed))
EventStatus-cases dead_lettered = inl refl
EventStatus-cases pending = inr (inl refl)
EventStatus-cases processed = inr (inr refl)

pub replay-cases :
    (now : ℕ) (tenant : Text) (id : ℕ) (event_id : Text) (s : Scheduler)
    → let s' = (requeue_dead_letter_trigger_event now tenant id event_id s).0 in
      (s' ≡ s)
      ⊎ (s' ≡ record s {
        events = update_rows (is_event tenant id event_id) (event_requeued now) s.events;
      })
unfolding requeue_dead_letter_trigger_event
replay-cases now tenant id event_id s =
    elim (Option-cases (find (is_event tenant id event_id) s.events)) [
      | inl gone ↦ inl (rw (gone, requeue_dead_letter_trigger_event) refl)
      | inr (e, found) ↦ elim (EventStatus-cases e.status) [
        | inl is_dead ↦ inr (rw (found, is_dead, requeue_dead_letter_trigger_event) refl)
        | inr (inl is_pending) ↦
            inl (rw (found, is_pending, requeue_dead_letter_trigger_event) refl)
        | inr (inr is_processed) ↦
            inl (rw (found, is_processed, requeue_dead_letter_trigger_event) refl)
      ]
    ]

pub Step-RowsChange : {setting : Setting} {s s' : Scheduler} → Step setting s s' → RowsChange s s'
Step-RowsChange (create t e) = quiet_same refl refl
Step-RowsChange (set_status now tenant id status) = quiet_same refl refl
Step-RowsChange (configure now utc tenant id p e) = quiet_same refl refl
Step-RowsChange {setting} {s} (enqueue now row_id tenant id event_id payload) =
    elim (enqueue-cases setting.env.uuid_text setting.digest now row_id tenant id event_id payload
      s) [
        | inl (e, _) ↦ quiet_same (ap (λ x. x.trigger_runs) e) (ap (λ x. x.runs) e)
        | inr (e, _, _) ↦ quiet_same (ap (λ x. x.trigger_runs) e) (ap (λ x. x.runs) e)
      ]
Step-RowsChange {s} (replay now tenant id event_id) = elim (replay-cases now tenant id event_id s) [
  | inl e ↦ quiet_same (ap (λ x. x.trigger_runs) e) (ap (λ x. x.runs) e)
  | inr e ↦ quiet_same (ap (λ x. x.trigger_runs) e) (ap (λ x. x.runs) e)
]
Step-RowsChange {setting} {s} {s'} (fire now utc run_id tenant id key payload tenant_max o e) =
    Effect-RowsChange
      (manual-Effect setting.env.uuid_text now utc run_id tenant id key payload tenant_max s s' o e)
Step-RowsChange {setting} {s} {s'} (dispatch_interval now utc run_id tenant_max d e) =
    Effect-RowsChange (interval-Effect setting.env now utc run_id tenant_max s s' d e)
Step-RowsChange {setting} {s} {s'} (dispatch_cron now run_id tenant_max d e) =
    Effect-RowsChange (cron-Effect setting.env now run_id tenant_max s s' d e)
Step-RowsChange {setting} {s} {s'} (dispatch_webhook now utc run_id tenant_max d e) =
    Effect-RowsChange (webhook-Effect setting.env now utc run_id tenant_max s s' d e)
Step-RowsChange (work st) = quiet refl (run_next run_here st)
