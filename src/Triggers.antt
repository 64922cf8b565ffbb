-- ===== src/Triggers.antt =====
-- core/src/db.rs: triggers, the events of webhooks and the runs that triggers start. The state is
-- the four tables; a transaction gives the new state and its outcome, or none for an error of a
-- constraint, after which the state is the old one. Times are in microseconds.
pub mod Schedule
pub mod Config
pub mod Events
pub mod Manual
pub mod Dispatch
pub mod Starts
pub mod Effects
pub mod EventEffects
pub mod Lifecycle
pub mod Records
pub mod Dispatches
pub mod Limits
pub mod Idempotence
pub mod Poison
pub mod Queue
use rust_agent.Base.{
  ℕ, Bool, true, false, ◌&&◌, ◌||◌, not, ltb, leb, ◌==◌, Option, none, some, List, [], ◌∷◌, ◌++◌,
  Text, codes, text_eq, if◌then◌else◌, any, count_if, is_empty, is_some, update_rows, has_key,
}
use rust_agent.Json.{Value, Fields, object, string, field, end}
use rust_agent.Runs.{Run, NewRun, Table, is_inflight, queued, count_tenant_inflight_runs}
use rust_agent.Runs.Creation.{create_run}

pub data TriggerStatus : Type 0 where
  enabled disabled : TriggerStatus

pub data TriggerType : Type 0 where
  interval webhook cron : TriggerType

pub data MisfirePolicy : Type 0 where
  fire_now skip : MisfirePolicy

-- Identifiers are the 128 bits of a UUID.
pub record Trigger : Type 0 where
  pub id : ℕ
  pub tenant_id : Text
  pub agent_id : ℕ
  pub triggered_by_user_id : Option ℕ
  pub recipe_id : Text
  pub status : TriggerStatus
  pub trigger_type : TriggerType
  pub interval_seconds : Option ℕ
  pub cron_expression : Option Text
  pub schedule_timezone : Text
  pub misfire_policy : MisfirePolicy
  pub max_attempts : ℕ
  pub max_inflight_runs : ℕ
  pub jitter_seconds : ℕ
  pub consecutive_failures : ℕ
  pub dead_lettered_at : Option ℕ
  pub dead_letter_reason : Option Text
  pub webhook_secret_ref : Option Text
  pub input_json : Value
  pub requested_capabilities : Value
  pub granted_capabilities : Value
  pub next_fire_at : ℕ
  pub last_fired_at : Option ℕ
  pub created_at : ℕ
  pub updated_at : ℕ

pub data EventStatus : Type 0 where
  pending processed dead_lettered : EventStatus

pub record TriggerEvent : Type 0 where
  pub id : ℕ
  pub trigger_id : ℕ
  pub tenant_id : Text
  pub event_id : Text
  pub semantic_dedupe_key : Text
  pub payload_json : Value
  pub status : EventStatus
  pub attempts : ℕ
  pub next_attempt_at : ℕ
  pub last_error_json : Option Value
  pub created_at : ℕ
  pub processed_at : Option ℕ
  pub dead_lettered_at : Option ℕ

pub data TriggerRunStatus : Type 0 where
  created failed : TriggerRunStatus

-- The random identifier of a row is left out: nothing reads it.
pub record TriggerRun : Type 0 where
  pub trigger_id : ℕ
  pub run_id : Option ℕ
  pub scheduled_for : ℕ
  pub status : TriggerRunStatus
  pub dedupe_key : Text
  pub error_json : Option Value

pub record Scheduler : Type 0 where
  pub triggers : List Trigger
  pub events : List TriggerEvent
  pub trigger_runs : List TriggerRun
  pub runs : Table

pub record TriggerDispatchRecord : Type 0 where
  pub trigger_id : ℕ
  pub trigger_type : Text
  pub trigger_event_id : Option Text
  pub run_id : ℕ
  pub tenant_id : Text
  pub agent_id : ℕ
  pub triggered_by_user_id : Option ℕ
  pub recipe_id : Text
  pub scheduled_for : ℕ
  pub next_fire_at : ℕ

abbrev pub type_number : TriggerType → ℕ
type_number interval = 0
type_number webhook = 1
type_number cron = 2

abbrev pub type_eq : TriggerType → TriggerType → Bool
type_eq a b = type_number a == type_number b

abbrev pub is_enabled : TriggerStatus → Bool
is_enabled enabled = true
is_enabled disabled = false

abbrev pub is_pending : EventStatus → Bool
is_pending pending = true
is_pending processed = false
is_pending dead_lettered = false

abbrev pub trigger_key : Trigger → ℕ
trigger_key t = t.id

abbrev pub event_key : TriggerEvent → ℕ
event_key e = e.id

-- `UPDATE triggers … WHERE id = $1`, and the same of the events.
abbrev pub update_trigger : ℕ → (Trigger → Trigger) → List Trigger → List Trigger
update_trigger id f rows = update_rows (has_key trigger_key id) f rows

abbrev pub update_event : ℕ → (TriggerEvent → TriggerEvent) → List TriggerEvent → List TriggerEvent
update_event id f rows = update_rows (has_key event_key id) f rows

-- The unique index on the trigger and the key.
abbrev pub same_dedupe : ℕ → Text → TriggerRun → Bool
same_dedupe id key r = r.trigger_id == id && text_eq r.dedupe_key key

unfoldable pub insert_trigger_run : TriggerRun → List TriggerRun → Option (List TriggerRun)
insert_trigger_run new rows =
    if any (same_dedupe new.trigger_id new.dedupe_key) rows then none else some (rows ++ new ∷ [])

abbrev pub trigger_error_payload : Text → Text → Text → Value
trigger_error_payload code message reason_class = object (
    field (codes "code") (string code) (
      field (codes "message") (string message)
        (field (codes "reason_class") (string reason_class) end)))

-- The run of a row of `trigger_runs`, if it is in flight. An identifier is that of one run at most.
abbrev pub starts_inflight : Table → TriggerRun → Bool
starts_inflight runs tr = elim tr.run_id [
  | none ↦ false
  | some id ↦ any (λ r. r.id == id && is_inflight r) runs
]

unfoldable pub count_inflight_runs_for_trigger : ℕ → Scheduler → ℕ
count_inflight_runs_for_trigger id s =
    count_if (λ tr. tr.trigger_id == id && starts_inflight s.runs tr) s.trigger_runs

abbrev pub count_inflight_runs_for_tenant : Text → Scheduler → ℕ
count_inflight_runs_for_tenant tenant s = count_tenant_inflight_runs tenant s.runs

-- What a trigger starts: a run that waits, in its name and with its capabilities.
abbrev pub triggered_run : ℕ → Value → Trigger → NewRun
triggered_run id input t = record {
  id = id;
  tenant_id = t.tenant_id;
  agent_id = t.agent_id;
  triggered_by_user_id = t.triggered_by_user_id;
  recipe_id = t.recipe_id;
  input_json = input;
  requested_capabilities = t.requested_capabilities;
  granted_capabilities = t.granted_capabilities;
  status = queued;
  error_json = none;
}

-- `last_fired_at = now(), consecutive_failures = 0, updated_at = now()`
abbrev pub fired : ℕ → Trigger → Trigger
fired now t = record t { last_fired_at = some now; consecutive_failures = 0; updated_at = now }

abbrev pub started_row : ℕ → ℕ → ℕ → Text → TriggerRun
started_row trigger_id run_id scheduled_for key = record {
  trigger_id = trigger_id;
  run_id = some run_id;
  scheduled_for = scheduled_for;
  status = created;
  dedupe_key = key;
  error_json = none;
}

abbrev pub failed_row : ℕ → ℕ → Text → Value → TriggerRun
failed_row trigger_id scheduled_for key error = record {
  trigger_id = trigger_id;
  run_id = none;
  scheduled_for = scheduled_for;
  status = failed;
  dedupe_key = key;
  error_json = some error;
}

abbrev pub dispatch_record : Text → Option Text → ℕ → ℕ → ℕ → Trigger → TriggerDispatchRecord
dispatch_record kind event run_id scheduled_for next t = record {
  trigger_id = t.id;
  trigger_type = kind;
  trigger_event_id = event;
  run_id = run_id;
  tenant_id = t.tenant_id;
  agent_id = t.agent_id;
  triggered_by_user_id = t.triggered_by_user_id;
  recipe_id = t.recipe_id;
  scheduled_for = scheduled_for;
  next_fire_at = next;
}

-- The statements that start a run: the run, the change of the trigger, the row that joins them.
unfoldable pub start_run :
    ℕ → ℕ → Value → Text → ℕ → (Trigger → Trigger) → Trigger → Scheduler → Option Scheduler
start_run now run_id input key scheduled_for change t s =
    elim (create_run now (triggered_run run_id input t) s.runs) [
      | none ↦ none
      | some runs ↦
          elim (insert_trigger_run (started_row t.id run_id scheduled_for key) s.trigger_runs) [
            | none ↦ none
            | some rows ↦ some (record s {
              triggers = update_trigger t.id change s.triggers;
              trigger_runs = rows;
              runs = runs;
            })
          ]
    ]

-- A failure of a trigger: the change of the trigger and the row that tells of it.
unfoldable pub record_failure :
    ℕ → Text → Value → (Trigger → Trigger) → Trigger → Scheduler → Option Scheduler
record_failure scheduled_for key error change t s =
    elim (insert_trigger_run (failed_row t.id scheduled_for key error) s.trigger_runs) [
      | none ↦ none
      | some rows ↦
          some (record s { triggers = update_trigger t.id change s.triggers; trigger_runs = rows })
    ]
