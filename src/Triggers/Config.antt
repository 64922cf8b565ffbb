-- ===== src/Triggers/Config.antt =====
-- core/src/db.rs: the statements that create triggers and change their settings, and the lease of
-- the scheduler. The checks are those of the migrations 0003, 0004 and 0005.
use rust_agent.Base.{
  ℕ, Bool, false, ◌&&◌, ◌||◌, not, ltb, ◌==◌, Option, none, some, List, [], ◌∷◌, ◌++◌, Text, codes,
  text_eq, if◌then◌else◌, any, find, is_empty, is_some, inl, inr, update_rows, has_key, ◌+◌, true,
}
use rust_agent.Json.{Value}
use rust_agent.Runs.{lease_end}
use rust_agent.Triggers.{
  Trigger, TriggerStatus, TriggerType, interval, webhook, cron, MisfirePolicy, fire_now,
  trigger_key,
}
use rust_agent.Triggers.Schedule.{CronLibrary, next_cron_fire_at, apply_jitter, micros}

-- `triggers_interval_seconds_check`
abbrev pub fits_type : TriggerType → Option ℕ → Option Text → Bool
fits_type interval none expression = false
fits_type interval (some n) expression = ltb 0 n && not (is_some expression)
fits_type webhook seconds expression = not (is_some seconds) && not (is_some expression)
fits_type cron seconds expression = not (is_some seconds) && is_some expression

unfoldable pub passes_checks : Trigger → Bool
passes_checks t =
    fits_type t.trigger_type t.interval_seconds t.cron_expression
    && (ltb 0 t.max_attempts && (ltb 0 t.max_inflight_runs && not (is_empty t.schedule_timezone)))

-- What the records `NewIntervalTrigger`, `NewWebhookTrigger` and `NewCronTrigger` have in common.
pub record NewTrigger : Type 0 where
  pub id : ℕ
  pub tenant_id : Text
  pub agent_id : ℕ
  pub triggered_by_user_id : Option ℕ
  pub recipe_id : Text
  pub input_json : Value
  pub requested_capabilities : Value
  pub granted_capabilities : Value
  pub status : TriggerStatus
  pub max_attempts : ℕ
  pub max_inflight_runs : ℕ
  pub jitter_seconds : ℕ

-- The row of an `INSERT INTO triggers`; the columns that no statement names have their defaults.
abbrev pub new_trigger_row :
    ℕ
    → NewTrigger
    → TriggerType
    → Option ℕ
    → Option Text
    → Text
    → MisfirePolicy
    → Option Text
    → ℕ
    → Trigger
new_trigger_row now n kind seconds expression zone misfire secret next = record {
  id = n.id;
  tenant_id = n.tenant_id;
  agent_id = n.agent_id;
  triggered_by_user_id = n.triggered_by_user_id;
  recipe_id = n.recipe_id;
  status = n.status;
  trigger_type = kind;
  interval_seconds = seconds;
  cron_expression = expression;
  schedule_timezone = zone;
  misfire_policy = misfire;
  max_attempts = n.max_attempts;
  max_inflight_runs = n.max_inflight_runs;
  jitter_seconds = n.jitter_seconds;
  consecutive_failures = 0;
  dead_lettered_at = none;
  dead_letter_reason = none;
  webhook_secret_ref = secret;
  input_json = n.input_json;
  requested_capabilities = n.requested_capabilities;
  granted_capabilities = n.granted_capabilities;
  next_fire_at = next;
  last_fired_at = none;
  created_at = now;
  updated_at = now;
}

-- `none` is the error of a primary key that is taken or of a check.
unfoldable pub insert_trigger : Trigger → List Trigger → Option (List Trigger)
unfolding passes_checks
insert_trigger t rows =
    if any (has_key trigger_key t.id) rows || not (passes_checks t)
    then none
    else some (rows ++ t ∷ [])

unfoldable pub create_interval_trigger :
    ℕ → NewTrigger → ℕ → MisfirePolicy → Option Text → ℕ → List Trigger → Option (List Trigger)
create_interval_trigger now n seconds misfire secret next rows =
    insert_trigger
      (new_trigger_row now n interval (some seconds) none (codes "UTC") misfire secret next) rows

unfoldable pub create_webhook_trigger :
    ℕ → NewTrigger → Option Text → List Trigger → Option (List Trigger)
create_webhook_trigger now n secret rows =
    insert_trigger (new_trigger_row now n webhook none none (codes "UTC") fire_now secret now) rows

pub record UpdateTriggerParams : Type 0 where
  pub interval_seconds : Option ℕ
  pub cron_expression : Option Text
  pub schedule_timezone : Option Text
  pub misfire_policy : Option MisfirePolicy
  pub max_attempts : Option ℕ
  pub max_inflight_runs : Option ℕ
  pub jitter_seconds : Option ℕ
  pub webhook_secret_ref : Option Text

module _ (library : CronLibrary) (jitter_hash : ℕ → ℕ → ℕ) where
  -- `utc` is the time of the process.
  unfoldable pub create_cron_trigger :
      ℕ → ℕ → NewTrigger → Text → Text → MisfirePolicy → List Trigger → Option (List Trigger)
  create_cron_trigger now utc n expression zone misfire rows =
      elim (next_cron_fire_at library expression zone utc) [
        | inl err ↦ none
        | inr next ↦
            insert_trigger
              (new_trigger_row now n cron none (some expression) zone misfire none
                (apply_jitter jitter_hash next n.id n.jitter_seconds utc))
              rows
      ]

abbrev pub or_else {ℓ} : {A : Type ℓ} → Option A → Option A → Option A
or_else (some a) o = some a
or_else none o = o

abbrev pub unwrap_or {ℓ} : {A : Type ℓ} → Option A → A → A
unwrap_or (some a) b = a
unwrap_or none b = b

abbrev pub is_trigger_of : Text → ℕ → Trigger → Bool
is_trigger_of tenant id t = text_eq t.tenant_id tenant && t.id == id

unfoldable pub get_trigger : Text → ℕ → List Trigger → Option Trigger
get_trigger tenant id rows = find (is_trigger_of tenant id) rows

-- The new table, and the row that `RETURNING` gives.
unfoldable pub update_trigger_status :
    ℕ → Text → ℕ → TriggerStatus → List Trigger → List Trigger × Option Trigger
update_trigger_status now tenant id status rows =
    let change = λ (t : Trigger). record t { status = status; updated_at = now } in
    (
      update_rows (is_trigger_of tenant id) change rows,
      elim (find (is_trigger_of tenant id) rows) [ none ↦ none | some t ↦ some (change t) ],
    )

-- The settings of a row after an update, and the time at which it fires next.
abbrev pub with_settings : ℕ → UpdateTriggerParams → ℕ → Trigger → Trigger
with_settings now p next t = record t {
  interval_seconds = or_else p.interval_seconds t.interval_seconds;
  cron_expression = or_else p.cron_expression t.cron_expression;
  schedule_timezone = unwrap_or p.schedule_timezone t.schedule_timezone;
  misfire_policy = unwrap_or p.misfire_policy t.misfire_policy;
  max_attempts = unwrap_or p.max_attempts t.max_attempts;
  max_inflight_runs = unwrap_or p.max_inflight_runs t.max_inflight_runs;
  jitter_seconds = unwrap_or p.jitter_seconds t.jitter_seconds;
  webhook_secret_ref = or_else p.webhook_secret_ref t.webhook_secret_ref;
  next_fire_at = next;
  updated_at = now;
}

module _ (library : CronLibrary) (jitter_hash : ℕ → ℕ → ℕ) where
  -- `none` is an error of the schedule.
  unfoldable pub updated_schedule : ℕ → UpdateTriggerParams → Trigger → Option ℕ
  updated_schedule utc p t = elim t.trigger_type [
    | interval ↦ some (utc + micros (unwrap_or (or_else p.interval_seconds t.interval_seconds) 60))
    | webhook ↦ some t.next_fire_at
    | cron ↦ elim (or_else p.cron_expression t.cron_expression) [
      | none ↦ none
      | some expression ↦
          elim (next_cron_fire_at library expression
            (unwrap_or p.schedule_timezone t.schedule_timezone) utc) [
              | inl err ↦ none
              | inr next ↦ some next
            ]
    ]
  ]

  -- The row that is read decides the settings, also of a row that has changed since; here nothing
  -- comes between. The outer `none` is an error, the inner one a trigger that is not there.
  unfoldable pub update_trigger_config :
      ℕ → ℕ → Text → ℕ → UpdateTriggerParams → List Trigger → Option (List Trigger × Option Trigger)
  unfolding get_trigger passes_checks
  update_trigger_config now utc tenant id p rows = elim (get_trigger tenant id rows) [
    | none ↦ some (rows, none)
    | some t ↦ elim (updated_schedule utc p t) [
      | none ↦ none
      | some next ↦
          let jitter = unwrap_or p.jitter_seconds t.jitter_seconds in
          let new = with_settings now p (apply_jitter jitter_hash next t.id jitter utc) t in
          if passes_checks new
          then some (update_rows (is_trigger_of tenant id) (λ r. new) rows, some new)
          else none
    ]
  ]

pub record SchedulerLease : Type 0 where
  pub lease_name : Text
  pub lease_owner : Text
  pub lease_expires_at : ℕ

abbrev pub has_name : Text → SchedulerLease → Bool
has_name name l = text_eq l.lease_name name

-- The new table, and whether the lease is the owner's.
unfoldable pub try_acquire_scheduler_lease :
    ℕ → Text → Text → ℕ → List SchedulerLease → List SchedulerLease × Bool
try_acquire_scheduler_lease now name owner millis rows =
    let new : SchedulerLease = record {
      lease_name = name;
      lease_owner = owner;
      lease_expires_at = lease_end now millis;
    } in
    elim (find (has_name name) rows) [
      | none ↦ (rows ++ new ∷ [], true)
      | some l ↦
          if ltb l.lease_expires_at now || text_eq l.lease_owner owner
          then (update_rows (has_name name) (λ r. new) rows, true)
          else (rows, false)
    ]
