-- ===== src/Triggers/Dispatch.antt =====
-- core/src/db.rs: the transactions that fire the next trigger that is due. That `SKIP LOCKED`
-- passes by rows which another transaction holds is left out.
use rust_agent.Base.{
  ℕ, suc, ◌+◌, ◌*◌, Bool, true, false, ◌&&◌, ◌||◌, ltb, leb, ◌==◌, Option, none, some, List, [],
  ◌∷◌, ◌++◌, Text, codes, if◌then◌else◌, filter, sort_by, decimal, map, inl, inr,
}
use rust_agent.Json.{Value, string, object, field, end}
use rust_agent.Triggers.{
  Trigger, TriggerType, interval, webhook, cron, MisfirePolicy, fire_now, skip, Scheduler,
  TriggerEvent, pending, processed, dead_lettered, TriggerDispatchRecord, is_pending, type_eq,
  fired, start_run, record_failure, update_event, dispatch_record, trigger_error_payload,
}
use rust_agent.Triggers.Schedule.{
  CronLibrary, next_cron_fire_at, apply_jitter, micros, fires_before, fire_rank, is_due, is_live,
  has_room,
}
use rust_agent.Triggers.Manual.{merge_json_objects, inject_trace_id}

-- `Ok(Some(dispatch))`, `Ok(None)`, or the error of the transaction.
abbrev pub Dispatched : Type 0
Dispatched = Option (Scheduler × Option TriggerDispatchRecord)

-- The end of a transaction that starts a run, and of one that records a failure.
abbrev pub finished : Option Scheduler → Option TriggerDispatchRecord → Dispatched
finished none d = none
finished (some s) d = some (s, d)

abbrev pub first_of {ℓ} : {A : Type ℓ} → List A → Option A
first_of [] = none
first_of (x ∷ xs) = some x

-- `unix_timestamp_nanos().to_string()`
abbrev pub schedule_key : ℕ → Text
schedule_key time = decimal (time * 1000)

abbrev pub is_skip : MisfirePolicy → Bool
is_skip fire_now = false
is_skip skip = true

abbrev pub interval_of : Trigger → ℕ
interval_of t = elim t.interval_seconds [ none ↦ 0 | some n ↦ micros n ]

abbrev pub expression_of : Trigger → Text
expression_of t = elim t.cron_expression [ none ↦ [] | some e ↦ e ]

abbrev pub moved_to : ℕ → ℕ → Trigger → Trigger
moved_to now next t = record t { next_fire_at = next; updated_at = now }

abbrev pub fired_to : ℕ → ℕ → Trigger → Trigger
fired_to now next t = fired now (record t { next_fire_at = next })

abbrev pub broken : ℕ → Text → Trigger → Trigger
broken now err t = record t {
  dead_lettered_at = some now;
  dead_letter_reason = some (codes "SCHEDULE_COMPUTE_FAILED: " ++ err);
  updated_at = now;
}

-- `MAX_EVENT_PAYLOAD_BYTES`
abbrev pub max_event_payload_bytes : ℕ
max_event_payload_bytes = 64 * 1024

abbrev pub too_large_error : Value
too_large_error =
    trigger_error_payload (codes "EVENT_PAYLOAD_TOO_LARGE")
      (codes "webhook trigger event payload exceeded 64KB") (codes "event_payload")

-- A try of an event that fails, under the maximum of its trigger.
abbrev pub failed_try : ℕ → ℕ → TriggerEvent → TriggerEvent
failed_try now max_attempts e =
    let last = leb max_attempts (suc e.attempts) in
    record e {
      attempts = suc e.attempts;
      status = if last then dead_lettered else pending;
      next_attempt_at = if last then now else now + micros 30;
      last_error_json = some too_large_error;
      dead_lettered_at = if last then some now else none;
    }

abbrev pub as_processed : ℕ → TriggerEvent → TriggerEvent
as_processed now e = record e {
  attempts = suc e.attempts;
  status = processed;
  processed_at = some now;
  next_attempt_at = now;
}

-- An event joined to its trigger.
abbrev pub EventRow : Type 0
EventRow = TriggerEvent × Trigger

abbrev pub is_event_due : ℕ → ℕ → Scheduler → EventRow → Bool
is_event_due now tenant_max s p =
    is_pending p.0.status
    && (leb p.0.next_attempt_at now
        && (is_live p.1 && (type_eq p.1.trigger_type webhook && has_room tenant_max s p.1)))

-- `JOIN triggers t ON t.id = e.trigger_id`
abbrev pub joined_to : List Trigger → TriggerEvent → List EventRow
joined_to ts e = map (λ t. (e, t)) (filter (λ t. t.id == e.trigger_id) ts)

abbrev pub event_rows : List Trigger → List TriggerEvent → List EventRow
event_rows ts [] = []
event_rows ts (e ∷ es) = joined_to ts e ++ event_rows ts es

abbrev pub settle_event : ℕ → (TriggerEvent → TriggerEvent) → Option Scheduler → Option Scheduler
settle_event id f none = none
settle_event id f (some s) = some (record s { events = update_event id f s.events })

-- `if let Some(dispatch) = first? { return Ok(Some(dispatch)) }`, and then the second.
abbrev pub or_next : Dispatched → (Scheduler → Dispatched) → Dispatched
or_next none next = none
or_next (some (s, some d)) next = some (s, some d)
or_next (some (s, none)) next = next s

-- What the transactions take from other code: the text that `->>` gives for a JSON value, the size of
-- one in bytes, the text of a UUID, the cron library and the standard hash.
pub record Environment : Type 0 where
  pub json_text : Value → Text
  pub json_size : Value → ℕ
  pub uuid_text : ℕ → Text
  pub library : CronLibrary
  pub jitter_hash : ℕ → ℕ → ℕ

module _ (env : Environment) where
  unfoldable pub next_due : TriggerType → ℕ → ℕ → Scheduler → Option Trigger
  next_due kind now tenant_max s =
      first_of (
        sort_by (fires_before env.json_text now) (filter (is_due kind now tenant_max s) s.triggers))

  -- `run_id` is the random identifier of the run, `utc` the time of the process.
  unfoldable pub fire_interval : ℕ → ℕ → ℕ → Trigger → Scheduler → Dispatched
  fire_interval now utc run_id t s =
      if is_skip t.misfire_policy && leb (t.next_fire_at + interval_of t) utc
      then finished
          (record_failure t.next_fire_at (schedule_key t.next_fire_at)
            (trigger_error_payload (codes "MISFIRE_SKIPPED")
              (codes "interval trigger misfire skipped") (codes "trigger_policy"))
            (moved_to now
              (apply_jitter env.jitter_hash (utc + interval_of t) t.id t.jitter_seconds utc))
            t s)
          none
      else let next =
          apply_jitter env.jitter_hash (t.next_fire_at + interval_of t) t.id t.jitter_seconds utc in
        finished
          (start_run now run_id t.input_json (schedule_key t.next_fire_at) t.next_fire_at
            (fired_to now next) t s)
          (some (dispatch_record (codes "interval") none run_id t.next_fire_at next t))

  unfoldable pub dispatch_next_due_interval_trigger_with_limits :
      ℕ → ℕ → ℕ → ℕ → Scheduler → Dispatched
  dispatch_next_due_interval_trigger_with_limits now utc run_id tenant_max s =
      elim (next_due interval now tenant_max s) [
        | none ↦ some (s, none)
        | some t ↦ fire_interval now utc run_id t s
      ]

  unfoldable pub fire_cron : ℕ → ℕ → Trigger → Scheduler → Dispatched
  fire_cron now run_id t s =
      elim (next_cron_fire_at env.library (expression_of t) t.schedule_timezone t.next_fire_at) [
        | inl err ↦
            finished
              (record_failure t.next_fire_at (schedule_key t.next_fire_at)
                (trigger_error_payload (codes "CRON_COMPUTE_FAILED") err (codes "schedule"))
                (broken now err) t s)
              none
        | inr value ↦
            let next = apply_jitter env.jitter_hash value t.id t.jitter_seconds t.next_fire_at in
            finished
              (start_run now run_id t.input_json (schedule_key t.next_fire_at) t.next_fire_at
                (fired_to now next) t s)
              (some (dispatch_record (codes "cron") none run_id t.next_fire_at next t))
      ]

  unfoldable pub dispatch_next_due_cron_trigger : ℕ → ℕ → ℕ → Scheduler → Dispatched
  dispatch_next_due_cron_trigger now run_id tenant_max s = elim (next_due cron now tenant_max s) [
    | none ↦ some (s, none)
    | some t ↦ fire_cron now run_id t s
  ]

  -- The rank, then `e.created_at ASC, e.id ASC`.
  unfoldable pub event_before : ℕ → EventRow → EventRow → Bool
  event_before now a b =
      let ra = fire_rank env.json_text now a.0.created_at a.1.input_json in
      let rb = fire_rank env.json_text now b.0.created_at b.1.input_json in
      ltb ra rb
      || ra == rb
        && (ltb a.0.created_at b.0.created_at
            || a.0.created_at == b.0.created_at && leb a.0.id b.0.id)

  unfoldable pub next_event : ℕ → ℕ → Scheduler → Option EventRow
  next_event now tenant_max s = first_of (
      sort_by (event_before now)
        (filter (is_event_due now tenant_max s) (event_rows s.triggers s.events)))

  abbrev pub webhook_envelope : Trigger → TriggerEvent → Value
  webhook_envelope t e = object (
      field (codes "_trigger")
        (object (
          field (codes "type") (string (codes "webhook")) (
            field (codes "trigger_id") (string (env.uuid_text t.id))
              (field (codes "event_id") (string e.event_id) end))))
        (field (codes "event_payload") e.payload_json end))

  abbrev pub webhook_input : ℕ → Trigger → TriggerEvent → Value
  webhook_input run_id t e =
      inject_trace_id (merge_json_objects t.input_json (webhook_envelope t e))
        (env.uuid_text run_id)

  unfoldable pub fire_event : ℕ → ℕ → ℕ → TriggerEvent → Trigger → Scheduler → Dispatched
  fire_event now utc run_id e t s =
      if ltb max_event_payload_bytes (env.json_size e.payload_json)
      then finished
          (settle_event e.id (failed_try now t.max_attempts)
            (record_failure utc e.event_id too_large_error (λ x. x) t s))
          none
      else finished
          (settle_event e.id (as_processed now)
            (start_run now run_id (webhook_input run_id t e) e.event_id utc (fired now) t s))
          (some (dispatch_record (codes "webhook") (some e.event_id) run_id utc utc t))

  unfoldable pub dispatch_next_due_webhook_event : ℕ → ℕ → ℕ → ℕ → Scheduler → Dispatched
  dispatch_next_due_webhook_event now utc run_id tenant_max s = elim (next_event now tenant_max s) [
    | none ↦ some (s, none)
    | some p ↦ fire_event now utc run_id p.0 p.1 s
  ]

  -- An identifier that is drawn for each of the three transactions: at most one is used.
  unfoldable pub dispatch_next_due_trigger_with_limits : ℕ → ℕ → ℕ → ℕ → Scheduler → Dispatched
  dispatch_next_due_trigger_with_limits now utc run_id tenant_max s =
      or_next (dispatch_next_due_webhook_event now utc run_id tenant_max s) (λ s'.
        or_next (dispatch_next_due_cron_trigger now run_id tenant_max s')
          (λ s''. dispatch_next_due_interval_trigger_with_limits now utc run_id tenant_max s''))
