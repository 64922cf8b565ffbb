-- ===== src/Triggers/Poison.antt =====
-- core/src/db.rs: an event of a webhook whose identifier its trigger has used as a key.
use rust_agent.Base.{
  ℕ, Bool, true, ◌≡◌, refl, Text, any, any-In, Option, none, some, inl, inr, Option-cases,
  Bool-cases, ltb, In, In-append_right,
}
use rust_agent.Json.{Value}
use rust_agent.Triggers.{
  Scheduler, Trigger, TriggerEvent, TriggerDispatchRecord, same_dedupe, start_run, record_failure,
  insert_trigger_run, fired, triggered_run, failed_row,
}
use rust_agent.Triggers.Dispatch.{
  Environment, EventRow, next_event, fire_event, dispatch_next_due_webhook_event,
  dispatch_next_due_trigger_with_limits, max_event_payload_bytes, webhook_input, too_large_error,
}
use rust_agent.Triggers.Lifecycle.{Setting, Reach}
use rust_agent.Triggers.Idempotence.{Reach-In, same_dedupe_self}
use rust_agent.Triggers.EventEffects.{settle_event-cases}
use rust_agent.Triggers.Effects.{finished-cases}
use rust_agent.Triggers.Starts.{record_failure-IsFailure}
use rust_agent.Runs.Creation.{create_run}

-- Whether the trigger has a row under the key.
abbrev pub is_used : ℕ → Text → Scheduler → Bool
is_used id key s = any (same_dedupe id key) s.trigger_runs

start_run-used :
    (now run_id : ℕ) (input : Value) (key : Text) (scheduled_for : ℕ) (change : Trigger → Trigger)
    → (t : Trigger) (s : Scheduler) → is_used t.id key s ≡ true
    → start_run now run_id input key scheduled_for change t s ≡ none
unfolding start_run insert_trigger_run
start_run-used now run_id input key scheduled_for change t s used =
    elim (Option-cases (create_run now (triggered_run run_id input t) s.runs)) [
      | inl bad ↦ rw (bad, start_run) refl
      | inr (runs, made) ↦ rw (made, used, start_run, insert_trigger_run) refl
    ]

record_failure-used :
    (scheduled_for : ℕ) (key : Text) (error : Value) (change : Trigger → Trigger) (t : Trigger)
    → (s : Scheduler) → is_used t.id key s ≡ true
    → record_failure scheduled_for key error change t s ≡ none
unfolding record_failure insert_trigger_run
record_failure-used scheduled_for key error change t s used =
    rw (used, record_failure, insert_trigger_run) refl

module _ (env : Environment) where
  fire_event-used :
      (now utc run_id : ℕ) (e : TriggerEvent) (t : Trigger) (s : Scheduler)
      → is_used t.id e.event_id s ≡ true
      → fire_event env now utc run_id e t s ≡ none
  unfolding fire_event
  fire_event-used now utc run_id e t s used =
      elim (Bool-cases (ltb max_event_payload_bytes (env.json_size e.payload_json))) [
        | inl large ↦
            rw
              (
                large,
                record_failure-used utc e.event_id too_large_error (λ x. x) t s used,
                fire_event,
              )
              refl
        | inr small ↦
            rw
              (
                small,
                start_run-used now run_id (webhook_input env run_id t e) e.event_id utc (fired now)
                    t s used,
                fire_event,
              )
              refl
      ]

  -- When the event that is next has an identifier that its trigger has used as a key, the dispatch
  -- of all triggers ends in an error.
  pub dispatch-used :
      (now utc run_id tenant_max : ℕ) (s : Scheduler) (p : EventRow)
      → next_event env now tenant_max s ≡ some p
      → is_used p.1.id p.0.event_id s ≡ true
      → dispatch_next_due_trigger_with_limits env now utc run_id tenant_max s ≡ none
  unfolding dispatch_next_due_trigger_with_limits dispatch_next_due_webhook_event
  dispatch-used now utc run_id tenant_max s p due used =
      rw
        (
          due,
          fire_event-used now utc run_id p.0 p.1 s used,
          dispatch_next_due_webhook_event,
          dispatch_next_due_trigger_with_limits,
        )
        refl

  -- A try of an event that is too large uses its identifier.
  failed-In :
      (now utc run_id : ℕ) (e : TriggerEvent) (t : Trigger) (s s' : Scheduler)
      → (d : Option TriggerDispatchRecord)
      → ltb max_event_payload_bytes (env.json_size e.payload_json) ≡ true
      → fire_event env now utc run_id e t s ≡ some (s', d)
      → In (failed_row t.id utc e.event_id too_large_error) s'.trigger_runs
  unfolding fire_event
  failed-In now utc run_id e t s s' d large q =
      let (done, same) = finished-cases _ none d s' (rw (large, fire_event) at q) in
      let (mid, noted_mid, after) = settle_event-cases _ _ _ s' done in
      let (f, events) =
        record_failure-IsFailure t s mid e.event_id (λ x. x) utc too_large_error noted_mid in
      rw (after, f.rows) (In-append_right _ s.trigger_runs _ (inl refl))

-- Once an event that is larger than 64 KB has had its first try, a dispatch of all triggers ends in
-- an error whenever that event is the next one again, after any steps in between.
pub large_event-blocks :
    {setting : Setting} {s' u : Scheduler} (s : Scheduler) (now utc run_id tenant_max : ℕ)
    → (p : EventRow)
    → (d : Option TriggerDispatchRecord) (now2 utc2 run_id2 tenant_max2 : ℕ) (q : EventRow)
    → next_event setting.env now tenant_max s ≡ some p
    → ltb max_event_payload_bytes (setting.env.json_size p.0.payload_json) ≡ true
    → dispatch_next_due_webhook_event setting.env now utc run_id tenant_max s ≡ some (s', d)
    → Reach setting s' u
    → next_event setting.env now2 tenant_max2 u ≡ some q
    → q.1.id ≡ p.1.id
    → q.0.event_id ≡ p.0.event_id
    → dispatch_next_due_trigger_with_limits setting.env now2 utc2 run_id2 tenant_max2 u ≡ none
unfolding dispatch_next_due_webhook_event
large_event-blocks {setting} {s'} {u} s now utc run_id tenant_max p d now2 utc2 run_id2 tenant_max2
      q due large e after again same_id same_event =
    let row = failed_row p.1.id utc p.0.event_id too_large_error in
    let m =
      failed-In setting.env now utc run_id p.0 p.1 s s' d large
        (rw (due, dispatch_next_due_webhook_event) at e) in
    let used =
      any-In (same_dedupe p.1.id p.0.event_id) row u.trigger_runs (Reach-In row after m)
        (same_dedupe_self row) in
    dispatch-used setting.env now2 utc2 run_id2 tenant_max2 u q again
      (rw (same_id, same_event) used)
