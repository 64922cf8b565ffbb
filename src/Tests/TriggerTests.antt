-- ===== src/Tests/TriggerTests.antt =====
-- The scheduler's tables on concrete inputs.
use rust_agent.Base.{
  ℕ, Text, codes, some, none, Option, [], ◌∷◌, ◌≡◌, refl, inr, true, false, text_eq, decimal, ◌⊎◌,
  ◌+◌,
}
use rust_agent.Json.{Value, null, bool, number, string, array, object, field, end, get}
use rust_agent.Runs.{count_tenant_inflight_runs}
use rust_agent.Runs.Creation.{insert_run}
use rust_agent.Runs.Queue.{class_of_input}
use rust_agent.Runs.Lifecycle.{Reach as RunReach}
use rust_agent.Triggers.{
  Trigger, Scheduler, TriggerDispatchRecord, enabled, webhook, interval, fire_now,
  insert_trigger_run, start_run, record_failure, count_inflight_runs_for_trigger, dispatch_record,
}
use rust_agent.Triggers.Schedule.{
  CronLibrary, fire_rank, fires_before, apply_jitter, next_cron_fire_at,
}
use rust_agent.Triggers.Config.{NewTrigger, new_trigger_row, passes_checks, insert_trigger}
use rust_agent.Triggers.Events.{
  new_event, enqueue_trigger_event, is_enqueued, compute_trigger_event_semantic_dedupe_key,
  canonicalize_json_for_trigger_event_semantic_dedupe, requeue_dead_letter_trigger_event,
}
use rust_agent.Triggers.Manual.{
  merge_json_objects, inject_trace_id, created_manually, duplicate_fire, trigger_unavailable,
  fire_trigger_manually_with_limits,
}
use rust_agent.Triggers.Dispatch.{
  failed_try, EventRow, next_due, next_event, event_before, fire_interval, fire_event, fire_cron,
  dispatch_next_due_interval_trigger_with_limits, dispatch_next_due_cron_trigger,
  dispatch_next_due_webhook_event, dispatch_next_due_trigger_with_limits,
}
use rust_agent.Triggers.Lifecycle.{Setting, Reach, here, next, create, fire, enqueue}
use rust_agent.Triggers.Records.{
  IsRecord, empty_scheduler, Reach-empty_scheduler-IsRecord, Reach-runs,
}
use rust_agent.Triggers.Limits.{IsWithin, dispatch-IsWithin}
use rust_agent.Triggers.Idempotence.{manual-once}
use rust_agent.Triggers.Poison.{large_event-blocks}
use rust_agent.Triggers.Queue.{HasNoConflict, Reach-HasNoConflict, enqueue-once}

running_triggers : Unit {0}
unfolding insert_run count_tenant_inflight_runs class_of_input insert_trigger_run start_run
    record_failure count_inflight_runs_for_trigger fire_rank fires_before apply_jitter
    next_cron_fire_at passes_checks insert_trigger enqueue_trigger_event
    compute_trigger_event_semantic_dedupe_key canonicalize_json_for_trigger_event_semantic_dedupe
    requeue_dead_letter_trigger_event merge_json_objects inject_trace_id
    fire_trigger_manually_with_limits next_due next_event event_before fire_interval fire_event
    fire_cron dispatch_next_due_interval_trigger_with_limits dispatch_next_due_cron_trigger
    dispatch_next_due_webhook_event dispatch_next_due_trigger_with_limits get text_eq decimal
running_triggers = tt

-- The size of a payload is that of its first number.
abbrev test_size : Value → ℕ
test_size null = 4
test_size (bool b) = 4
test_size (number n) = 8
test_size (string t) = 2
test_size (array vs) = 2
test_size (object end) = 2
test_size (object (field k v fs)) = 70000

abbrev test_library : CronLibrary
test_library = record {
  parse_zone = λ t. inr 0;
  parse_schedule = λ t. inr 0;
  next_after = λ schedule zone after. some (after + 60000000);
}

abbrev setting : Setting
setting = record {
  env = record {
    json_text = λ v. [];
    json_size = test_size;
    uuid_text = λ id. [];
    library = test_library;
    jitter_hash = λ a b. 0;
  };
  digest = λ v. [];
}

abbrev tenant : Text
tenant = codes "t"

abbrev asked_trigger : ℕ → NewTrigger
asked_trigger id = record {
  id = id;
  tenant_id = tenant;
  agent_id = 9;
  triggered_by_user_id = none;
  recipe_id = codes "r";
  input_json = object end;
  requested_capabilities = null;
  granted_capabilities = null;
  status = enabled;
  max_attempts = 3;
  max_inflight_runs = 1;
  jitter_seconds = 0;
}

abbrev hook : Trigger
hook = new_trigger_row 0 (asked_trigger 1) webhook none none (codes "UTC") fire_now none 0

abbrev ticker : Trigger
ticker = new_trigger_row 0 (asked_trigger 2) interval (some 60) none (codes "UTC") fire_now none 5

abbrev two_triggers : Scheduler
two_triggers = record { triggers = hook ∷ ticker ∷ []; events = []; trigger_runs = []; runs = [] }

two_triggers-Reach : Reach setting empty_scheduler two_triggers
unfolding running_triggers
two_triggers-Reach = next (next here (create hook refl)) (create ticker refl)

-- The dispatch that a manual fire of the first trigger gives, and the scheduler after it.
abbrev manual_dispatch : TriggerDispatchRecord
manual_dispatch = dispatch_record (codes "manual") (some (codes "k")) 100 6 0 hook

state_of : {A : Type 0} → Option (Scheduler × A) → Scheduler
state_of {A} none = empty_scheduler
state_of {A} (some p) = p.0

after_fire : Scheduler
unfolding running_triggers state_of
after_fire = state_of (
    fire_trigger_manually_with_limits setting.env.uuid_text 6 6 100 tenant 1 (codes "k") none 4
      two_triggers)

after_fire-Reach : Reach setting empty_scheduler after_fire
unfolding running_triggers after_fire state_of
after_fire-Reach =
    next two_triggers-Reach
      (fire 6 6 100 tenant 1 (codes "k") none 4 (created_manually manual_dispatch) refl)

Reach-empty_scheduler-IsRecord_example : IsRecord after_fire
Reach-empty_scheduler-IsRecord_example = Reach-empty_scheduler-IsRecord after_fire-Reach

Reach-runs_example : RunReach [] after_fire.runs
Reach-runs_example = Reach-runs after_fire-Reach

-- The second fire is a duplicate.
manual-once_example :
    (fire_trigger_manually_with_limits setting.env.uuid_text 9 9 101 tenant 1
        (codes "k")
        (some null)
        4
        after_fire
      ≡ some (after_fire, duplicate_fire (some 100)))
    ⊎ (fire_trigger_manually_with_limits setting.env.uuid_text 9 9 101 tenant 1
          (codes "k")
          (some null)
          4
          after_fire
        ≡ some (after_fire, trigger_unavailable))
unfolding running_triggers after_fire state_of
manual-once_example =
    manual-once {setting = setting} {s = two_triggers} {s' = after_fire} {u = after_fire} 6 6 100
      tenant 1 (codes "k") none 4 manual_dispatch 9 9 101 tenant (some null) 4 two_triggers-Reach
      refl here

-- A dispatch fires the interval trigger, after its time has come.
abbrev ticked : TriggerDispatchRecord
ticked = dispatch_record (codes "interval") none 102 5 60000005 ticker

after_tick : Scheduler
unfolding running_triggers after_fire state_of
after_tick = state_of (dispatch_next_due_trigger_with_limits setting.env 7 7 102 4 after_fire)

dispatch-IsWithin_example : IsWithin 4 after_tick ticked
unfolding running_triggers after_fire after_tick state_of
dispatch-IsWithin_example =
    dispatch-IsWithin {setting = setting} {s = after_fire} 7 7 102 4 after_tick ticked
      after_fire-Reach refl

-- An event that is too large, its first try, and the dispatch at the time of its second.
abbrev large_payload : Value
large_payload = object (field (codes "x") (bool true) end)

after_event : Scheduler
unfolding running_triggers
after_event =
    (enqueue_trigger_event setting.env.uuid_text setting.digest 8 50 tenant 1 (codes "e")
      large_payload two_triggers).0

enqueue-once_example :
    ((enqueue_trigger_event setting.env.uuid_text setting.digest 9 51 tenant 1
        (codes "e")
        (object end)
        after_event).0
      ≡ after_event)
    × (is_enqueued
          (enqueue_trigger_event setting.env.uuid_text setting.digest 9 51 tenant 1
            (codes "e")
            (object end)
            after_event).1
        ≡ false)
unfolding running_triggers after_event
enqueue-once_example =
    enqueue-once {setting = setting} {u = after_event} 8 50 tenant 1 (codes "e") large_payload
      two_triggers 9 51 tenant (object end) refl here

Reach-HasNoConflict_example : HasNoConflict after_event.events
unfolding running_triggers after_event
Reach-HasNoConflict_example =
    Reach-HasNoConflict {setting = setting} {s = empty_scheduler} {t = after_event}
      (next two_triggers-Reach (enqueue 8 50 tenant 1 (codes "e") large_payload)) tt

after_try : Scheduler
unfolding running_triggers after_event state_of
after_try = state_of (dispatch_next_due_webhook_event setting.env 8 8 103 4 after_event)

abbrev first_event : EventRow
first_event = (new_event 8 50 tenant 1 (codes "e") [] large_payload, hook)

abbrev second_event : EventRow
second_event = (failed_try 8 3 first_event.0, hook)

large_event-blocks_example :
    dispatch_next_due_trigger_with_limits setting.env 40000000 40000000 104 4 after_try ≡ none
unfolding running_triggers after_event after_try state_of
large_event-blocks_example =
    large_event-blocks {setting = setting} {s' = after_try} {u = after_try} after_event 8 8 103 4
      first_event none 40000000 40000000 104 4 second_event refl refl refl here refl refl refl
