-- ===== src/Triggers/Manual.antt =====
-- core/src/db.rs: the input of a triggered run, and `fire_trigger_manually_with_limits`. The text
-- of a UUID is a parameter.
use rust_agent.Base.{
  ℕ, Bool, ◌&&◌, ◌||◌, leb, ◌==◌, Option, none, some, ◌++◌, Text, codes, text_eq, if◌then◌else◌,
  find, max,
}
use rust_agent.Json.{Value, null, string, object, Fields, field, end, insert_field}
use rust_agent.Triggers.{
  Trigger, Scheduler, TriggerDispatchRecord, same_dedupe, fired, start_run, dispatch_record,
  count_inflight_runs_for_trigger, count_inflight_runs_for_tenant,
}
use rust_agent.Triggers.Schedule.{is_live}

abbrev pub insert_fields : Fields → Fields → Fields
insert_fields base end = base
insert_fields base (field k v fs) = insert_fields (insert_field k v base) fs

unfoldable pub merge_json_objects : Value → Value → Value
merge_json_objects (object fs) (object overlay) = object (insert_fields fs overlay)
merge_json_objects (object fs) overlay = object fs
merge_json_objects other overlay =
    object (field (codes "input") other (field (codes "_trigger") overlay end))

unfoldable pub inject_trace_id : Value → Text → Value
inject_trace_id (object fs) trace = object (insert_field (codes "_trace") (string trace) fs)
inject_trace_id other trace =
    object (field (codes "_trace") (string trace) (field (codes "input") other end))

pub data ManualTriggerFireOutcome : Type 0 where
  created_manually : TriggerDispatchRecord → ManualTriggerFireOutcome
  duplicate_fire : (run_id : Option ℕ) → ManualTriggerFireOutcome
  inflight_limited : ManualTriggerFireOutcome
  trigger_unavailable : ManualTriggerFireOutcome

abbrev pub manual_key : Text → Text
manual_key key = codes "manual:" ++ key

abbrev pub can_fire : Text → ℕ → Trigger → Bool
can_fire tenant id t = t.id == id && (text_eq t.tenant_id tenant && is_live t)

abbrev or_null : Option Value → Value
or_null none = null
or_null (some v) = v

module _ (uuid_text : ℕ → Text) where
  abbrev pub manual_envelope : ℕ → Text → Option Value → Value
  manual_envelope id key payload = object (
      field (codes "_trigger")
        (object (
          field (codes "type") (string (codes "manual")) (
            field (codes "trigger_id") (string (uuid_text id))
              (field (codes "idempotency_key") (string key) end))))
        (field (codes "manual_payload") (or_null payload) end))

  abbrev pub manual_input : ℕ → ℕ → Text → Option Value → Trigger → Value
  manual_input run_id id key payload t =
      inject_trace_id (merge_json_objects t.input_json (manual_envelope id key payload))
        (uuid_text run_id)

  -- `run_id` is the random identifier of the run, `utc` the time of the process.
  unfoldable pub fire_trigger_manually_with_limits :
      ℕ
      → ℕ
      → ℕ
      → Text
      → ℕ
      → Text
      → Option Value
      → ℕ
      → Scheduler
      → Option (Scheduler × ManualTriggerFireOutcome)
  fire_trigger_manually_with_limits now utc run_id tenant id key payload tenant_max s =
      elim (find (can_fire tenant id) s.triggers) [
        | none ↦ some (s, trigger_unavailable)
        | some t ↦ elim (find (same_dedupe id (manual_key key)) s.trigger_runs) [
          | some row ↦ some (s, duplicate_fire row.run_id)
          | none ↦
              if leb t.max_inflight_runs (count_inflight_runs_for_trigger id s)
                || leb (max tenant_max 1) (count_inflight_runs_for_tenant t.tenant_id s)
              then some (s, inflight_limited)
              else elim (start_run now run_id (manual_input run_id id key payload t)
                  (manual_key key) utc (fired now) t s) [
                    | none ↦ none
                    | some s' ↦ some (
                      s',
                      created_manually
                          (dispatch_record (codes "manual") (some key) run_id utc t.next_fire_at t),
                    )
                  ]
        ]
      ]
