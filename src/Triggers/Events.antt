-- ===== src/Triggers/Events.antt =====
-- core/src/db.rs: the events of webhooks, their semantic key, and their replay. The digest of the
-- serialised JSON is a parameter.
use rust_agent.Base.{
  ℕ, Bool, true, false, ◌&&◌, ◌||◌, not, ltb, ◌==◌, Option, none, some, [], ◌∷◌, ◌++◌, Text, codes,
  text_eq, if◌then◌else◌, find, any, update_rows, is_some,
}
use rust_agent.Json.{
  Value, null, bool, number, string, array, object, Items, nil, cons, Fields, field, end,
}
use rust_agent.Triggers.Config.{is_trigger_of}
use rust_agent.Triggers.{
  Trigger, webhook, TriggerEvent, EventStatus, pending, processed, dead_lettered, Scheduler,
  is_enabled, type_eq,
}

-- `str::cmp`: the order of the bytes of UTF-8 is that of the code points.
abbrev pub text_leb : Text → Text → Bool
text_leb [] t = true
text_leb (c ∷ s) [] = false
text_leb (c ∷ s) (d ∷ t) = ltb c d || c == d && text_leb s t

-- An entry at its place: `sort_by` on the keys is by insertion. An object of the program is a map in
-- the order of its keys (`serde_json::Map` without `preserve_order`), which the sort leaves as it is;
-- a list of fields in another order is no value of the program.
abbrev pub insert_sorted : Text → Value → Fields → Fields
insert_sorted k v end = field k v end
insert_sorted k v (field j w fs) =
    if text_leb k j then field k v (field j w fs) else field j w (insert_sorted k v fs)

unfoldable mutual
  pub canonicalize_json_for_trigger_event_semantic_dedupe : Value → Value
  canonicalize_json_for_trigger_event_semantic_dedupe null = null
  canonicalize_json_for_trigger_event_semantic_dedupe (bool b) = bool b
  canonicalize_json_for_trigger_event_semantic_dedupe (number n) = number n
  canonicalize_json_for_trigger_event_semantic_dedupe (string t) = string t
  canonicalize_json_for_trigger_event_semantic_dedupe (array vs) = array (canonicalize_items vs)
  canonicalize_json_for_trigger_event_semantic_dedupe (object fs) = object (canonicalize_fields fs)

  pub canonicalize_items : Items → Items
  canonicalize_items nil = nil
  canonicalize_items (cons v vs) =
      cons (canonicalize_json_for_trigger_event_semantic_dedupe v) (canonicalize_items vs)

  pub canonicalize_fields : Fields → Fields
  canonicalize_fields end = end
  canonicalize_fields (field k v fs) =
      insert_sorted k (canonicalize_json_for_trigger_event_semantic_dedupe v)
        (canonicalize_fields fs)

pub data TriggerEventEnqueueUnavailableReason : Type 0 where
  trigger_not_found trigger_disabled trigger_type_mismatch : TriggerEventEnqueueUnavailableReason
  trigger_schedule_broken payload_malformed : TriggerEventEnqueueUnavailableReason

pub data TriggerEventEnqueueOutcome : Type 0 where
  enqueued duplicate_event : TriggerEventEnqueueOutcome
  event_refused : TriggerEventEnqueueUnavailableReason → TriggerEventEnqueueOutcome

abbrev pub is_enqueued : TriggerEventEnqueueOutcome → Bool
is_enqueued enqueued = true
is_enqueued duplicate_event = false
is_enqueued (event_refused reason) = false

abbrev pub is_object : Value → Bool
is_object (object fs) = true
is_object v = false

-- The primary key, and the unique indexes on the event and on the semantic key of a trigger.
abbrev pub is_conflict : TriggerEvent → TriggerEvent → Bool
is_conflict new e =
    e.id == new.id
    || e.trigger_id == new.trigger_id
      && (text_eq e.event_id new.event_id || text_eq e.semantic_dedupe_key new.semantic_dedupe_key)

abbrev pub new_event : ℕ → ℕ → Text → ℕ → Text → Text → Value → TriggerEvent
new_event now row_id tenant trigger_id event_id key payload = record {
  id = row_id;
  trigger_id = trigger_id;
  tenant_id = tenant;
  event_id = event_id;
  semantic_dedupe_key = key;
  payload_json = payload;
  status = pending;
  attempts = 0;
  next_attempt_at = now;
  last_error_json = none;
  created_at = now;
  processed_at = none;
  dead_lettered_at = none;
}

-- Why the row of a trigger takes no event.
abbrev pub event_refusal : Trigger → Option TriggerEventEnqueueUnavailableReason
event_refusal t =
    if not (is_enabled t.status)
    then some trigger_disabled
    else if not (type_eq t.trigger_type webhook)
    then some trigger_type_mismatch
    else if is_some t.dead_lettered_at
    then some trigger_schedule_broken
    else none

-- `uuid_text` is the text of a UUID, `digest` the SHA-256 of a JSON value that is serialised.
module _ (uuid_text : ℕ → Text) (digest : Value → Text) where
  unfoldable pub compute_trigger_event_semantic_dedupe_key : Text → ℕ → Value → Text
  compute_trigger_event_semantic_dedupe_key tenant trigger_id payload = digest (
      object (
        field (codes "tenant_id") (string tenant) (
          field (codes "trigger_id") (string (uuid_text trigger_id)) (
            field (codes "payload") (canonicalize_json_for_trigger_event_semantic_dedupe payload)
              end))))

  -- `row_id` is the random identifier of the row.
  unfoldable pub enqueue_trigger_event :
      ℕ → ℕ → Text → ℕ → Text → Value → Scheduler → Scheduler × TriggerEventEnqueueOutcome
  enqueue_trigger_event now row_id tenant trigger_id event_id payload s =
      if not (is_object payload)
      then (s, event_refused payload_malformed)
      else elim (find (is_trigger_of tenant trigger_id) s.triggers) [
        | none ↦ (s, event_refused trigger_not_found)
        | some t ↦ elim (event_refusal t) [
          | some reason ↦ (s, event_refused reason)
          | none ↦
              let key = compute_trigger_event_semantic_dedupe_key tenant trigger_id payload in
              let new = new_event now row_id tenant trigger_id event_id key payload in
              if any (is_conflict new) s.events
              then (s, duplicate_event)
              else (record s { events = s.events ++ new ∷ [] }, enqueued)
        ]
      ]

pub data TriggerEventReplayOutcome : Type 0 where
  requeued event_not_found : TriggerEventReplayOutcome
  not_dead_lettered : EventStatus → TriggerEventReplayOutcome

abbrev pub is_event : Text → ℕ → Text → TriggerEvent → Bool
is_event tenant trigger_id event_id e =
    e.trigger_id == trigger_id && (text_eq e.tenant_id tenant && text_eq e.event_id event_id)

abbrev pub event_requeued : ℕ → TriggerEvent → TriggerEvent
event_requeued now e = record e {
  status = pending;
  attempts = 0;
  next_attempt_at = now;
  last_error_json = none;
  processed_at = none;
  dead_lettered_at = none;
}

-- The unique index lets the conditions select one row at most.
unfoldable pub requeue_dead_letter_trigger_event :
    ℕ → Text → ℕ → Text → Scheduler → Scheduler × TriggerEventReplayOutcome
requeue_dead_letter_trigger_event now tenant trigger_id event_id s =
    elim (find (is_event tenant trigger_id event_id) s.events) [
      | none ↦ (s, event_not_found)
      | some e ↦ elim e.status [
        | pending ↦ (s, not_dead_lettered pending)
        | processed ↦ (s, not_dead_lettered processed)
        | dead_lettered ↦ (
          record s {
            events =
                update_rows (is_event tenant trigger_id event_id) (event_requeued now) s.events;
          },
          requeued,
        )
      ]
    ]
