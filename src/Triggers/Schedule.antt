-- ===== src/Triggers/Schedule.antt =====
-- core/src/db.rs: when triggers fire. The libraries for cron expressions and time zones are
-- parameters, which give an error's text or a handle, and so is the standard hash of the jitter.
use rust_agent.Base.{
  ℕ, zero, suc, ◌+◌, ◌*◌, ◌/◌, ◌%◌, Bool, ◌&&◌, ◌||◌, ltb, leb, ◌==◌, Option, none, some, Text,
  codes, text_eq, if◌then◌else◌, ◌⊎◌, inl, inr, ◌++◌, max, not, is_some,
}
use rust_agent.Json.{Value}
use rust_agent.Runs.Queue.{class_of_input}
use rust_agent.Triggers.{
  Trigger, TriggerType, Scheduler, is_enabled, type_eq, count_inflight_runs_for_trigger,
  count_inflight_runs_for_tenant,
}

-- What the cron and time zone libraries do: a zone and a schedule from their texts, and the first
-- time of a schedule in a zone after a time, in microseconds.
pub record CronLibrary : Type 0 where
  pub parse_zone : Text → Text ⊎ ℕ
  pub parse_schedule : Text → Text ⊎ ℕ
  pub next_after : ℕ → ℕ → ℕ → Option ℕ

abbrev pub micros : ℕ → ℕ
micros seconds = seconds * 1000000

-- The result is cut to whole seconds.
unfoldable pub next_cron_fire_at : CronLibrary → Text → Text → ℕ → Text ⊎ ℕ
next_cron_fire_at library expression zone after = elim (library.parse_zone zone) [
  | inl err ↦ inl (codes "invalid schedule_timezone `" ++ zone ++ codes "`: " ++ err)
  | inr z ↦ elim (library.parse_schedule expression) [
    | inl err ↦ inl (codes "invalid cron_expression `" ++ expression ++ codes "`: " ++ err)
    | inr schedule ↦ elim (library.next_after schedule z after) [
      | none ↦ inl (codes "cron schedule has no next fire time")
      | some t ↦ inr (micros (t / 1000000))
    ]
  ]
]

-- `jitter_hash` is of the trigger and of a time in nanoseconds.
unfoldable pub apply_jitter : (ℕ → ℕ → ℕ) → ℕ → ℕ → ℕ → ℕ → ℕ
apply_jitter jitter_hash scheduled_for id zero entropy = scheduled_for
apply_jitter jitter_hash scheduled_for id (suc j) entropy =
    scheduled_for + micros (jitter_hash id (entropy * 1000) % suc (suc j))

module _ (json_text : Value → Text) where
  -- The `CASE` of the `ORDER BY`, for what has waited since a time.
  unfoldable pub fire_rank : ℕ → ℕ → Value → ℕ
  fire_rank now since input =
      if text_eq (class_of_input json_text input) (codes "batch") && leb (since + 900000000) now
      then 0
      else if text_eq (class_of_input json_text input) (codes "interactive")
      then 0
      else if text_eq (class_of_input json_text input) (codes "batch")
      then 1
      else 0

  -- The rank, then `next_fire_at ASC, created_at ASC`.
  unfoldable pub fires_before : ℕ → Trigger → Trigger → Bool
  unfolding fire_rank
  fires_before now a b =
      let ra = fire_rank now a.next_fire_at a.input_json in
      let rb = fire_rank now b.next_fire_at b.input_json in
      ltb ra rb
      || ra == rb
        && (ltb a.next_fire_at b.next_fire_at
            || a.next_fire_at == b.next_fire_at && leb a.created_at b.created_at)

-- `tenant_max` is `i64` in the source; a negative one is raised to 1 as 0 is.
abbrev pub has_room : ℕ → Scheduler → Trigger → Bool
has_room tenant_max s t =
    ltb (count_inflight_runs_for_trigger t.id s) t.max_inflight_runs
    && ltb (count_inflight_runs_for_tenant t.tenant_id s) (max tenant_max 1)

abbrev pub is_live : Trigger → Bool
is_live t = is_enabled t.status && not (is_some t.dead_lettered_at)

-- The condition on the triggers of one type that are to be fired.
abbrev pub is_due : TriggerType → ℕ → ℕ → Scheduler → Trigger → Bool
is_due kind now tenant_max s t =
    is_live t
    && (type_eq t.trigger_type kind && (leb t.next_fire_at now && has_room tenant_max s t))
