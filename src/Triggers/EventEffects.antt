-- ===== src/Triggers/EventEffects.antt =====
-- What the transactions for an event, and for a manual fire, do to the tables.
use rust_agent.Base.{
  ◌⊎◌, ℕ, true, false, ◌&&◌, ◌||◌, ◌≡◌, refl, sym, ap, Text, List, [], ◌∷◌, In, arith, Option, none,
  some, Option-cases, Bool-cases, inl, inr, eq_of_some, In-filter, In-sort_by, In-map,
  In-append-cases, filter, find, find_sound, sort_by, ltb, leb, max, ◌==◌, ◌∙◌, subst, codes,
}
use rust_agent.Json.{Value}
use rust_agent.Triggers.{
  Trigger, Scheduler, TriggerEvent, TriggerDispatchRecord, is_pending, update_event, start_run,
  fired, same_dedupe, count_inflight_runs_for_trigger, count_inflight_runs_for_tenant,
  dispatch_record,
}
use rust_agent.Triggers.Schedule.{has_room}
use rust_agent.Triggers.Manual.{
  fire_trigger_manually_with_limits, ManualTriggerFireOutcome, created_manually, duplicate_fire,
  inflight_limited, trigger_unavailable, can_fire, manual_key, manual_input,
}
use rust_agent.Triggers.Dispatch.{
  Environment, is_event_due, event_before, joined_to, event_rows, next_event, settle_event,
  fire_event, dispatch_next_due_webhook_event, max_event_payload_bytes, EventRow, too_large_error,
  webhook_input,
}
use rust_agent.Triggers.Starts.{IsStart, start_run-IsStart, record_failure-IsFailure}
use rust_agent.Triggers.Effects.{
  Effect, idle, noted, started, same_events, tried, handled, unchanged-Effect, finished-cases,
  first_of-In,
}

-- A change of the events after a transaction that left them alone.
pub settle_event-cases :
    (id : ℕ) (f : TriggerEvent → TriggerEvent) (o : Option Scheduler) (s' : Scheduler)
    → settle_event id f o ≡ some s'
    → (m : Scheduler) × (o ≡ some m) × (s' ≡ record m { events = update_event id f m.events })
settle_event-cases id f none s' e = absurd (cc)
settle_event-cases id f (some m) s' e = (m, refl, sym (eq_of_some e))

module _ (env : Environment) where
  event_rows-In :
      (ts : List Trigger) (es : List TriggerEvent) (p : EventRow)
      → In p (event_rows ts es)
      → In p.0 es × In p.1 ts × ((p.1.id == p.0.trigger_id) ≡ true)
  event_rows-In ts [] p m = absurd m
  event_rows-In ts (e ∷ es) p m = elim (In-append-cases p (joined_to ts e) (event_rows ts es) m) [
    | inl n ↦
        let (t, k, q) = In-map (λ t. (e, t)) p (filter (λ t. t.id == e.trigger_id) ts) n in
        let (l, h) = In-filter (λ t. t.id == e.trigger_id) t ts k in rw q (inl refl, l, h)
    | inr n ↦ let (a, b, c) = event_rows-In ts es p n in (inr a, b, c)
  ]

  pub next_event-In :
      (now tenant_max : ℕ) (s : Scheduler) (p : EventRow)
      → next_event env now tenant_max s ≡ some p
      → In p.0 s.events
        × In p.1 s.triggers
        × ((p.1.id == p.0.trigger_id) ≡ true)
        × (is_event_due now tenant_max s p ≡ true)
  unfolding next_event
  next_event-In now tenant_max s p e =
      let due = is_event_due now tenant_max s in
      let rows = event_rows s.triggers s.events in
      let le = event_before env now in
      let (m, h) =
        In-filter due p rows
          (In-sort_by le p (filter due rows) (first_of-In p (sort_by le (filter due rows)) e)) in
      let (a, b, c) = event_rows-In s.triggers s.events p m in (a, b, c, h)

  fire_event-Effect :
      (now utc run_id tenant_max : ℕ) (e : TriggerEvent) (t : Trigger) (s s' : Scheduler)
      → (d : Option TriggerDispatchRecord) → In e s.events
      → In t s.triggers
      → is_pending e.status ≡ true
      → has_room tenant_max s t ≡ true
      → fire_event env now utc run_id e t s ≡ some (s', d)
      → Effect now run_id tenant_max s s' d
  unfolding fire_event
  fire_event-Effect now utc run_id tenant_max e t s s' d m n waits room q =
      elim (Bool-cases (ltb max_event_payload_bytes (env.json_size e.payload_json))) [
        | inl large ↦
            let (done, same) = finished-cases _ none d s' (rw (large, fire_event) at q) in
            let (mid, noted_mid, after) = settle_event-cases _ _ _ s' done in
            let (f, events) =
              record_failure-IsFailure t s mid e.event_id (λ x. x) utc too_large_error noted_mid in
            subst (Effect now run_id tenant_max s s') same (
              rw after (
                noted t utc e.event_id too_large_error (λ x. x) n (λ x. (refl, refl))
                  (record { runs = f.runs; rows = f.rows; first = f.first; triggers = f.triggers })
                  (tried e t.max_attempts m waits (ap (update_event e.id _) events))))
        | inr small ↦
            let r = dispatch_record (codes "webhook") (some e.event_id) run_id utc utc t in
            let (done, same) = finished-cases _ (some r) d s' (rw (small, fire_event) at q) in
            let (mid, started_mid, after) = settle_event-cases _ _ _ s' done in
            let (f, events) =
              start_run-IsStart t s mid e.event_id (fired now) utc now run_id
                (webhook_input env run_id t e) started_mid in
            subst (Effect now run_id tenant_max s s') same (
              rw after (
                started t _ e.event_id utc (fired now) r n room (λ x. (refl, refl))
                  (record {
                    runs = f.runs;
                    fresh = f.fresh;
                    rows = f.rows;
                    first = f.first;
                    triggers = f.triggers;
                  })
                  (handled e m waits (ap (update_event e.id _) events)) refl refl refl))
      ]

  pub webhook-Effect :
      (now utc run_id tenant_max : ℕ) (s s' : Scheduler) (d : Option TriggerDispatchRecord)
      → dispatch_next_due_webhook_event env now utc run_id tenant_max s ≡ some (s', d)
      → Effect now run_id tenant_max s s' d
  unfolding dispatch_next_due_webhook_event
  webhook-Effect now utc run_id tenant_max s s' d e =
      elim (Option-cases (next_event env now tenant_max s)) [
        | inl none_due ↦
            unchanged-Effect now run_id tenant_max s s' d
              (rw (none_due, dispatch_next_due_webhook_event) at e)
        | inr (p, due) ↦
            let (m, n, _, h) = next_event-In now tenant_max s p due in
            fire_event-Effect now utc run_id tenant_max p.0 p.1 s s' d m n (ground arith)
              (ground arith) (rw (due, dispatch_next_due_webhook_event) at e)
      ]

-- What a manual fire reports as a dispatch.
abbrev pub dispatch_of : ManualTriggerFireOutcome → Option TriggerDispatchRecord
dispatch_of (created_manually d) = some d
dispatch_of (duplicate_fire run_id) = none
dispatch_of inflight_limited = none
dispatch_of trigger_unavailable = none

below : (a b c d : ℕ) → leb a b || leb c d ≡ false → ltb b a && ltb d c ≡ true
below a b c d h = ground arith

manual_room :
    (id tenant_max : ℕ) (s : Scheduler) (t : Trigger)
    → id ≡ t.id
    → leb t.max_inflight_runs (count_inflight_runs_for_trigger id s)
        || leb (max tenant_max 1) (count_inflight_runs_for_tenant t.tenant_id s)
      ≡ false
    → has_room tenant_max s t ≡ true
manual_room id tenant_max s t e room =
    below t.max_inflight_runs (count_inflight_runs_for_trigger t.id s) (max tenant_max 1)
      (count_inflight_runs_for_tenant t.tenant_id s) (rw e at room)

-- What a manual fire does: it leaves the state, or it starts a run of a trigger of the tenant.
pub record IsManualStart (now utc run_id tenant_max id : ℕ) (key : Text) (s s' : Scheduler)
    (o : ManualTriggerFireOutcome) : Type 0 where
  pub trigger : Trigger
  pub input : Value
  pub is_there : In trigger s.triggers
  pub is_its : trigger.id ≡ id
  pub room : has_room tenant_max s trigger ≡ true
  pub start : IsStart now run_id input (manual_key key) utc (fired now) trigger s s'
  pub same : s'.events ≡ s.events
  pub outcome :
      o
      ≡ created_manually
          (dispatch_record (codes "manual") (some key) run_id utc trigger.next_fire_at trigger)

module _ (uuid_text : ℕ → Text) (now utc run_id : ℕ) (tenant : Text) (id : ℕ) (key : Text)
    (payload : Option Value) (tenant_max : ℕ) (s s' : Scheduler)
    (o : ManualTriggerFireOutcome) where
  manual-kept :
      (o' : ManualTriggerFireOutcome)
      → dispatch_of o' ≡ none
      → ◌≡◌ {A = Option (Scheduler × ManualTriggerFireOutcome)} (some (s, o')) (some (s', o))
      → (s' ≡ s) × (dispatch_of o ≡ none)
  manual-kept o' q e =
      let same = eq_of_some e in
      (sym (ap (λ p. p.0) same), sym (ap (λ p. dispatch_of p.1) same) ∙ q)

  pub manual-cases :
      fire_trigger_manually_with_limits uuid_text now utc run_id tenant id key payload tenant_max s
        ≡ some (s', o)
      → ((s' ≡ s) × (dispatch_of o ≡ none)) ⊎ IsManualStart now utc run_id tenant_max id key s s' o
  unfolding fire_trigger_manually_with_limits
  manual-cases e = elim (Option-cases (find (can_fire tenant id) s.triggers)) [
    | inl gone ↦
        inl
          (manual-kept trigger_unavailable refl (rw (gone, fire_trigger_manually_with_limits) at e))
    | inr (t, found) ↦
        let (m, can) = find_sound (can_fire tenant id) s.triggers t found in
        let id_is : id ≡ t.id = ground arith in
        elim (Option-cases (find (same_dedupe id (manual_key key)) s.trigger_runs)) [
          | inr (row, used) ↦ inl (
              manual-kept (duplicate_fire row.run_id) refl
                (rw (found, used, fire_trigger_manually_with_limits) at e))
          | inl free ↦
              elim (Bool-cases (
                leb t.max_inflight_runs (count_inflight_runs_for_trigger id s)
                || leb (max tenant_max 1) (count_inflight_runs_for_tenant t.tenant_id s))) [
                  | inl full ↦ inl (
                      manual-kept inflight_limited refl
                        (rw (found, free, full, fire_trigger_manually_with_limits) at e))
                  | inr room ↦
                      let input = manual_input uuid_text run_id id key payload t in
                      elim (Option-cases
                        (start_run now run_id input (manual_key key) utc (fired now) t s)) [
                          | inl bad ↦ absurd (
                              cc (
                                rw (found, free, room, bad, fire_trigger_manually_with_limits) at
                                  e))
                          | inr (s'', made) ↦
                              let same = eq_of_some (
                                rw (found, free, room, made, fire_trigger_manually_with_limits) at
                                  e) in
                              let at_s' = made ∙ ap (λ p. some p.0) same in
                              let (f, events) =
                                start_run-IsStart t s s' (manual_key key) (fired now) utc now run_id
                                  input at_s' in
                              inr (record {
                                trigger = t;
                                input = input;
                                is_there = m;
                                is_its = sym id_is;
                                room = manual_room id tenant_max s t id_is room;
                                start = f;
                                same = events;
                                outcome = sym (ap (λ p. p.1) same);
                              })
                        ]
                ]
        ]
  ]

  pub manual-Effect :
      fire_trigger_manually_with_limits uuid_text now utc run_id tenant id key payload tenant_max s
        ≡ some (s', o)
      → Effect now run_id tenant_max s s' (dispatch_of o)
  manual-Effect e = elim (manual-cases e) [
    | inl (same, none_made) ↦ subst (Effect now run_id tenant_max s s') (sym none_made) (idle same)
    | inr f ↦
        subst (λ x. Effect now run_id tenant_max s s' (dispatch_of x)) (sym f.outcome)
          (started f.trigger f.input (manual_key key) utc (fired now) _ f.is_there f.room
            (λ x. (refl, refl)) f.start (same_events f.same) refl refl refl)
  ]
