-- ===== src/Triggers/Effects.antt =====
-- What each transaction that fires a trigger does to the tables.
use rust_agent.Base.{
  ℕ, true, ◌&&◌, ◌≡◌, refl, sym, ap, Text, List, [], ◌∷◌, In, arith, Option, none, some,
  Option-cases, Bool-cases, inl, inr, ◌⊎◌, eq_of_some, In-filter, In-sort_by, filter, sort_by, leb,
  subst, ◌+◌,
}
use rust_agent.Json.{Value}
use rust_agent.Triggers.{
  Trigger, TriggerType, interval, cron, Scheduler, TriggerEvent, TriggerDispatchRecord, is_pending,
  update_event, start_run, record_failure,
}
use rust_agent.Triggers.Schedule.{next_cron_fire_at, fires_before, is_due, has_room}
use rust_agent.Triggers.Dispatch.{
  Environment, Dispatched, finished, first_of, schedule_key, interval_of, is_skip, failed_try,
  as_processed, next_due, fire_interval, dispatch_next_due_interval_trigger_with_limits, fire_cron,
  dispatch_next_due_cron_trigger, expression_of,
}
use rust_agent.Triggers.Starts.{IsStart, IsFailure, start_run-IsStart, record_failure-IsFailure}

abbrev pub KeepsLimit : (Trigger → Trigger) → Type 0
KeepsLimit f = (t : Trigger) → ((f t).id ≡ t.id) × ((f t).max_inflight_runs ≡ t.max_inflight_runs)

-- What happens to the events: nothing, or one that is pending has a try that fails or is processed.
pub data EventChange (now : ℕ) (s s' : Scheduler) : Type 0 where
  same_events : s'.events ≡ s.events → EventChange now s s'
  tried :
      (e : TriggerEvent) (max_attempts : ℕ)
      → In e s.events
      → is_pending e.status ≡ true
      → s'.events ≡ update_event e.id (failed_try now max_attempts) s.events
      → EventChange now s s'
  handled :
      (e : TriggerEvent)
      → In e s.events
      → is_pending e.status ≡ true
      → s'.events ≡ update_event e.id (as_processed now) s.events
      → EventChange now s s'

pub data Effect (now run_id tenant_max : ℕ) (s s' : Scheduler)
    : Option TriggerDispatchRecord → Type 0 where
  idle : s' ≡ s → Effect now run_id tenant_max s s' none
  noted :
      (t : Trigger) (scheduled_for : ℕ) (key : Text) (error : Value) (change : Trigger → Trigger)
      → In t s.triggers
      → KeepsLimit change
      → IsFailure scheduled_for key error change t s s'
      → EventChange now s s'
      → Effect now run_id tenant_max s s' none
  started :
      (t : Trigger) (input : Value) (key : Text) (scheduled_for : ℕ) (change : Trigger → Trigger)
      → (d : TriggerDispatchRecord) → In t s.triggers
      → has_room tenant_max s t ≡ true
      → KeepsLimit change
      → IsStart now run_id input key scheduled_for change t s s'
      → EventChange now s s'
      → d.run_id ≡ run_id
      → d.trigger_id ≡ t.id
      → d.tenant_id ≡ t.tenant_id
      → Effect now run_id tenant_max s s' (some d)

pub first_of-In : {A : Type 0} (a : A) (xs : List A) → first_of xs ≡ some a → In a xs
first_of-In {A} a [] e = cc
first_of-In {A} a (x ∷ xs) e = inl (sym (eq_of_some e))

pub finished-cases :
    (o : Option Scheduler) (d d' : Option TriggerDispatchRecord) (s' : Scheduler)
    → finished o d ≡ some (s', d')
    → (o ≡ some s') × (d ≡ d')
finished-cases none d d' s' e = absurd (cc)
finished-cases (some s) d d' s' e =
    (ap (λ p. some p.0) (eq_of_some e), ap (λ p. p.1) (eq_of_some e))

-- The end of a transaction that records a failure and does not touch the events.
module _ (now run_id tenant_max : ℕ) (s s' : Scheduler) (d : Option TriggerDispatchRecord)
    (t : Trigger) (m : In t s.triggers) (key : Text) (scheduled_for : ℕ)
    (change : Trigger → Trigger) (keeps : KeepsLimit change) where
  record_failure-Effect :
      (error : Value)
      → finished (record_failure scheduled_for key error change t s) none ≡ some (s', d)
      → Effect now run_id tenant_max s s' d
  record_failure-Effect error e =
      let (done, same) =
        finished-cases (record_failure scheduled_for key error change t s) none d s' e in
      let (f, events) = record_failure-IsFailure t s s' key change scheduled_for error done in
      subst (Effect now run_id tenant_max s s') same
        (noted t scheduled_for key error change m keeps f (same_events events))

  start_run-Effect :
      (input : Value) (r : TriggerDispatchRecord)
      → has_room tenant_max s t ≡ true
      → r.run_id ≡ run_id
      → r.trigger_id ≡ t.id
      → r.tenant_id ≡ t.tenant_id
      → finished (start_run now run_id input key scheduled_for change t s) (some r) ≡ some (s', d)
      → Effect now run_id tenant_max s s' d
  start_run-Effect input r room a b c e =
      let (done, same) =
        finished-cases (start_run now run_id input key scheduled_for change t s) (some r) d s' e in
      let (f, events) = start_run-IsStart t s s' key change scheduled_for now run_id input done in
      subst (Effect now run_id tenant_max s s') same
        (started t input key scheduled_for change r m room keeps f (same_events events) a b c)

pub unchanged-Effect :
    (now run_id tenant_max : ℕ) (s s' : Scheduler) (d : Option TriggerDispatchRecord)
    → ◌≡◌ {A = Dispatched} (some (s, none)) (some (s', d))
    → Effect now run_id tenant_max s s' d
unchanged-Effect now run_id tenant_max s s' d e =
    subst (Effect now run_id tenant_max s s') (ap (λ p. p.1) (eq_of_some e))
      (idle (sym (ap (λ p. p.0) (eq_of_some e))))

sum_cases : {A B : Type 0} (o : A ⊎ B) → ((a : A) × (o ≡ inl a)) ⊎ ((b : B) × (o ≡ inr b))
sum_cases (inl a) = inl (a, refl)
sum_cases (inr b) = inr (b, refl)

module _ (env : Environment) where
  pub next_due-In :
      (kind : TriggerType) (now tenant_max : ℕ) (s : Scheduler) (t : Trigger)
      → next_due env kind now tenant_max s ≡ some t
      → In t s.triggers × (is_due kind now tenant_max s t ≡ true)
  unfolding next_due
  next_due-In kind now tenant_max s t e =
      let found = filter (is_due kind now tenant_max s) s.triggers in
      In-filter (is_due kind now tenant_max s) t s.triggers (
        In-sort_by (fires_before env.json_text now) t found
          (first_of-In t (sort_by (fires_before env.json_text now) found) e))

  fire_interval-Effect :
      (now utc run_id tenant_max : ℕ) (t : Trigger) (s s' : Scheduler)
      → (d : Option TriggerDispatchRecord) → In t s.triggers
      → has_room tenant_max s t ≡ true
      → fire_interval env now utc run_id t s ≡ some (s', d)
      → Effect now run_id tenant_max s s' d
  unfolding fire_interval
  fire_interval-Effect now utc run_id tenant_max t s s' d m room e =
      elim (Bool-cases (is_skip t.misfire_policy && leb (t.next_fire_at + interval_of t) utc)) [
        | inl skipped ↦
            record_failure-Effect now run_id tenant_max s s' d t m (schedule_key t.next_fire_at)
              t.next_fire_at _ (λ x. (refl, refl)) _ (rw (skipped, fire_interval) at e)
        | inr fires ↦
            start_run-Effect now run_id tenant_max s s' d t m (schedule_key t.next_fire_at)
              t.next_fire_at _ (λ x. (refl, refl)) _ _ room refl refl refl
              (rw (fires, fire_interval) at e)
      ]

  pub interval-Effect :
      (now utc run_id tenant_max : ℕ) (s s' : Scheduler) (d : Option TriggerDispatchRecord)
      → dispatch_next_due_interval_trigger_with_limits env now utc run_id tenant_max s
        ≡ some (s', d)
      → Effect now run_id tenant_max s s' d
  unfolding dispatch_next_due_interval_trigger_with_limits
  interval-Effect now utc run_id tenant_max s s' d e =
      elim (Option-cases (next_due env interval now tenant_max s)) [
        | inl none_due ↦
            unchanged-Effect now run_id tenant_max s s' d
              (rw (none_due, dispatch_next_due_interval_trigger_with_limits) at e)
        | inr (t, due) ↦
            let (m, k) = next_due-In interval now tenant_max s t due in
            fire_interval-Effect now utc run_id tenant_max t s s' d m (ground arith)
              (rw (due, dispatch_next_due_interval_trigger_with_limits) at e)
      ]

  fire_cron-Effect :
      (now run_id tenant_max : ℕ) (t : Trigger) (s s' : Scheduler)
      → (d : Option TriggerDispatchRecord) → In t s.triggers
      → has_room tenant_max s t ≡ true
      → fire_cron env now run_id t s ≡ some (s', d)
      → Effect now run_id tenant_max s s' d
  unfolding fire_cron
  fire_cron-Effect now run_id tenant_max t s s' d m room e =
      elim (sum_cases
        (next_cron_fire_at env.library (expression_of t) t.schedule_timezone t.next_fire_at)) [
          | inl (err, q) ↦
              record_failure-Effect now run_id tenant_max s s' d t m (schedule_key t.next_fire_at)
                t.next_fire_at _ (λ x. (refl, refl)) _ (rw (q, fire_cron) at e)
          | inr (value, q) ↦
              start_run-Effect now run_id tenant_max s s' d t m (schedule_key t.next_fire_at)
                t.next_fire_at _ (λ x. (refl, refl)) _ _ room refl refl refl
                (rw (q, fire_cron) at e)
        ]

  pub cron-Effect :
      (now run_id tenant_max : ℕ) (s s' : Scheduler) (d : Option TriggerDispatchRecord)
      → dispatch_next_due_cron_trigger env now run_id tenant_max s ≡ some (s', d)
      → Effect now run_id tenant_max s s' d
  unfolding dispatch_next_due_cron_trigger
  cron-Effect now run_id tenant_max s s' d e =
      elim (Option-cases (next_due env cron now tenant_max s)) [
        | inl none_due ↦
            unchanged-Effect now run_id tenant_max s s' d
              (rw (none_due, dispatch_next_due_cron_trigger) at e)
        | inr (t, due) ↦
            let (m, k) = next_due-In cron now tenant_max s t due in
            fire_cron-Effect now run_id tenant_max t s s' d m (ground arith)
              (rw (due, dispatch_next_due_cron_trigger) at e)
      ]
