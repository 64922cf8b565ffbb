-- ===== src/Triggers/Queue.antt =====
-- The events of webhooks under all steps of the scheduler: their rows, their keys and their times.
use rust_agent.Base.{
  ℕ, Bool, true, false, ◌≡◌, refl, ap, Text, List, [], ◌∷◌, ◌++◌, All, All-append, All-of_In,
  All-In, any, arith, Option, none, ◌==◌, ◌&&◌, ◌∙◌, inl, inr, update_rows, update_rows-All,
  has_key, Bool-cases, text_eq, text_eq_refl,
}
use rust_agent.Json.{Value}
use rust_agent.Triggers.{Scheduler, TriggerEvent, pending, event_key, TriggerDispatchRecord}
use rust_agent.Triggers.Events.{
  is_event, event_requeued, is_conflict, new_event, enqueue_trigger_event, is_enqueued,
  compute_trigger_event_semantic_dedupe_key,
}
use rust_agent.Triggers.Dispatch.{failed_try, as_processed}
use rust_agent.Triggers.Effects.{
  Effect, idle, noted, started, EventChange, same_events, tried, handled, interval-Effect,
  cron-Effect,
}
use rust_agent.Triggers.EventEffects.{webhook-Effect, manual-Effect}
use rust_agent.Triggers.Lifecycle.{
  Setting, Step, create, set_status, configure, enqueue, replay, fire, dispatch_interval,
  dispatch_cron, dispatch_webhook, work, Reach, here, next, enqueue-cases, replay-cases,
}

-- The rows of events under a step: changed in place, each change one of these three, or one added.
pub data Changed : (TriggerEvent → TriggerEvent) → Type 0 where
  by_try : (now max_attempts : ℕ) → Changed (failed_try now max_attempts)
  by_run : (now : ℕ) → Changed (as_processed now)
  by_replay : (now : ℕ) → Changed (event_requeued now)

pub data QueueChange (s s' : Scheduler) : Type 0 where
  kept : s'.events ≡ s.events → QueueChange s s'
  changed :
      (p : TriggerEvent → Bool) {f : TriggerEvent → TriggerEvent}
      → Changed f
      → s'.events ≡ update_rows p f s.events
      → QueueChange s s'
  added :
      (e : TriggerEvent)
      → e.status ≡ pending
      → e.processed_at ≡ none
      → e.dead_lettered_at ≡ none
      → any (is_conflict e) s.events ≡ false
      → s'.events ≡ s.events ++ e ∷ []
      → QueueChange s s'

EventChange-QueueChange : {now : ℕ} {s s' : Scheduler} → EventChange now s s' → QueueChange s s'
EventChange-QueueChange (same_events e) = kept e
EventChange-QueueChange {now} (tried e n m w q) = changed (has_key event_key e.id) (by_try now n) q
EventChange-QueueChange {now} (handled e m w q) = changed (has_key event_key e.id) (by_run now) q

Effect-QueueChange :
    {now run_id tenant_max : ℕ} {s s' : Scheduler} {d : Option TriggerDispatchRecord}
    → Effect now run_id tenant_max s s' d
    → QueueChange s s'
Effect-QueueChange (idle e) = kept (ap (λ x. x.events) e)
Effect-QueueChange (noted t scheduled_for key error change m k f c) = EventChange-QueueChange c
Effect-QueueChange (started t input key scheduled_for change d m room k f c x y z) =
    EventChange-QueueChange c

pub Step-QueueChange : {setting : Setting} {s s' : Scheduler} → Step setting s s' → QueueChange s s'
Step-QueueChange (create t e) = kept refl
Step-QueueChange (set_status now tenant id status) = kept refl
Step-QueueChange (configure now utc tenant id p e) = kept refl
Step-QueueChange {setting} {s} (enqueue now row_id tenant id event_id payload) =
    elim (enqueue-cases setting.env.uuid_text setting.digest now row_id tenant id event_id payload
      s) [
        | inl (e, _) ↦ kept (ap (λ x. x.events) e)
        | inr (e, free, _) ↦ added _ refl refl refl free (ap (λ x. x.events) e)
      ]
Step-QueueChange {setting} {s} (replay now tenant id event_id) =
    elim (replay-cases now tenant id event_id s) [
      | inl e ↦ kept (ap (λ x. x.events) e)
      | inr e ↦ changed (is_event tenant id event_id) (by_replay now) (ap (λ x. x.events) e)
    ]
Step-QueueChange {setting} {s} {s'} (fire now utc run_id tenant id key payload tenant_max o e) =
    Effect-QueueChange
      (manual-Effect setting.env.uuid_text now utc run_id tenant id key payload tenant_max s s' o e)
Step-QueueChange {setting} {s} {s'} (dispatch_interval now utc run_id tenant_max d e) =
    Effect-QueueChange (interval-Effect setting.env now utc run_id tenant_max s s' d e)
Step-QueueChange {setting} {s} {s'} (dispatch_cron now run_id tenant_max d e) =
    Effect-QueueChange (cron-Effect setting.env now run_id tenant_max s s' d e)
Step-QueueChange {setting} {s} {s'} (dispatch_webhook now utc run_id tenant_max d e) =
    Effect-QueueChange (webhook-Effect setting.env now utc run_id tenant_max s s' d e)
Step-QueueChange (work st) = kept refl

-- No two events of a trigger have one identifier or one semantic key, and none has the row of another.
abbrev pub HasNoConflict : List TriggerEvent → Type 0
HasNoConflict [] = Unit
HasNoConflict (x ∷ xs) = All (λ e. is_conflict e x ≡ false) xs × HasNoConflict xs

HasNoConflict-append :
    (es : List TriggerEvent) (e : TriggerEvent)
    → any (is_conflict e) es ≡ false
    → HasNoConflict es
    → HasNoConflict (es ++ e ∷ [])
HasNoConflict-append [] e free u = (tt, tt)
HasNoConflict-append (x ∷ es) e free (first, u) =
    (All-append _ es (e ∷ []) first (ground arith, tt), HasNoConflict-append es e (ground arith) u)

-- A change of an event leaves what tells it from others.
keeps_conflict :
    {f : TriggerEvent → TriggerEvent}
    → Changed f
    → (x y : TriggerEvent)
    → (is_conflict (f x) y ≡ is_conflict x y) × (is_conflict y (f x) ≡ is_conflict y x)
keeps_conflict (by_try now n) x y = (refl, refl)
keeps_conflict (by_run now) x y = (refl, refl)
keeps_conflict (by_replay now) x y = (refl, refl)

update_rows-HasNoConflict :
    (p : TriggerEvent → Bool) {f : TriggerEvent → TriggerEvent} (c : Changed f)
    → (es : List TriggerEvent) → HasNoConflict es
    → HasNoConflict (update_rows p f es)
update_rows-HasNoConflict p {f} c [] u = tt
update_rows-HasNoConflict p {f} c (x ∷ es) (first, u) =
    let rest = update_rows-HasNoConflict p c es u in
    let later =
      update_rows-All p f (λ e. is_conflict e x ≡ false) es
        (λ e m h k. (keeps_conflict c e x).0 ∙ k) first in
    elim (Bool-cases (p x)) [
      | inl e ↦ rw e (
        All-of_In _ (update_rows p f es)
            (λ y m. (keeps_conflict c x y).1 ∙ All-In (λ e. is_conflict e x ≡ false) y _ later m),
        rest,
      )
      | inr e ↦ rw e (later, rest)
    ]

pub QueueChange-HasNoConflict :
    {s s' : Scheduler} → QueueChange s s' → HasNoConflict s.events → HasNoConflict s'.events
QueueChange-HasNoConflict (kept e) u = rw e u
QueueChange-HasNoConflict {s} (changed p {f} c e) u =
    rw e (update_rows-HasNoConflict p c s.events u)
QueueChange-HasNoConflict {s} (added n a b c free e) u =
    rw e (HasNoConflict-append s.events n free u)

-- Under all steps in any order, from events of which it holds: no two events have one row identifier,
-- and no two events of one trigger have one identifier or one semantic key.
pub Reach-HasNoConflict :
    {setting : Setting} {s t : Scheduler}
    → Reach setting s t
    → HasNoConflict s.events
    → HasNoConflict t.events
Reach-HasNoConflict here u = u
Reach-HasNoConflict (next r st) u =
    QueueChange-HasNoConflict (Step-QueueChange st) (Reach-HasNoConflict r u)

-- Whether a trigger has an event of the identifier.
abbrev pub is_known : ℕ → Text → List TriggerEvent → Bool
is_known id event_id es = any (λ e. e.trigger_id == id && text_eq e.event_id event_id) es

is_known-append :
    (id : ℕ) (event_id : Text) (es fs : List TriggerEvent)
    → is_known id event_id es ≡ true
    → is_known id event_id (es ++ fs) ≡ true
is_known-append id event_id [] fs h = cc
is_known-append id event_id (e ∷ es) fs h = ground (arith, is_known-append id event_id es fs)

keeps_names :
    {f : TriggerEvent → TriggerEvent}
    → Changed f
    → (e : TriggerEvent) → ((f e).trigger_id ≡ e.trigger_id) × ((f e).event_id ≡ e.event_id)
keeps_names (by_try now n) e = (refl, refl)
keeps_names (by_run now) e = (refl, refl)
keeps_names (by_replay now) e = (refl, refl)

is_known-update :
    (p : TriggerEvent → Bool) {f : TriggerEvent → TriggerEvent} (c : Changed f) (id : ℕ)
    → (event_id : Text) (es : List TriggerEvent)
    → is_known id event_id (update_rows p f es) ≡ is_known id event_id es
is_known-update p {f} c id event_id [] = refl
is_known-update p {f} c id event_id (e ∷ es) =
    let rest = is_known-update p c id event_id es in
    elim (Bool-cases (p e)) [
      | inl h ↦ rw (h, (keeps_names c e).0, (keeps_names c e).1, rest) refl
      | inr h ↦ rw (h, rest) refl
    ]

QueueChange-is_known :
    {s s' : Scheduler} (id : ℕ) (event_id : Text)
    → QueueChange s s'
    → is_known id event_id s.events ≡ true
    → is_known id event_id s'.events ≡ true
QueueChange-is_known id event_id (kept e) h = rw e h
QueueChange-is_known {s} id event_id (changed p {f} c e) h =
    rw (e, is_known-update p c id event_id s.events) h
QueueChange-is_known {s} id event_id (added n a b c free e) h =
    rw e (is_known-append id event_id s.events (n ∷ []) h)

Reach-is_known :
    {setting : Setting} {s t : Scheduler} (id : ℕ) (event_id : Text)
    → Reach setting s t
    → is_known id event_id s.events ≡ true
    → is_known id event_id t.events ≡ true
Reach-is_known id event_id here h = h
Reach-is_known id event_id (next r st) h =
    QueueChange-is_known id event_id (Step-QueueChange st) (Reach-is_known id event_id r h)

is_known-conflict :
    (now row_id : ℕ) (tenant : Text) (id : ℕ) (event_id key : Text) (payload : Value)
    → (es : List TriggerEvent) → is_known id event_id es ≡ true
    → any (is_conflict (new_event now row_id tenant id event_id key payload)) es ≡ true
is_known-conflict now row_id tenant id event_id key payload [] h = cc
is_known-conflict now row_id tenant id event_id key payload (e ∷ es) h =
    ground (arith, is_known-conflict now row_id tenant id event_id key payload es)

is_known-last :
    (id : ℕ) (event_id : Text) (es : List TriggerEvent) (e : TriggerEvent)
    → e.trigger_id ≡ id
    → e.event_id ≡ event_id
    → is_known id event_id (es ++ e ∷ []) ≡ true
is_known-last id event_id [] e a b = rw (a, b, text_eq_refl event_id) (ground arith)
is_known-last id event_id (x ∷ es) e a b = rw (is_known-last id event_id es e a b) (ground arith)

-- An event is taken once: after an enqueue that answers that the event is enqueued, and after any
-- further steps of the scheduler, an enqueue of the same identifier for the trigger, whatever its
-- payload, leaves every table and answers otherwise.
pub enqueue-once :
    {setting : Setting} {u : Scheduler} (now row_id : ℕ) (tenant : Text) (id : ℕ) (event_id : Text)
    → (payload : Value) (s : Scheduler) (now2 row_id2 : ℕ) (tenant2 : Text) (payload2 : Value)
    → let first =
        enqueue_trigger_event setting.env.uuid_text setting.digest now row_id tenant id event_id
          payload s in
      let again =
        enqueue_trigger_event setting.env.uuid_text setting.digest now2 row_id2 tenant2 id event_id
          payload2 u in
      is_enqueued first.1 ≡ true
      → Reach setting first.0 u
      → (again.0 ≡ u) × (is_enqueued again.1 ≡ false)
enqueue-once {setting} {u} now row_id tenant id event_id payload s now2 row_id2 tenant2 payload2 e
      r =
    let uuid_text = setting.env.uuid_text in
    let digest = setting.digest in
    elim (enqueue-cases uuid_text digest now row_id tenant id event_id payload s) [
      | inl (same, refused) ↦ absurd (cc)
      | inr (new, free, taken) ↦
          elim (enqueue-cases uuid_text digest now2 row_id2 tenant2 id event_id payload2 u) [
            | inl again ↦ again
            | inr (new2, free2, taken2) ↦
                let known =
                  is_known-last id event_id s.events
                    (new_event now row_id tenant id event_id
                      (compute_trigger_event_semantic_dedupe_key uuid_text digest tenant id payload)
                      payload)
                    refl refl in
                let later = Reach-is_known id event_id r (rw new known) in
                let clash =
                  is_known-conflict now2 row_id2 tenant2 id event_id
                    (compute_trigger_event_semantic_dedupe_key uuid_text digest tenant2 id payload2)
                    payload2 u.events later in
                absurd (cc)
          ]
    ]
