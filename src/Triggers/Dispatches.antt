-- ===== src/Triggers/Dispatches.antt =====
-- `dispatch_next_due_trigger_with_limits` of core/src/db.rs: the three transactions it tries.
use rust_agent.Base.{ℕ, ◌≡◌, Option, none, some, inl, inr, ◌⊎◌, refl}
use rust_agent.Triggers.{Scheduler, TriggerDispatchRecord}
use rust_agent.Triggers.Dispatch.{Dispatched, or_next, dispatch_next_due_trigger_with_limits}
use rust_agent.Triggers.Effects.{Effect, interval-Effect, cron-Effect}
use rust_agent.Triggers.EventEffects.{webhook-Effect}
use rust_agent.Triggers.Lifecycle.{
  Setting, Reach, here, next, dispatch_webhook, dispatch_cron, dispatch_interval,
}

-- A dispatch ends with the first transaction that starts a run, or with the second.
or_next-cases :
    (o : Dispatched) (f : Scheduler → Dispatched) (s' : Scheduler)
    (d : Option TriggerDispatchRecord)
    → or_next o f ≡ some (s', d)
    → (o ≡ some (s', d)) ⊎ ((m : Scheduler) × (o ≡ some (m, none)) × (f m ≡ some (s', d)))
or_next-cases none f s' d e = absurd (cc)
or_next-cases (some (s, none)) f s' d e = inr (s, refl, e)
or_next-cases (some (s, some r)) f s' d e = inl e

module _ (setting : Setting) (now utc run_id tenant_max : ℕ) where
  -- The transaction that ends a dispatch acts on a state that failures alone lead to.
  pub dispatch-Effect :
      (s s' : Scheduler) (d : Option TriggerDispatchRecord)
      → dispatch_next_due_trigger_with_limits setting.env now utc run_id tenant_max s ≡ some (s', d)
      → (m : Scheduler) × Reach setting s m
        × Reach setting m s'
        × Effect now run_id tenant_max m s' d
  unfolding dispatch_next_due_trigger_with_limits
  dispatch-Effect s s' d e = elim (or_next-cases _ _ s' d e) [
    | inl w ↦ (
      s,
      here,
      next here (dispatch_webhook now utc run_id tenant_max d w),
      webhook-Effect setting.env now utc run_id tenant_max s s' d w,
    )
    | inr (s1, w, e1) ↦
        let to_s1 = next here (dispatch_webhook now utc run_id tenant_max none w) in
        elim (or_next-cases _ _ s' d e1) [
          | inl c ↦ (
            s1,
            to_s1,
            next here (dispatch_cron now run_id tenant_max d c),
            cron-Effect setting.env now run_id tenant_max s1 s' d c,
          )
          | inr (s2, c, i) ↦ (
            s2,
            next to_s1 (dispatch_cron now run_id tenant_max none c),
            next here (dispatch_interval now utc run_id tenant_max d i),
            interval-Effect setting.env now utc run_id tenant_max s2 s' d i,
          )
        ]
  ]
