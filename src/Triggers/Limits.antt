-- ===== src/Triggers/Limits.antt =====
-- The limits on the runs in flight, at the transactions that start a run.
use rust_agent.Base.{
  ℕ, suc, ◌+◌, ◌≤◌, max, Bool, true, false, ◌&&◌, ◌≡◌, refl, sym, subst, Text, List, [], ◌∷◌, ◌++◌,
  All, any, arith, some, Option-cases, inl, inr, if◌then◌else◌, ◌∙◌, update_rows-In_changed,
  has_key, Bool-cases, ==_iff, In, ◌==◌, ◌||◌, count_if,
}
use rust_agent.Json.{Value}
use rust_agent.Runs.{Table, new_row, is_inflight, count_tenant_inflight_runs}
use rust_agent.Runs.Identity.{has_run}
use rust_agent.Triggers.{
  Trigger, Scheduler, TriggerRun, TriggerDispatchRecord, started_row, trigger_key, triggered_run,
  starts_inflight, count_inflight_runs_for_trigger, count_inflight_runs_for_tenant,
}
use rust_agent.Triggers.Starts.{IsStart}
use rust_agent.Triggers.Records.{
  IsRecorded, IsRecord, no_run, Reach-IsRecord, Reach-empty_scheduler-IsRecord, empty_scheduler,
}
use rust_agent.Triggers.Dispatches.{dispatch-Effect}
use rust_agent.Triggers.Dispatch.{dispatch_next_due_trigger_with_limits}
use rust_agent.Triggers.Lifecycle.{Setting, Reach}
use rust_agent.Triggers.Effects.{Effect, started}

count_if-append {ℓ} :
    {A : Type ℓ} (p : A → Bool) (xs ys : List A)
    → count_if p (xs ++ ys) ≡ count_if p xs + count_if p ys
count_if-append {A} p [] ys = ground arith
count_if-append {A} p (x ∷ xs) ys = ground (arith, count_if-append p xs ys)

any-append {ℓ} :
    {A : Type ℓ} (p : A → Bool) (xs ys : List A) → any p (xs ++ ys) ≡ any p xs || any p ys
any-append {A} p [] ys = refl
any-append {A} p (x ∷ xs) ys = ground (arith, any-append p xs ys)

other_run : (a b : ℕ) (x : Bool) → (a == b) ≡ false → x || ((a == b) && true || false) ≡ x
other_run a b x h = ground arith

not_there :
    (a b : ℕ) (runs : Table) → has_run a runs ≡ false → has_run b runs ≡ true → (a == b) ≡ false
not_there a b runs h k = elim (Bool-cases (a == b)) [
  | inl e ↦ let same = (==_iff a b).0 e in cc
  | inr e ↦ e
]

-- A new run is not that of a row whose run is there, so such a row is in flight as before.
starts_inflight-append :
    (now run_id : ℕ) (input : Value) (t : Trigger) (runs : Table) (r : TriggerRun)
    → has_run run_id runs ≡ false
    → IsRecorded runs r
    → starts_inflight (runs ++ new_row now (triggered_run run_id input t) ∷ []) r
      ≡ starts_inflight runs r
starts_inflight-append now run_id input t runs r fresh v = elim (Option-cases r.run_id) [
  | inl none_named ↦ rw none_named refl
  | inr (id, named) ↦
      let is_there = v.refers id named in
      rw (named, any-append (λ x. x.id == id && is_inflight x) runs _)
        (other_run run_id id (any (λ x. x.id == id && is_inflight x) runs)
          (not_there run_id id runs fresh is_there))
]

-- The rows that are in flight after a run is started are those before it and its own.
count_started :
    (now run_id scheduled_for : ℕ) (key : Text) (input : Value) (t : Trigger) (runs : Table)
    → (id : ℕ) → has_run run_id runs ≡ false
    → (rows : List TriggerRun) → All (IsRecorded runs) rows
    → count_if
        (λ r.
          r.trigger_id == id
          && starts_inflight (runs ++ new_row now (triggered_run run_id input t) ∷ []) r)
        rows
      ≡ count_if (λ r. r.trigger_id == id && starts_inflight runs r) rows
count_started now run_id scheduled_for key input t runs id fresh [] h = refl
count_started now run_id scheduled_for key input t runs id fresh (r ∷ rows) (v, h) =
    rw
      (
        starts_inflight-append now run_id input t runs r fresh v,
        count_started now run_id scheduled_for key input t runs id fresh rows h,
      )
      refl

-- The trigger of a dispatch, and its tenant, have no more runs in flight than they may.
pub record IsWithin (tenant_max : ℕ) (s : Scheduler) (d : TriggerDispatchRecord) : Type 0 where
  pub trigger : Trigger
  pub is_there : In trigger s.triggers
  pub is_its : trigger.id ≡ d.trigger_id
  pub trigger_room : count_inflight_runs_for_trigger d.trigger_id s ≤ trigger.max_inflight_runs
  pub tenant_room : count_inflight_runs_for_tenant d.tenant_id s ≤ max tenant_max 1

one_more : (a : ℕ) (b : Bool) → a + (if b then 1 else 0) ≤ suc a
one_more a b = ground arith

trigger_count :
    (now run_id scheduled_for : ℕ) (input : Value) (key : Text) (change : Trigger → Trigger)
    → (t : Trigger) (s s' : Scheduler) → IsRecord s
    → IsStart now run_id input key scheduled_for change t s s'
    → count_inflight_runs_for_trigger t.id s' ≤ suc (count_inflight_runs_for_trigger t.id s)
unfolding count_inflight_runs_for_trigger
trigger_count now run_id scheduled_for input key change t s s' v f =
    let same =
      count_started now run_id scheduled_for key input t s.runs t.id (no_run run_id s.runs f.fresh)
        s.trigger_runs v.recorded in
    rw
      (
        f.rows,
        f.runs,
        count_if-append _ s.trigger_runs (started_row t.id run_id scheduled_for key ∷ []),
        same,
      )
      (one_more _ _)

tenant_count :
    (now run_id scheduled_for : ℕ) (input : Value) (key : Text) (change : Trigger → Trigger)
    → (t : Trigger) (s s' : Scheduler) → IsStart now run_id input key scheduled_for change t s s'
    → count_inflight_runs_for_tenant t.tenant_id s'
      ≤ suc (count_inflight_runs_for_tenant t.tenant_id s)
unfolding count_tenant_inflight_runs
tenant_count now run_id scheduled_for input key change t s s' f =
    rw (f.runs, count_if-append _ s.runs (new_row now (triggered_run run_id input t) ∷ []))
      (one_more _ _)

pub Effect-IsWithin :
    {now run_id tenant_max : ℕ} {s s' : Scheduler} {d : TriggerDispatchRecord}
    → IsRecord s
    → Effect now run_id tenant_max s s' (some d)
    → IsWithin tenant_max s' d
Effect-IsWithin {now} {run_id} {tenant_max} {s} {s'} v
      (started t input key scheduled_for change d m room keep f c a b e) =
    let by_trigger = trigger_count now run_id scheduled_for input key change t s s' v f in
    let by_tenant = tenant_count now run_id scheduled_for input key change t s s' f in
    record {
      trigger = change t;
      is_there =
          subst (In (change t)) (sym f.triggers) (
            update_rows-In_changed (has_key trigger_key t.id) change t s.triggers (ground arith) m);
      is_its = (keep t).0 ∙ sym b;
      trigger_room = rw (b, (keep t).1) (ground (arith, by_trigger));
      tenant_room = rw e (ground (arith, by_tenant));
    }

-- A dispatch that starts a run, from any state that the steps reach from empty tables, leaves the
-- trigger, as it then stands, with at most `max_inflight_runs` runs queued or running, and its
-- tenant with at most the maximum of tenants, which counts as one where it is zero.
pub dispatch-IsWithin :
    {setting : Setting} {s : Scheduler} (now utc run_id tenant_max : ℕ) (s' : Scheduler)
    → (d : TriggerDispatchRecord) → Reach setting empty_scheduler s
    → dispatch_next_due_trigger_with_limits setting.env now utc run_id tenant_max s
      ≡ some (s', some d)
    → IsWithin tenant_max s' d
dispatch-IsWithin {setting} {s} now utc run_id tenant_max s' d r e =
    let (m, before, after, effect) =
      dispatch-Effect setting now utc run_id tenant_max s s' (some d) e in
    Effect-IsWithin (Reach-IsRecord before (Reach-empty_scheduler-IsRecord r)) effect
