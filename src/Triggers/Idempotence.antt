-- ===== src/Triggers/Idempotence.antt =====
-- A key that a trigger has used: a manual fire that is repeated, and a transaction that meets it.
use rust_agent.Base.{
  ℕ, true, false, ◌≡◌, refl, sym, Text, List, [], ◌∷◌, All-In, In, In-append_left, In-append_right,
  find, arith, Option, some, ◌⊎◌, inl, inr, Option-cases, text_eq_refl, ap,
}
use rust_agent.Json.{Value}
use rust_agent.Triggers.{Scheduler, TriggerRun, TriggerDispatchRecord, same_dedupe, started_row}
use rust_agent.Triggers.Manual.{
  fire_trigger_manually_with_limits, ManualTriggerFireOutcome, created_manually, duplicate_fire,
  inflight_limited, trigger_unavailable, manual_key, can_fire,
}
use rust_agent.Triggers.EventEffects.{manual-cases}
use rust_agent.Triggers.Lifecycle.{
  Setting, Reach, here, next, RowsChange, quiet, failure, start, Step-RowsChange, Reach-trans, fire,
}
use rust_agent.Triggers.Records.{HasUniqueKeysOf, Reach-empty_scheduler-IsRecord, empty_scheduler}

RowsChange-In :
    {s s' : Scheduler} (r : TriggerRun)
    → RowsChange s s'
    → In r s.trigger_runs
    → In r s'.trigger_runs
RowsChange-In r (quiet e q) m = rw e m
RowsChange-In {s} r (failure id at key error e first same) m =
    rw e (In-append_left r s.trigger_runs _ m)
RowsChange-In {s} r (start now run_id at key input t e first more fresh) m =
    rw e (In-append_left r s.trigger_runs _ m)

-- No step removes or changes a row of `trigger_runs`.
pub Reach-In :
    {setting : Setting} {s s' : Scheduler} (r : TriggerRun)
    → Reach setting s s'
    → In r s.trigger_runs
    → In r s'.trigger_runs
Reach-In r here m = m
Reach-In r (next q st) m = RowsChange-In r (Step-RowsChange st) (Reach-In r q m)

pub same_dedupe_self : (r : TriggerRun) → same_dedupe r.trigger_id r.dedupe_key r ≡ true
same_dedupe_self r = rw (text_eq_refl r.dedupe_key) (ground arith)

find_own :
    (r : TriggerRun) (rows : List TriggerRun)
    → HasUniqueKeysOf rows
    → In r rows
    → find (same_dedupe r.trigger_id r.dedupe_key) rows ≡ some r
find_own r [] u m = absurd m
find_own r (x ∷ xs) (first, u) (inl e) = rw (sym e, same_dedupe_self r) refl
find_own r (x ∷ xs) (first, u) (inr m) =
    rw (All-In (λ y. same_dedupe y.trigger_id y.dedupe_key x ≡ false) r xs first m)
      (find_own r xs u m)

abbrev run_of : ManualTriggerFireOutcome → ℕ
run_of (created_manually d) = d.run_id
run_of (duplicate_fire run) = 0
run_of inflight_limited = 0
run_of trigger_unavailable = 0

-- What a manual fire that starts a run leaves: a row under its key that names the run.
manual-row :
    (uuid_text : ℕ → Text) (now utc run_id : ℕ) (tenant : Text) (id : ℕ) (key : Text)
    → (payload : Option Value) (tenant_max : ℕ) (s s' : Scheduler) (d : TriggerDispatchRecord)
    → fire_trigger_manually_with_limits uuid_text now utc run_id tenant id key payload tenant_max s
      ≡ some (s', created_manually d)
    → In (started_row id run_id utc (manual_key key)) s'.trigger_runs × (d.run_id ≡ run_id)
manual-row uuid_text now utc run_id tenant id key payload tenant_max s s' d e =
    elim (manual-cases uuid_text now utc run_id tenant id key payload tenant_max s s'
      (created_manually d) e) [
        | inl (same, none_made) ↦ absurd (cc)
        | inr f ↦ (
          rw f.start.rows (In-append_right _ s.trigger_runs _ (inl (rw f.is_its refl))),
          ap run_of f.outcome,
        )
      ]

-- A second fire under the key of a row: the run of the row, or no trigger.
refire :
    (uuid_text : ℕ → Text) (now utc run_id : ℕ) (tenant : Text) (id : ℕ) (key : Text)
    → (payload : Option Value) (tenant_max : ℕ) (s : Scheduler) (row : TriggerRun)
    → find (same_dedupe id (manual_key key)) s.trigger_runs ≡ some row
    → let again =
        fire_trigger_manually_with_limits uuid_text now utc run_id tenant id key payload tenant_max
          s in
      (again ≡ some (s, duplicate_fire row.run_id)) ⊎ (again ≡ some (s, trigger_unavailable))
unfolding fire_trigger_manually_with_limits
refire uuid_text now utc run_id tenant id key payload tenant_max s row e =
    elim (Option-cases (find (can_fire tenant id) s.triggers)) [
      | inl gone ↦ inr (rw (gone, fire_trigger_manually_with_limits) refl)
      | inr (t, found) ↦ inl (rw (found, e, fire_trigger_manually_with_limits) refl)
    ]

-- A manual fire that started a run is done once: from any state that the steps reach from empty
-- tables, and after any further steps, a fire of the trigger under the same key, whatever its tenant,
-- input and limits, leaves every table and answers with the run of the first, or that no trigger of
-- the tenant can be fired.
pub manual-once :
    {setting : Setting} {s s' u : Scheduler} (now utc run_id : ℕ) (tenant : Text) (id : ℕ)
    → (key : Text) (payload : Option Value) (tenant_max : ℕ) (d : TriggerDispatchRecord)
    → (now2 utc2 run_id2 : ℕ) (tenant2 : Text) (payload2 : Option Value) (tenant_max2 : ℕ)
    → Reach setting empty_scheduler s
    → fire_trigger_manually_with_limits setting.env.uuid_text now utc run_id tenant id key payload
        tenant_max s
      ≡ some (s', created_manually d)
    → Reach setting s' u
    → let again =
        fire_trigger_manually_with_limits setting.env.uuid_text now2 utc2 run_id2 tenant2 id key
          payload2 tenant_max2 u in
      (again ≡ some (u, duplicate_fire (some d.run_id))) ⊎ (again ≡ some (u, trigger_unavailable))
manual-once {setting} {s} {s'} {u} now utc run_id tenant id key payload tenant_max d now2 utc2
      run_id2 tenant2 payload2 tenant_max2 before e after =
    let uuid_text = setting.env.uuid_text in
    let (m, same) = manual-row uuid_text now utc run_id tenant id key payload tenant_max s s' d e in
    let row = started_row id run_id utc (manual_key key) in
    let to_s' =
      next before (fire now utc run_id tenant id key payload tenant_max (created_manually d) e) in
    let v = Reach-empty_scheduler-IsRecord (Reach-trans setting to_s' after) in
    let found = find_own row u.trigger_runs v.unique (Reach-In row after m) in
    rw same (refire uuid_text now2 utc2 run_id2 tenant2 id key payload2 tenant_max2 u row found)
