-- ===== src/Tests/RunTests.antt =====
-- The table of runs on concrete inputs.
use rust_agent.Base.{
  ℕ, Text, codes, some, none, [], ◌∷◌, ◌≡◌, refl, arith, inl, max, false, ◌≤◌, ◌⊎◌, In,
  to_ascii_lowercase, text_eq, true,
}
use rust_agent.Json.{Value, null, object, string, field, end, get}
use rust_agent.Runs.{
  Run, NewRun, Table, queued, new_row, claim_row, claimed, claim_first, mark_run_succeeded,
  mark_run_failed, renew_run_lease, requeue_expired_runs, tenant_inflight_count, clamp_lease_ms,
  as_succeeded, global_inflight_count, is_held,
}
use rust_agent.Runs.Creation.{
  create_run_with_semantic_dedupe_key, get_active_run_id_by_semantic_dedupe_key, insert_run,
  keyed_row,
}
use rust_agent.Runs.Queue.{
  claim_next_queued_run_with_limits, claims_before, claim_rank, class_of_input,
}
use rust_agent.Runs.Dedupe.{IsTheRun, create_run_with_semantic_dedupe_key-IsTheRun}
use rust_agent.Runs.Lifecycle.{create_keyed, requeue, Reach, here, next}
use rust_agent.Runs.Completion.{mark_run_succeeded_once, Reach-is_done}
use rust_agent.Runs.Caps.{IsFairClaim, claim-IsFairClaim, claim-none}

running_claims : Unit {0}
unfolding insert_run create_run_with_semantic_dedupe_key get_active_run_id_by_semantic_dedupe_key
    claim_row claim_first claim_next_queued_run_with_limits claims_before claim_rank class_of_input
    mark_run_succeeded mark_run_failed renew_run_lease requeue_expired_runs clamp_lease_ms get
    to_ascii_lowercase text_eq
running_claims = tt

-- A new run of one tenant, in a class of the queue.
abbrev asked_run : ℕ → Text → NewRun
asked_run id class = record {
  id = id;
  tenant_id = codes "t";
  agent_id = 9;
  triggered_by_user_id = none;
  recipe_id = codes "r";
  input_json = object (field (codes "queue_class") (string class) end);
  requested_capabilities = null;
  granted_capabilities = null;
  status = queued;
  error_json = none;
}

abbrev no_text : Value → Text
no_text v = []

abbrev batch_run : Run
batch_run = new_row 0 (asked_run 1 (codes "Batch"))

abbrev interactive_run : Run
interactive_run = new_row 5 (asked_run 2 (codes "interactive"))

abbrev two_runs : Table
two_runs = batch_run ∷ interactive_run ∷ []

abbrev worker : Text
worker = codes "w"

-- The interactive run goes first, and under a cap of one the batch run waits.
after_claim : Table
unfolding clamp_lease_ms
after_claim = batch_run ∷ claimed 10 worker 1000 interactive_run ∷ []

first_claim :
    claim_next_queued_run_with_limits no_text 10 worker 1000 4 1 two_runs
    ≡ (after_claim, some (claimed 10 worker 1000 interactive_run))
unfolding running_claims after_claim
first_claim = refl

second_claim : (claim_next_queued_run_with_limits no_text 10 worker 1000 4 1 after_claim).1 ≡ none
unfolding running_claims after_claim
second_claim = refl

-- After fifteen minutes the batch run goes first.
aged_claim :
    (claim_next_queued_run_with_limits no_text 900000000 worker 1000 4 1 two_runs).1
    ≡ some (claimed 900000000 worker 1000 batch_run)
unfolding running_claims
aged_claim = refl

-- A lease that has run out is taken back, and its owner cannot complete the run any more.
lost_lease : (requeue_expired_runs 2000000 5 after_claim).1 ≡ 1
unfolding running_claims after_claim
lost_lease = refl

claim-IsFairClaim_example :
    IsFairClaim no_text 10 4 1 worker 1000 two_runs after_claim
      (claimed 10 worker 1000 interactive_run)
claim-IsFairClaim_example =
    claim-IsFairClaim no_text 10 4 1 worker 1000 two_runs after_claim
      (claimed 10 worker 1000 interactive_run) (omega arith) first_claim

claim-none_example :
    (max 4 1 ≤ global_inflight_count after_claim)
    ⊎ (max 1 1 ≤ tenant_inflight_count batch_run.tenant_id after_claim)
unfolding running_claims after_claim
claim-none_example =
    claim-none no_text 10 4 1 worker 1000 after_claim batch_run (omega arith) (omega arith)
      second_claim (inl refl) refl

-- A run is asked for under a key, and then again under another identifier.
abbrev keyed_runs : Table
keyed_runs = keyed_row 0 (asked_run 1 (codes "interactive")) (codes "k") ∷ []

keyed_runs-Reach : Reach [] keyed_runs
unfolding running_claims
keyed_runs-Reach = next here (
    create_keyed 0 (asked_run 1 (codes "interactive")) (codes "k")
      {made = some (keyed_row 0 (asked_run 1 (codes "interactive")) (codes "k"))} refl refl)

asked_again :
    create_run_with_semantic_dedupe_key 5 (asked_run 2 (codes "interactive")) (codes "k") keyed_runs
    ≡ some (keyed_runs, none)
unfolding running_claims
asked_again = refl

create_run_with_semantic_dedupe_key-IsTheRun_example :
    (r : Run) × IsTheRun (codes "t") (codes "k") keyed_runs keyed_runs none r
create_run_with_semantic_dedupe_key-IsTheRun_example =
    create_run_with_semantic_dedupe_key-IsTheRun 5 (asked_run 2 (codes "interactive")) (codes "k")
      keyed_runs keyed_runs none keyed_runs-Reach refl asked_again

mark_run_succeeded_once_example :
    ((r : Run) × In r after_claim × (is_held 2 worker r ≡ true))
    × ((t : Table) (later : ℕ) (other : Text) (error : Value)
        → Reach (mark_run_succeeded 20 2 worker after_claim).0 t
        → ((mark_run_succeeded later 2 other t).1 ≡ false)
          × ((mark_run_failed later 2 other error t).1 ≡ false))
unfolding running_claims after_claim
mark_run_succeeded_once_example = mark_run_succeeded_once after_claim 20 2 worker (omega arith) refl

abbrev done_run : Run
done_run = as_succeeded 7 batch_run

Reach-is_done_example : In done_run (requeue_expired_runs 9 5 (done_run ∷ [])).0
Reach-is_done_example =
    Reach-is_done done_run (next here (requeue 9 5)) (omega arith) refl (inl refl)

-- A run of the whole life of one row, from the empty table.
abbrev one_queued : Table
one_queued = batch_run ∷ []
