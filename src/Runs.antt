-- ===== src/Runs.antt =====
-- core/src/db.rs: the table of runs, and the statements that lease its rows to workers.
-- A table is its list of rows and a statement one function of the table; `now` is the time of the
-- database in microseconds, and a lease is given in milliseconds.
pub mod Creation
pub mod Queue
pub mod Rows
pub mod Inserts
pub mod Lifecycle
pub mod Identity
pub mod Completion
pub mod Claiming
pub mod Caps
pub mod ActiveKeys
pub mod Dedupe
use rust_agent.Base.{
  ℕ, suc, ◌+◌, ◌*◌, ◌-◌, ◌^◌, min, max, Bool, true, false, ◌&&◌, ◌||◌, ltb, leb, ◌==◌, Option, none,
  some, List, [], ◌∷◌, ◌++◌, map, Text, codes, text_eq, to_ascii_lowercase, if◌then◌else◌, filter,
  find, count_if, is_empty, take, sort_by, any,
}
use rust_agent.Json.{Value, null, string, get}

pub data RunStatus : Type 0 where
  queued running succeeded failed canceled : RunStatus

abbrev status_number : RunStatus → ℕ
status_number queued = 0
status_number running = 1
status_number succeeded = 2
status_number failed = 3
status_number canceled = 4

abbrev pub status_eq : RunStatus → RunStatus → Bool
status_eq a b = status_number a == status_number b

-- Identifiers are the 128 bits of a UUID.
pub record Run : Type 0 where
  pub id : ℕ
  pub tenant_id : Text
  pub agent_id : ℕ
  pub triggered_by_user_id : Option ℕ
  pub recipe_id : Text
  pub status : RunStatus
  pub input_json : Value
  pub requested_capabilities : Value
  pub granted_capabilities : Value
  pub error_json : Option Value
  pub semantic_dedupe_key : Option Text
  pub attempts : ℕ
  pub lease_owner : Option Text
  pub lease_expires_at : Option ℕ
  pub created_at : ℕ
  pub started_at : Option ℕ
  pub finished_at : Option ℕ

pub record NewRun : Type 0 where
  pub id : ℕ
  pub tenant_id : Text
  pub agent_id : ℕ
  pub triggered_by_user_id : Option ℕ
  pub recipe_id : Text
  pub input_json : Value
  pub requested_capabilities : Value
  pub granted_capabilities : Value
  pub status : RunStatus
  pub error_json : Option Value

abbrev pub Table : Type 0
Table = List Run

-- `UPDATE … SET f WHERE p`
abbrev pub update_where : (Run → Bool) → (Run → Run) → Table → Table
update_where p f rows = map (λ r. if p r then f r else r) rows

abbrev pub i64_max : ℕ
i64_max = 2 ^ 63 - 1

unfoldable pub clamp_lease_ms : ℕ → ℕ
clamp_lease_ms millis = min (max millis 1) i64_max

abbrev pub lease_end : ℕ → ℕ → ℕ
lease_end now millis = now + clamp_lease_ms millis * 1000

-- The row of `INSERT INTO runs`. The columns that the statement does not name have their defaults.
abbrev pub new_row : ℕ → NewRun → Run
new_row now n = record {
  id = n.id;
  tenant_id = n.tenant_id;
  agent_id = n.agent_id;
  triggered_by_user_id = n.triggered_by_user_id;
  recipe_id = n.recipe_id;
  status = n.status;
  input_json = n.input_json;
  requested_capabilities = n.requested_capabilities;
  granted_capabilities = n.granted_capabilities;
  error_json = n.error_json;
  semantic_dedupe_key = none;
  attempts = 0;
  lease_owner = none;
  lease_expires_at = none;
  created_at = now;
  started_at = none;
  finished_at = none;
}

abbrev pub is_running : Run → Bool
is_running r = status_eq r.status running

abbrev pub is_inflight : Run → Bool
is_inflight r = status_eq r.status queued || status_eq r.status running

unfoldable pub count_tenant_inflight_runs : Text → Table → ℕ
count_tenant_inflight_runs tenant rows =
    count_if (λ r. text_eq r.tenant_id tenant && is_inflight r) rows

unfoldable pub count_inflight_runs : Table → ℕ
count_inflight_runs rows = count_if is_inflight rows

-- `SELECT COUNT(*) … WHERE status = 'running'`, of all and of one tenant.
abbrev pub global_inflight_count : Table → ℕ
global_inflight_count rows = count_if is_running rows

abbrev pub tenant_inflight_count : Text → Table → ℕ
tenant_inflight_count tenant rows = count_if (λ r. text_eq r.tenant_id tenant && is_running r) rows

-- `status = 'queued' AND (lease_expires_at IS NULL OR lease_expires_at < now())`
abbrev pub is_claimable : ℕ → Run → Bool
is_claimable now r =
    status_eq r.status queued
    && elim r.lease_expires_at [ none ↦ true | some until ↦ ltb until now ]

-- `SET status = 'running', …` of a claim.
abbrev pub claimed : ℕ → Text → ℕ → Run → Run
claimed now worker millis r = record r {
  status = running;
  started_at = elim r.started_at [ none ↦ some now | some t ↦ some t ];
  attempts = suc r.attempts;
  lease_owner = some worker;
  lease_expires_at = some (lease_end now millis);
}

abbrev pub claim_hit : ℕ → ℕ → Run → Bool
claim_hit now id r = r.id == id && is_claimable now r

-- The `UPDATE` of a claim: the new table, and the row that `RETURNING` gives.
unfoldable pub claim_row : ℕ → Text → ℕ → ℕ → Table → Table × Option Run
claim_row now worker millis id rows = (
  update_where (claim_hit now id) (claimed now worker millis) rows,
  elim (find (claim_hit now id) rows) [ none ↦ none | some r ↦ some (claimed now worker millis r) ],
)

-- One round of the loop over the candidates for each.
unfoldable pub claim_first : ℕ → Text → ℕ → ℕ → List Run → Table → Table × Option Run
claim_first now worker millis tenant_cap [] rows = (rows, none)
claim_first now worker millis tenant_cap (c ∷ cs) rows =
    elim (leb tenant_cap (tenant_inflight_count c.tenant_id rows)) [
      | true ↦ claim_first now worker millis tenant_cap cs rows
      | false ↦ elim (claim_row now worker millis c.id rows).1 [
        | none ↦
            claim_first now worker millis tenant_cap cs (claim_row now worker millis c.id rows).0
        | some r ↦ ((claim_row now worker millis c.id rows).0, some r)
      ]
    ]

-- `status = 'running' AND lease_owner = $2`, of one row.
abbrev pub is_held : ℕ → Text → Run → Bool
is_held id worker r =
    r.id == id && (is_running r && elim r.lease_owner [ none ↦ false | some w ↦ text_eq w worker ])

abbrev pub renew_hit : ℕ → ℕ → Text → Run → Bool
renew_hit now id worker r =
    is_held id worker r && elim r.lease_expires_at [ none ↦ false | some until ↦ ltb now until ]

abbrev pub renewed : ℕ → ℕ → Run → Run
renewed now millis r = record r { lease_expires_at = some (lease_end now millis) }

-- The new table, and whether one row was changed.
unfoldable pub renew_run_lease : ℕ → ℕ → Text → ℕ → Table → Table × Bool
renew_run_lease now id worker millis rows = (
  update_where (renew_hit now id worker) (renewed now millis) rows,
  count_if (renew_hit now id worker) rows == 1,
)

abbrev pub as_succeeded : ℕ → Run → Run
as_succeeded now r = record r {
  status = succeeded;
  finished_at = some now;
  lease_owner = none;
  lease_expires_at = none;
}

abbrev pub as_failed : ℕ → Value → Run → Run
as_failed now error r = record r {
  status = failed;
  finished_at = some now;
  error_json = some error;
  lease_owner = none;
  lease_expires_at = none;
}

unfoldable pub mark_run_succeeded : ℕ → ℕ → Text → Table → Table × Bool
mark_run_succeeded now id worker rows = (
  update_where (is_held id worker) (as_succeeded now) rows,
  count_if (is_held id worker) rows == 1,
)

unfoldable pub mark_run_failed : ℕ → ℕ → Text → Value → Table → Table × Bool
mark_run_failed now id worker error rows = (
  update_where (is_held id worker) (as_failed now error) rows,
  count_if (is_held id worker) rows == 1,
)

-- `status = 'running' AND lease_expires_at IS NOT NULL AND lease_expires_at < now()`
abbrev pub is_expired : ℕ → Run → Bool
is_expired now r =
    is_running r && elim r.lease_expires_at [ none ↦ false | some until ↦ ltb until now ]

-- `ORDER BY lease_expires_at`, of rows that have one.
abbrev pub expires_before : Run → Run → Bool
expires_before a b = elim a.lease_expires_at [
  | none ↦ true
  | some s ↦ elim b.lease_expires_at [ none ↦ true | some t ↦ leb s t ]
]

abbrev pub requeued : Run → Run
requeued r = record r { status = queued; lease_owner = none; lease_expires_at = none }

-- The rows that `WITH expired` selects.
abbrev pub expired_runs : ℕ → ℕ → Table → List Run
expired_runs now limit rows = take limit (sort_by expires_before (filter (is_expired now) rows))

abbrev pub requeue_hit : List Run → Run → Bool
requeue_hit chosen r = any (λ e. e.id == r.id) chosen

unfoldable pub requeue_expired_runs : ℕ → ℕ → Table → Table × ℕ
requeue_expired_runs now limit rows = (
  update_where (requeue_hit (expired_runs now limit rows)) requeued rows,
  count_if (requeue_hit (expired_runs now limit rows)) rows,
)
