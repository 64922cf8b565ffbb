-- ===== src/Runs/Creation.antt =====
-- core/src/db.rs: the statements that insert a run, and the query for the active run of a dedupe key.
use rust_agent.Base.{
  ℕ, Bool, false, ◌&&◌, ◌||◌, ltb, leb, ◌==◌, Option, none, some, [], ◌∷◌, ◌++◌, Text, text_eq,
  if◌then◌else◌, filter, sort_by, any,
}
use rust_agent.Runs.{status_eq, Run, NewRun, Table, new_row, is_inflight, queued, running}

-- `none` is the error of a primary key that is taken; those of the foreign keys are left out.
unfoldable pub insert_run : Run → Table → Option Table
insert_run row rows = if any (λ r. r.id == row.id) rows then none else some (rows ++ row ∷ [])

-- Without a dedupe key, so that the unique index on the keys does not apply.
abbrev pub create_run : ℕ → NewRun → Table → Option Table
create_run now n rows = insert_run (new_row now n) rows

abbrev pub has_dedupe_key : Text → Text → Run → Bool
has_dedupe_key tenant key r =
    text_eq r.tenant_id tenant
    && (elim r.semantic_dedupe_key [ none ↦ false | some k ↦ text_eq k key ] && is_inflight r)

abbrev pub keyed_row : ℕ → NewRun → Text → Run
keyed_row now n key = record (new_row now n) { semantic_dedupe_key = some key }

-- Whether a row stands in the way of a new one in the unique index on the tenant and the key, which
-- holds the rows that wait or run.
abbrev pub is_duplicate : NewRun → Text → Table → Bool
is_duplicate n key rows =
    (status_eq n.status queued || status_eq n.status running)
    && any (has_dedupe_key n.tenant_id key) rows

-- `ON CONFLICT … DO NOTHING RETURNING …`: the new table, and the row if there is a new one. The index
-- of the conflict clause is tested before the primary key.
unfoldable pub create_run_with_semantic_dedupe_key :
    ℕ → NewRun → Text → Table → Option (Table × Option Run)
create_run_with_semantic_dedupe_key now n key rows =
    if is_duplicate n key rows
    then some (rows, none)
    else elim (insert_run (keyed_row now n key) rows) [
      | none ↦ none
      | some rows' ↦ some (rows', some (keyed_row now n key))
    ]

-- `ORDER BY created_at DESC, id DESC`
abbrev pub created_after : Run → Run → Bool
created_after a b = ltb b.created_at a.created_at || a.created_at == b.created_at && leb b.id a.id

unfoldable pub get_active_run_id_by_semantic_dedupe_key : Text → Text → Table → Option ℕ
get_active_run_id_by_semantic_dedupe_key tenant key rows =
    elim (sort_by created_after (filter (has_dedupe_key tenant key) rows)) [
      | [] ↦ none
      | r ∷ rs ↦ some r.id
    ]
