-- ===== src/Runs/Queue.antt =====
-- core/src/db.rs: the order in which waiting runs are claimed, and the claim of the next one.
-- No statement of another connection comes between those of a claim here: `FOR UPDATE SKIP LOCKED`,
-- by which its `SELECT` passes by the rows that another statement holds at that time, is left out.
use rust_agent.Base.{
  ℕ, ◌+◌, max, Bool, ◌&&◌, ◌||◌, ltb, leb, ◌==◌, Option, none, some, List, Text, codes, text_eq,
  to_ascii_lowercase, if◌then◌else◌, filter, is_empty, take, sort_by,
}
use rust_agent.Json.{Value, null, string, get}
use rust_agent.Runs.{Run, Table, global_inflight_count, is_claimable, claim_first}

-- What `->>` gives for a value that is neither a string nor null is the database's.
module _ (json_text : Value → Text) where
  -- `input_json->>'key'`
  abbrev pub text_field : Text → Value → Option Text
  text_field k v = elim (get k v) [
    | none ↦ none
    | some null ↦ none
    | some (string t) ↦ some t
    | some other ↦ some (json_text other)
  ]

  -- `lower(COALESCE(…, …, 'interactive'))`; of the two names that it is compared with, `lower` and
  -- the lower case of ASCII letters give the same texts.
  unfoldable pub class_of_input : Value → Text
  class_of_input input = to_ascii_lowercase (elim (text_field (codes "queue_class") input) [
    | some t ↦ t
    | none ↦ elim (text_field (codes "llm_queue_class") input) [
      | some t ↦ t
      | none ↦ codes "interactive"
    ]
  ])

  abbrev pub queue_class : Run → Text
  queue_class r = class_of_input r.input_json

  -- The `CASE` of the `ORDER BY`: a batch run waits behind the others for fifteen minutes.
  unfoldable pub claim_rank : ℕ → Run → ℕ
  claim_rank now r =
      if text_eq (queue_class r) (codes "batch") && leb (r.created_at + 900000000) now
      then 0
      else if text_eq (queue_class r) (codes "interactive")
      then 0
      else if text_eq (queue_class r) (codes "batch")
      then 1
      else 0

  unfoldable pub claims_before : ℕ → Run → Run → Bool
  claims_before now a b =
      let ra = claim_rank now a in
      let rb = claim_rank now b in ltb ra rb || ra == rb && leb a.created_at b.created_at

  abbrev pub candidates : ℕ → Table → List Run
  candidates now rows = take 64 (sort_by (claims_before now) (filter (is_claimable now) rows))

  -- The caps are `i64` in the source; a negative one is raised to 1 as 0 is.
  unfoldable pub claim_next_queued_run_with_limits :
      ℕ → Text → ℕ → ℕ → ℕ → Table → Table × Option Run
  claim_next_queued_run_with_limits now worker millis global_max tenant_max rows =
      if is_empty (candidates now rows)
      then (rows, none)
      else if leb (max global_max 1) (global_inflight_count rows)
      then (rows, none)
      else claim_first now worker millis (max tenant_max 1) (candidates now rows) rows
