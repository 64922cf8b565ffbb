-- ===== src/Siem.antt =====
-- core/src/db.rs: the outbox of compliance records for a SIEM, and the statements on it; the
-- deliveries of worker/src/lib.rs are in Siem/Delivery. A table is its list of rows, `now` the time
-- of the database in microseconds, a lease is given in milliseconds. A statement is one step: that
-- `SKIP LOCKED` passes by rows which another statement holds is left out.
pub mod Delivery
pub mod Lifecycle
pub mod Claims
pub mod Invariant
pub mod Lost
pub mod Rounds
pub mod Attempts
use rust_agent.Base.{
  ℕ, suc, ◌+◌, ◌*◌, min, max, Bool, true, false, ◌&&◌, ◌||◌, ltb, leb, ◌==◌, Option, none, some,
  List, [], ◌∷◌, ◌++◌, map, Text, text_eq, if◌then◌else◌, filter, find, any, take, sort_by,
  update_rows, has_key, is_chosen,
}
use rust_agent.Runs.{lease_end, clamp_lease_ms}

pub data DeliveryStatus : Type 0 where
  pending processing failed delivered dead_lettered : DeliveryStatus

abbrev delivery_number : DeliveryStatus → ℕ
delivery_number pending = 0
delivery_number processing = 1
delivery_number failed = 2
delivery_number delivered = 3
delivery_number dead_lettered = 4

abbrev pub delivery_eq : DeliveryStatus → DeliveryStatus → Bool
delivery_eq a b = delivery_number a == delivery_number b

-- Identifiers are the 128 bits of a UUID.
pub record ComplianceSiemDeliveryRecord : Type 0 where
  pub id : ℕ
  pub tenant_id : Text
  pub run_id : Option ℕ
  pub adapter : Text
  pub delivery_target : Text
  pub content_type : Text
  pub payload_ndjson : Text
  pub status : DeliveryStatus
  pub attempts : ℕ
  pub max_attempts : ℕ
  pub next_attempt_at : ℕ
  pub leased_by : Option Text
  pub lease_expires_at : Option ℕ
  pub last_error : Option Text
  pub last_http_status : Option ℕ
  pub created_at : ℕ
  pub updated_at : ℕ
  pub delivered_at : Option ℕ

pub record NewComplianceSiemDeliveryRecord : Type 0 where
  pub id : ℕ
  pub tenant_id : Text
  pub run_id : Option ℕ
  pub adapter : Text
  pub delivery_target : Text
  pub content_type : Text
  pub payload_ndjson : Text
  pub max_attempts : ℕ

abbrev pub Outbox : Type 0
Outbox = List ComplianceSiemDeliveryRecord

abbrev pub record_id : ComplianceSiemDeliveryRecord → ℕ
record_id r = r.id

abbrev pub with_record_id : ℕ → ComplianceSiemDeliveryRecord → Bool
with_record_id id r = has_key record_id id r

-- The row of the `INSERT`; the columns that it does not name have their defaults. A maximum below
-- one, also a negative one, is raised to one.
abbrev pub new_record_row : ℕ → NewComplianceSiemDeliveryRecord → ComplianceSiemDeliveryRecord
new_record_row now n = record {
  id = n.id;
  tenant_id = n.tenant_id;
  run_id = n.run_id;
  adapter = n.adapter;
  delivery_target = n.delivery_target;
  content_type = n.content_type;
  payload_ndjson = n.payload_ndjson;
  status = pending;
  attempts = 0;
  max_attempts = min (max n.max_attempts 1) 100;
  next_attempt_at = now;
  leased_by = none;
  lease_expires_at = none;
  last_error = none;
  last_http_status = none;
  created_at = now;
  updated_at = now;
  delivered_at = none;
}

-- `none` is the error of a primary key that is taken.
unfoldable pub create_compliance_siem_delivery_record :
    ℕ → NewComplianceSiemDeliveryRecord → Outbox → Option Outbox
create_compliance_siem_delivery_record now n rows =
    if any (with_record_id n.id) rows then none else some (rows ++ new_record_row now n ∷ [])

-- The condition of `WITH claimable`.
abbrev pub is_claimable_record : ℕ → ComplianceSiemDeliveryRecord → Bool
is_claimable_record now r =
    (delivery_eq r.status pending || delivery_eq r.status failed)
    && (leb r.next_attempt_at now
        && elim r.lease_expires_at [ none ↦ true | some until ↦ leb until now ])

-- `ORDER BY next_attempt_at ASC, created_at ASC, id ASC`
abbrev pub attempted_before : ComplianceSiemDeliveryRecord → ComplianceSiemDeliveryRecord → Bool
attempted_before a b =
    ltb a.next_attempt_at b.next_attempt_at
    || a.next_attempt_at == b.next_attempt_at
      && (ltb a.created_at b.created_at || a.created_at == b.created_at && leb a.id b.id)

abbrev pub claimable_records : ℕ → ℕ → Outbox → List ComplianceSiemDeliveryRecord
claimable_records now limit rows =
    take (min (max limit 1) 100) (sort_by attempted_before (filter (is_claimable_record now) rows))

abbrev pub as_processing :
    ℕ → Text → ℕ → ComplianceSiemDeliveryRecord → ComplianceSiemDeliveryRecord
as_processing now owner millis r = record r {
  status = processing;
  leased_by = some owner;
  lease_expires_at = some (lease_end now millis);
  updated_at = now;
}

abbrev pub record_hit : ℕ → ℕ → Outbox → ComplianceSiemDeliveryRecord → Bool
record_hit now limit rows = is_chosen record_id (claimable_records now limit rows)

-- The new table, and the rows that `RETURNING` gives.
unfoldable pub claim_pending_compliance_siem_delivery_records :
    ℕ → Text → ℕ → ℕ → Outbox → Outbox × List ComplianceSiemDeliveryRecord
claim_pending_compliance_siem_delivery_records now owner millis limit rows = (
  update_rows (record_hit now limit rows) (as_processing now owner millis) rows,
  map (as_processing now owner millis) (filter (record_hit now limit rows) rows),
)

abbrev pub as_delivered : ℕ → Option ℕ → ComplianceSiemDeliveryRecord → ComplianceSiemDeliveryRecord
as_delivered now http_status r = record r {
  status = delivered;
  attempts = suc r.attempts;
  last_error = none;
  last_http_status = http_status;
  leased_by = none;
  lease_expires_at = none;
  delivered_at = some now;
  updated_at = now;
}

abbrev is_last_attempt : ComplianceSiemDeliveryRecord → Bool
is_last_attempt r = leb r.max_attempts (suc r.attempts)

abbrev pub as_attempt_failed :
    ℕ → Text → Option ℕ → ℕ → ComplianceSiemDeliveryRecord → ComplianceSiemDeliveryRecord
as_attempt_failed now error http_status retry_at r = record r {
  attempts = suc r.attempts;
  status = if is_last_attempt r then dead_lettered else failed;
  last_error = some error;
  last_http_status = http_status;
  leased_by = none;
  lease_expires_at = none;
  next_attempt_at = if is_last_attempt r then now else retry_at;
  updated_at = now;
}

abbrev pub as_dead_lettered :
    ℕ → Text → Option ℕ → ComplianceSiemDeliveryRecord → ComplianceSiemDeliveryRecord
as_dead_lettered now error http_status r = record r {
  attempts = suc r.attempts;
  status = dead_lettered;
  last_error = some error;
  last_http_status = http_status;
  leased_by = none;
  lease_expires_at = none;
  next_attempt_at = now;
  updated_at = now;
}

-- An `UPDATE … WHERE id = $1 RETURNING …` with `fetch_one`: the new table, and the row, which is
-- an error where there is none.
abbrev pub update_record :
    (ComplianceSiemDeliveryRecord → ComplianceSiemDeliveryRecord)
    → ℕ
    → Outbox
    → Outbox × Option ComplianceSiemDeliveryRecord
update_record f id rows = (
  update_rows (with_record_id id) f rows,
  elim (find (with_record_id id) rows) [ none ↦ none | some r ↦ some (f r) ],
)

unfoldable pub mark_compliance_siem_delivery_record_delivered :
    ℕ → ℕ → Option ℕ → Outbox → Outbox × Option ComplianceSiemDeliveryRecord
mark_compliance_siem_delivery_record_delivered now id http_status rows =
    update_record (as_delivered now http_status) id rows

unfoldable pub mark_compliance_siem_delivery_record_failed :
    ℕ → ℕ → Text → Option ℕ → ℕ → Outbox → Outbox × Option ComplianceSiemDeliveryRecord
mark_compliance_siem_delivery_record_failed now id error http_status retry_at rows =
    update_record (as_attempt_failed now error http_status retry_at) id rows

unfoldable pub mark_compliance_siem_delivery_record_dead_lettered :
    ℕ → ℕ → Text → Option ℕ → Outbox → Outbox × Option ComplianceSiemDeliveryRecord
mark_compliance_siem_delivery_record_dead_lettered now id error http_status rows =
    update_record (as_dead_lettered now error http_status) id rows

abbrev pub replay_hit : Text → ℕ → ComplianceSiemDeliveryRecord → Bool
replay_hit tenant id r =
    with_record_id id r && (text_eq r.tenant_id tenant && delivery_eq r.status dead_lettered)

abbrev pub as_requeued : ℕ → ℕ → ComplianceSiemDeliveryRecord → ComplianceSiemDeliveryRecord
as_requeued now retry_at r = record r {
  status = pending;
  attempts = 0;
  next_attempt_at = retry_at;
  leased_by = none;
  lease_expires_at = none;
  last_error = none;
  last_http_status = none;
  updated_at = now;
}

unfoldable pub requeue_dead_letter_compliance_siem_delivery_record :
    ℕ → Text → ℕ → ℕ → Outbox → Outbox × Option ComplianceSiemDeliveryRecord
requeue_dead_letter_compliance_siem_delivery_record now tenant id retry_at rows = (
  update_rows (replay_hit tenant id) (as_requeued now retry_at) rows,
  elim (find (replay_hit tenant id) rows) [
    | none ↦ none
    | some r ↦ some (as_requeued now retry_at r)
  ],
)
