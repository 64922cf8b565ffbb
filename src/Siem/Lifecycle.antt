-- ===== src/Siem/Lifecycle.antt =====
-- The life of the outbox: any workers claim records and settle each record that they hold once, or
-- crash and drop it, and records are created and replayed in between.
use rust_agent.Base.{
  ℕ, ◌≤◌, ◌<◌, Bool, true, false, not, ◌||◌, All, In, is_some, ◌≡◌, some, Text, List, ◌++◌, filter,
  HasUniqueKeys,
}
use rust_agent.Siem.{
  Outbox, ComplianceSiemDeliveryRecord, NewComplianceSiemDeliveryRecord, processing, delivered,
  dead_lettered, delivery_eq, record_id, with_record_id, create_compliance_siem_delivery_record,
  claim_pending_compliance_siem_delivery_records,
  requeue_dead_letter_compliance_siem_delivery_record,
}
use rust_agent.Siem.Delivery.{SiemConfig, SiemDeliveryAttempt, settle}

-- The table, and the records that workers hold: those of their claims that they have not settled.
pub record State : Type 0 where
  pub rows : Outbox
  pub in_flight : List ComplianceSiemDeliveryRecord

abbrev pub drop_record :
    ComplianceSiemDeliveryRecord
    → List ComplianceSiemDeliveryRecord
    → List ComplianceSiemDeliveryRecord
drop_record r rs = filter (λ x. not (with_record_id r.id x)) rs

abbrev pub claim_records : ℕ → Text → ℕ → ℕ → Outbox → Outbox × List ComplianceSiemDeliveryRecord
claim_records = claim_pending_compliance_siem_delivery_records

pub data Step (s : State) : State → Type 0 where
  create :
      (now : ℕ) (n : NewComplianceSiemDeliveryRecord) {rows : Outbox}
      → create_compliance_siem_delivery_record now n s.rows ≡ some rows
      → Step s (record { rows = rows; in_flight = s.in_flight })
  claim :
      (now : ℕ) (owner : Text) (millis limit : ℕ)
      → Step s (record {
        rows = (claim_records now owner millis limit s.rows).0;
        in_flight = (claim_records now owner millis limit s.rows).1 ++ s.in_flight;
      })
  finish :
      (config : SiemConfig) (now utc : ComplianceSiemDeliveryRecord → ℕ)
      → (a : SiemDeliveryAttempt) (r : ComplianceSiemDeliveryRecord) → In r s.in_flight
      → Step s (record {
        rows = (settle config now utc a r s.rows).0;
        in_flight = drop_record r s.in_flight;
      })
  crash :
      (r : ComplianceSiemDeliveryRecord)
      → In r s.in_flight
      → Step s (record { rows = s.rows; in_flight = drop_record r s.in_flight })
  replay :
      (now : ℕ) (tenant : Text) (id retry_at : ℕ)
      → Step s (record {
        rows =
            (requeue_dead_letter_compliance_siem_delivery_record now tenant id retry_at s.rows).0;
        in_flight = s.in_flight;
      })

pub data Reach (s : State) : State → Type 0 where
  here : Reach s s
  next : {t u : State} → Reach s t → Step t u → Reach s u

abbrev pub is_settled : ComplianceSiemDeliveryRecord → Bool
is_settled r = delivery_eq r.status delivered || delivery_eq r.status dead_lettered

abbrev pub is_processing : ComplianceSiemDeliveryRecord → Bool
is_processing r = delivery_eq r.status processing

-- A record has a lease exactly while it is processed, has been tried no more than its maximum, has a
-- try left while it is not settled, and a time of delivery exactly when it is delivered.
pub record IsSound (r : ComplianceSiemDeliveryRecord) : Type 0 where
  pub owned : is_some r.leased_by ≡ is_processing r
  pub timed : is_some r.lease_expires_at ≡ is_processing r
  pub bounded : r.attempts ≤ r.max_attempts
  pub left : is_settled r ≡ false → r.attempts < r.max_attempts
  pub stamped : is_some r.delivered_at ≡ delivery_eq r.status delivered
  pub tries : 1 ≤ r.max_attempts

-- What a worker holds is a row that is processed.
abbrev pub IsHeld : Outbox → ComplianceSiemDeliveryRecord → Type 0
IsHeld rows f =
    (r : ComplianceSiemDeliveryRecord) × In r rows × (r.id ≡ f.id) × (is_processing r ≡ true)

pub record IsValid (s : State) : Type 0 where
  pub unique : HasUniqueKeys record_id s.rows
  pub sound : All IsSound s.rows
  pub apart : HasUniqueKeys record_id s.in_flight
  pub held : All (IsHeld s.rows) s.in_flight
