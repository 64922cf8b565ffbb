-- ===== src/Tests/SiemTests.antt =====
-- The outbox of compliance records on concrete inputs.
use rust_agent.Base.{
  ℕ, Text, codes, some, none, [], ◌∷◌, ◌≡◌, refl, arith, All, inl, true, false, ◌⊎◌, In, ◌<◌, ◌≤◌,
  trim, decimal, to_ascii_lowercase, text_eq, starts_with, map, ◌++◌,
}
use rust_agent.Runs.{clamp_lease_ms}
use rust_agent.Siem.{
  Outbox, DeliveryStatus, ComplianceSiemDeliveryRecord, NewComplianceSiemDeliveryRecord,
  new_record_row, create_compliance_siem_delivery_record,
  claim_pending_compliance_siem_delivery_records, mark_compliance_siem_delivery_record_delivered,
  mark_compliance_siem_delivery_record_failed, mark_compliance_siem_delivery_record_dead_lettered,
  dead_lettered, delivered, requeue_dead_letter_compliance_siem_delivery_record, as_processing,
}
use rust_agent.Siem.Delivery.{
  SiemConfig, HttpPost, HttpResponse, settle, deliver_records, attempt_compliance_siem_delivery,
  process_compliance_siem_delivery_outbox, attempt_of_response, retry_delay_ms,
  deterministic_retry_jitter_ms, with_optional_auth_header, attempt_delivered, attempt_failed,
}
use rust_agent.Siem.Lifecycle.{State, Reach, here, next, create, claim, IsValid, claim_records}
use rust_agent.Siem.Invariant.{empty_outbox, Reach-empty_outbox-IsValid}
use rust_agent.Siem.Lost.{IsLost, Reach-IsLost}
use rust_agent.Siem.Rounds.{process-outcome, outcome}
use rust_agent.Siem.Attempts.{IsDelivery, attempt-IsDelivery, retry_delay_ms_bounds}

running_outbox : Unit {0}
unfolding create_compliance_siem_delivery_record claim_pending_compliance_siem_delivery_records
    mark_compliance_siem_delivery_record_delivered mark_compliance_siem_delivery_record_failed
    mark_compliance_siem_delivery_record_dead_lettered
    requeue_dead_letter_compliance_siem_delivery_record settle deliver_records
    attempt_compliance_siem_delivery process_compliance_siem_delivery_outbox attempt_of_response
    retry_delay_ms deterministic_retry_jitter_ms with_optional_auth_header clamp_lease_ms trim
    to_ascii_lowercase text_eq starts_with decimal
running_outbox = tt

abbrev asked_record : ℕ → Text → NewComplianceSiemDeliveryRecord
asked_record id target = record {
  id = id;
  tenant_id = codes "t";
  run_id = none;
  adapter = codes "splunk_hec";
  delivery_target = target;
  content_type = codes "application/x-ndjson";
  payload_ndjson = codes "{}";
  max_attempts = 1;
}

abbrev web_record : ComplianceSiemDeliveryRecord
web_record = new_record_row 0 (asked_record 7 (codes " https://siem "))

abbrev mock_record : ComplianceSiemDeliveryRecord
mock_record = new_record_row 1 (asked_record 8 (codes "MOCK://success"))

abbrev two_records : Outbox
two_records = web_record ∷ mock_record ∷ []

abbrev siem_config : SiemConfig
siem_config = record {
  worker_id = codes "w";
  compliance_siem_delivery_lease = 1000;
  compliance_siem_delivery_batch_size = 5;
  compliance_siem_delivery_http_enabled = true;
  compliance_siem_delivery_http_auth_header = codes "Authorization";
  compliance_siem_delivery_http_auth_token = some (codes "secret");
  compliance_siem_delivery_retry_backoff = 100;
  compliance_siem_delivery_retry_jitter_max = 50;
}

abbrev refusing : HttpPost → HttpResponse ⊎ Text
refusing p = inl (record { status = 503; text = codes "busy" })

abbrev accepting : HttpPost → HttpResponse ⊎ Text
accepting p = inl (record { status = 204; text = [] })

abbrev at_nine : ComplianceSiemDeliveryRecord → ℕ
at_nine r = 9

-- The only try of the web record fails, and the mock record is delivered.
one_round :
    map {B = DeliveryStatus × ℕ}
      (λ r. (r.status, r.attempts))
      (process_compliance_siem_delivery_outbox refusing siem_config at_nine at_nine 5 true
        two_records).0
    ≡ (dead_lettered, 1) ∷ (delivered, 1) ∷ []
unfolding running_outbox
one_round = refl

refused_error :
    attempt_compliance_siem_delivery refusing siem_config web_record true
    ≡ attempt_failed (some 503) (codes "http delivery failed: status=503 body=busy") true
unfolding running_outbox
refused_error = refl

-- Where the client cannot be built, the records that were claimed stay in the hands of nobody.
unbuilt_round :
    (process_compliance_siem_delivery_outbox refusing siem_config at_nine at_nine 5 false
      two_records).1
    ≡ false
unfolding running_outbox
unbuilt_round = refl

process-outcome_example :
    ((process_compliance_siem_delivery_outbox refusing siem_config at_nine at_nine 5 true
        two_records).1
      ≡ true)
    × All
        (λ r.
          In
            (outcome refusing siem_config at_nine at_nine r)
            (process_compliance_siem_delivery_outbox refusing siem_config at_nine at_nine 5 true
              two_records).0)
        (claim_records 5 (codes "w") 1000 5 two_records).1
process-outcome_example =
    process-outcome refusing siem_config at_nine at_nine 5 two_records (omega arith)

accepted :
    attempt_compliance_siem_delivery accepting siem_config web_record true
    ≡ attempt_delivered (some 204)
unfolding running_outbox
accepted = refl

attempt-IsDelivery_example : IsDelivery accepting siem_config web_record (some 204)
attempt-IsDelivery_example =
    attempt-IsDelivery accepting siem_config web_record true (some 204) accepted

retry_delay_ms_bounds_example :
    (100 ≤ retry_delay_ms siem_config web_record) × (retry_delay_ms siem_config web_record < 150)
retry_delay_ms_bounds_example =
    retry_delay_ms_bounds siem_config web_record (omega arith) (omega arith)

abbrev after_create : State
after_create = record { rows = web_record ∷ []; in_flight = [] }

abbrev after_siem_claim : State
after_siem_claim = record {
  rows = (claim_records 5 (codes "w") 1000 5 (web_record ∷ [])).0;
  in_flight = (claim_records 5 (codes "w") 1000 5 (web_record ∷ [])).1 ++ [];
}

created_record :
    create_compliance_siem_delivery_record 0 (asked_record 7 (codes " https://siem ")) []
    ≡ some (web_record ∷ [])
unfolding running_outbox
created_record = refl

to_claim : Reach empty_outbox after_siem_claim
to_claim =
    next (next here (create 0 (asked_record 7 (codes " https://siem ")) created_record))
      (claim 5 (codes "w") 1000 5)

Reach-empty_outbox-IsValid_example : IsValid after_siem_claim
Reach-empty_outbox-IsValid_example = Reach-empty_outbox-IsValid to_claim

-- The record that the worker took down with it.
lost_record : ComplianceSiemDeliveryRecord
unfolding clamp_lease_ms
lost_record = as_processing 5 (codes "w") 1000 web_record

abbrev lost_state : State
lost_state = record { rows = lost_record ∷ []; in_flight = [] }

lost_state-IsValid : IsValid lost_state
unfolding lost_record
lost_state-IsValid = record { unique = (tt, tt); sound = (ground arith, tt); apart = tt; held = tt }

lost_state-IsLost : IsLost lost_record lost_state
unfolding lost_record
lost_state-IsLost = record { listed = inl refl; taken = refl; unheld = tt }

abbrev after_lost_claim : State
after_lost_claim = record {
  rows = (claim_records 999999999 (codes "v") 1000 5 (lost_record ∷ [])).0;
  in_flight = (claim_records 999999999 (codes "v") 1000 5 (lost_record ∷ [])).1 ++ [];
}

Reach-IsLost_example : IsLost lost_record after_lost_claim
Reach-IsLost_example =
    Reach-IsLost lost_record (next here (claim 999999999 (codes "v") 1000 5)) lost_state-IsValid
      lost_state-IsLost
