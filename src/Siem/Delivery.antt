-- ===== src/Siem/Delivery.antt =====
-- worker/src/lib.rs: `process_compliance_siem_delivery_outbox` and what it calls. The HTTP client is
-- a parameter: what a request gives, or the text of the error. The times at which a record is
-- handled are functions of the record: of the database, and of the worker's clock.
use rust_agent.Base.{
  ℕ, zero, suc, ◌+◌, ◌*◌, ◌%◌, ◌/◌, ◌^◌, min, max, Bool, true, false, not, ◌&&◌, ◌||◌, any, leb,
  ltb, ◌==◌, Option, none, some, List, [], ◌∷◌, ◌++◌, Text, codes, text_eq, trim,
  to_ascii_lowercase, starts_with, if◌then◌else◌, is_empty, take, ◌⊎◌, inl, inr, decimal,
}
use rust_agent.Runs.{i64_max}
use rust_agent.Siem.{
  Outbox, ComplianceSiemDeliveryRecord, claim_pending_compliance_siem_delivery_records,
  mark_compliance_siem_delivery_record_delivered, mark_compliance_siem_delivery_record_failed,
  mark_compliance_siem_delivery_record_dead_lettered,
}

pub data SiemDeliveryAttempt : Type 0 where
  attempt_delivered : (http_status : Option ℕ) → SiemDeliveryAttempt
  attempt_failed : (http_status : Option ℕ) (error : Text) (retryable : Bool) → SiemDeliveryAttempt

-- The fields of `WorkerConfig` that deliveries use. Durations are in milliseconds.
pub record SiemConfig : Type 0 where
  pub worker_id : Text
  pub compliance_siem_delivery_lease : ℕ
  pub compliance_siem_delivery_batch_size : ℕ
  pub compliance_siem_delivery_http_enabled : Bool
  pub compliance_siem_delivery_http_auth_header : Text
  pub compliance_siem_delivery_http_auth_token : Option Text
  pub compliance_siem_delivery_retry_backoff : ℕ
  pub compliance_siem_delivery_retry_jitter_max : ℕ

pub record HttpPost : Type 0 where
  pub target : Text
  pub headers : List (Text × Text)
  pub body : Text

pub record HttpResponse : Type 0 where
  pub status : ℕ
  pub text : Text

-- `StatusCode::is_success`
abbrev pub is_success : ℕ → Bool
is_success status = leb 200 status && ltb status 300

unfoldable pub is_non_retryable_siem_http_status : ℕ → Bool
is_non_retryable_siem_http_status s =
    any (λ code. s == code) (400 ∷ 401 ∷ 403 ∷ 404 ∷ 405 ∷ 410 ∷ 422 ∷ [])

-- `Uuid::as_bytes`, the first byte first.
abbrev be_bytes : ℕ → ℕ → List ℕ
be_bytes zero n = []
be_bytes (suc k) n = be_bytes k (n / 256) ++ (n % 256) ∷ []

abbrev hash_bytes : List ℕ → ℕ → ℕ
hash_bytes [] accum = accum
hash_bytes (b ∷ bs) accum = hash_bytes bs ((accum * 131 % 2 ^ 64 + b) % 2 ^ 64)

unfoldable pub deterministic_retry_jitter_ms : ℕ → ℕ → ℕ → ℕ
deterministic_retry_jitter_ms id attempt_count zero = 0
deterministic_retry_jitter_ms id attempt_count (suc m) =
    (hash_bytes (be_bytes 16 id) 0 + attempt_count) % 2 ^ 64 % suc m

-- The headers that are added to a request.
unfoldable pub with_optional_auth_header : Text → Option Text → List (Text × Text)
unfolding trim to_ascii_lowercase text_eq starts_with
with_optional_auth_header name none = []
with_optional_auth_header name (some token) =
    let raw = trim token in
    if is_empty raw
    then []
    else if text_eq (to_ascii_lowercase name) (codes "authorization")
        && not (starts_with (to_ascii_lowercase raw) (codes "bearer "))
    then (name, codes "Bearer " ++ raw) ∷ []
    else (name, raw) ∷ []

abbrev pub is_http_target : Text → Bool
is_http_target t = starts_with t (codes "http://") || starts_with t (codes "https://")

-- `retry_ms.saturating_add(retry_jitter_ms)`, after the clamps of the two settings.
unfoldable pub retry_delay_ms : SiemConfig → ComplianceSiemDeliveryRecord → ℕ
unfolding deterministic_retry_jitter_ms
retry_delay_ms config r =
    min
      (min (max config.compliance_siem_delivery_retry_backoff 1) i64_max
        + deterministic_retry_jitter_ms r.id r.attempts
            (min config.compliance_siem_delivery_retry_jitter_max i64_max))
      i64_max

-- `match` of the loop of `process_compliance_siem_delivery_outbox`, for one record.
module _ (config : SiemConfig) (now utc : ComplianceSiemDeliveryRecord → ℕ) where
  unfoldable pub settle :
      SiemDeliveryAttempt
      → ComplianceSiemDeliveryRecord
      → Outbox
      → Outbox × Option ComplianceSiemDeliveryRecord
  settle (attempt_delivered http_status) r rows =
      mark_compliance_siem_delivery_record_delivered (now r) r.id http_status rows
  settle (attempt_failed http_status error true) r rows =
      mark_compliance_siem_delivery_record_failed (now r) r.id error http_status
        (utc r + retry_delay_ms config r * 1000) rows
  settle (attempt_failed http_status error false) r rows =
      mark_compliance_siem_delivery_record_dead_lettered (now r) r.id error http_status rows

module _ (send : HttpPost → HttpResponse ⊎ Text) (config : SiemConfig) where
  abbrev pub siem_post : Text → ComplianceSiemDeliveryRecord → HttpPost
  siem_post target r = record {
    target = target;
    headers =
        (codes "content-type", r.content_type)
        ∷ (codes "x-secureagnt-siem-adapter", r.adapter)
        ∷ with_optional_auth_header config.compliance_siem_delivery_http_auth_header
            config.compliance_siem_delivery_http_auth_token;
    body = r.payload_ndjson;
  }

  unfoldable pub attempt_of_response : HttpResponse ⊎ Text → SiemDeliveryAttempt
  unfolding is_non_retryable_siem_http_status
  attempt_of_response (inl resp) =
      if is_success resp.status
      then attempt_delivered (some resp.status)
      else attempt_failed (some resp.status)
          (codes "http delivery failed: status="
            ++ decimal resp.status
            ++ codes " body="
            ++ take 512 resp.text)
          (not (is_non_retryable_siem_http_status resp.status))
  attempt_of_response (inr err) =
      attempt_failed none (codes "http delivery request failed: " ++ err) true

  -- `client` tells whether there is an HTTP client.
  unfoldable pub attempt_compliance_siem_delivery :
      ComplianceSiemDeliveryRecord → Bool → SiemDeliveryAttempt
  unfolding trim text_eq to_ascii_lowercase starts_with
  attempt_compliance_siem_delivery r client =
      let target = trim r.delivery_target in
      if text_eq (to_ascii_lowercase target) (codes "mock://success")
      then attempt_delivered (some 200)
      else if text_eq (to_ascii_lowercase target) (codes "mock://fail")
      then attempt_failed none (codes "mock failure target") true
      else if is_http_target target
      then if not config.compliance_siem_delivery_http_enabled
        then attempt_failed none
            (codes "HTTP delivery is disabled by WORKER_COMPLIANCE_SIEM_HTTP_ENABLED") false
        else if not client
        then attempt_failed none (codes "HTTP delivery client not configured") false
        else attempt_of_response (send (siem_post target r))
      else attempt_failed none (codes "unsupported SIEM delivery target scheme: " ++ target) false

  module _ (now utc : ComplianceSiemDeliveryRecord → ℕ) where
    -- The loop over the records, and whether it came to its end.
    unfoldable pub deliver_records : List ComplianceSiemDeliveryRecord → Outbox → Outbox × Bool
    deliver_records [] rows = (rows, true)
    deliver_records (r ∷ rs) rows =
        let (rows', found) =
          settle config now utc
            (attempt_compliance_siem_delivery r config.compliance_siem_delivery_http_enabled) r
            rows in
        elim found [ none ↦ (rows', false) | some s ↦ deliver_records rs rows' ]

    -- `built` tells whether the HTTP client could be built; `claim_now` is the time of the claim.
    unfoldable pub process_compliance_siem_delivery_outbox : ℕ → Bool → Outbox → Outbox × Bool
    process_compliance_siem_delivery_outbox claim_now built rows =
        let (rows', records) =
          claim_pending_compliance_siem_delivery_records claim_now config.worker_id
            config.compliance_siem_delivery_lease config.compliance_siem_delivery_batch_size rows in
        if is_empty records
        then (rows', true)
        else if config.compliance_siem_delivery_http_enabled && not built
        then (rows', false)
        else deliver_records records rows'
