-- ===== src/Siem/Attempts.antt =====
-- What one attempt at a delivery reports.
use rust_agent.Base.{
  ℕ, max, min, ◌+◌, ◌≤◌, ◌<◌, true, arith, ◌≡◌, some, ◌⊎◌, Text, codes, inl, inr, sym, refl, Bool,
  Bool-cases, text_eq, to_ascii_lowercase, trim, zero, suc, Option, subst,
}
use rust_agent.Runs.{i64_max}
use rust_agent.Siem.{ComplianceSiemDeliveryRecord}
use rust_agent.Siem.Delivery.{
  SiemConfig, HttpPost, HttpResponse, attempt_delivered, attempt_compliance_siem_delivery,
  attempt_of_response, siem_post, is_http_target, retry_delay_ms, deterministic_retry_jitter_ms,
}

-- Why a delivery may be reported: the target is the mock that succeeds, or HTTP is enabled, the
-- target has its scheme, and the answer to the request has a status of success.
pub data IsDelivery (send : HttpPost → HttpResponse ⊎ Text) (config : SiemConfig)
    (r : ComplianceSiemDeliveryRecord) : Option ℕ → Type 0 where
  mocked :
      text_eq (to_ascii_lowercase (trim r.delivery_target)) (codes "mock://success") ≡ true
      → IsDelivery send config r (some 200)
  answered :
      (resp : HttpResponse)
      → config.compliance_siem_delivery_http_enabled ≡ true
      → is_http_target (trim r.delivery_target) ≡ true
      → send (siem_post send config (trim r.delivery_target) r) ≡ inl resp
      → 200 ≤ resp.status
      → resp.status < 300
      → IsDelivery send config r (some resp.status)

module _ (send : HttpPost → HttpResponse ⊎ Text) (config : SiemConfig) where
  attempt_of_response-delivered :
      (o : HttpResponse ⊎ Text) (st : Option ℕ)
      → attempt_of_response send config o ≡ attempt_delivered st
      → (resp : HttpResponse) × (o ≡ inl resp)
        × (200 ≤ resp.status)
        × (resp.status < 300)
        × (st ≡ some resp.status)
  unfolding attempt_of_response
  attempt_of_response-delivered (inl resp) st e =
      (resp, refl, ground arith, ground arith, ground arith)
  attempt_of_response-delivered (inr err) st e = cc

  -- A delivery that an attempt reports is the mock's or was answered with success over HTTP, which
  -- was enabled.
  pub attempt-IsDelivery :
      (r : ComplianceSiemDeliveryRecord) (client : Bool) (st : Option ℕ)
      → attempt_compliance_siem_delivery send config r client ≡ attempt_delivered st
      → IsDelivery send config r st
  unfolding attempt_compliance_siem_delivery
  attempt-IsDelivery r client st e =
      let target = trim r.delivery_target in
      let name = to_ascii_lowercase target in
      elim (Bool-cases (text_eq name (codes "mock://success"))) [
        | inl mock ↦
            let same : some 200 ≡ st = ground arith in
            subst (IsDelivery send config r) same (mocked mock)
        | inr real ↦ elim (Bool-cases (text_eq name (codes "mock://fail"))) [
          | inl mock ↦ absurd (ground arith)
          | inr other ↦ elim (Bool-cases (is_http_target target)) [
            | inl http ↦ elim (Bool-cases config.compliance_siem_delivery_http_enabled) [
              | inl on ↦
                  let (resp, sent, lo, hi, same) =
                    attempt_of_response-delivered (send (siem_post send config target r)) st
                      (ground arith) in
                  subst (IsDelivery send config r) (sym same) (answered resp on http sent lo hi)
              | inr off ↦ absurd (ground arith)
            ]
            | inr neither ↦ absurd (ground arith)
          ]
        ]
      ]

deterministic_retry_jitter_ms_bound :
    (id attempts most : ℕ) → 0 < most → deterministic_retry_jitter_ms id attempts most < most
unfolding deterministic_retry_jitter_ms
deterministic_retry_jitter_ms_bound id attempts zero h = h
deterministic_retry_jitter_ms_bound id attempts (suc m) h = omega arith

-- The delay before a retry, in milliseconds, is at least the backoff and less than the backoff and
-- the bound on the jitter together, while these fit an `i64` and the bound is not zero.
pub retry_delay_ms_bounds :
    (config : SiemConfig) (r : ComplianceSiemDeliveryRecord)
    → 0 < config.compliance_siem_delivery_retry_jitter_max
    → max config.compliance_siem_delivery_retry_backoff 1
        + config.compliance_siem_delivery_retry_jitter_max
      ≤ i64_max
    → (max config.compliance_siem_delivery_retry_backoff 1 ≤ retry_delay_ms config r)
      × (retry_delay_ms config r
          < max config.compliance_siem_delivery_retry_backoff 1
            + config.compliance_siem_delivery_retry_jitter_max)
unfolding retry_delay_ms
retry_delay_ms_bounds config r h k =
    let bound =
      deterministic_retry_jitter_ms_bound r.id r.attempts
        (min config.compliance_siem_delivery_retry_jitter_max i64_max) (ground arith) in
    (ground arith, ground arith)
