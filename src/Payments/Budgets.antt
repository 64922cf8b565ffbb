-- ===== src/Payments/Budgets.antt =====
-- What one payment of worker/src/lib.rs does to the sums that its budgets limit.
use rust_agent.Base.{
  ℕ, ◌+◌, ◌≤◌, min, Bool, true, false, ◌≡◌, refl, sym, ap, [], ◌∷◌, ◌++◌, Text, All, arith, Option,
  none, some, Option-cases, Bool-cases, inl, inr, ◌⊎◌, ◌∙◌, update_rows, if◌then◌else◌, subst,
}
use rust_agent.Payments.{
  PaymentConfig, Payment, PaymentRequest, Requests, PaymentStatus, requested, executed, failed,
  update_payment_request_status, has_request_id, with_status, is_taken, payment_refusal,
  sum_amounts, is_spent, amount_of, is_pay_invoice, saturating_add, u64_max, exceeds,
  sum_executed_payment_amount_msat_for_tenant, sum_executed_payment_amount_msat_for_agent,
}
use rust_agent.Payments.Sending.{
  PaymentState, RailResult, settled, declined, abandoned, finish_payment, rail, pay,
  new_payment_request, persist_failed_payment_request, record_execution,
}
use rust_agent.Payments.Ledger.{sum_amounts-append, update-absent, update_rows-append}
use rust_agent.Payments.Health.{HealthMap}

-- What a payment does to the table and to the spend of the run.
pub data Effect (approved : Type 0) (id : ℕ) (p : Payment) (s s' : PaymentState) : Type 0 where
  kept :
      s'.requests ≡ s.requests
      → s'.payment_spend_msat ≡ s.payment_spend_msat
      → Effect approved id p s s'
  was_failed :
      s'.requests ≡ update_payment_request_status id failed s.requests
      → s'.payment_spend_msat ≡ s.payment_spend_msat
      → Effect approved id p s s'
  was_executed :
      approved
      → s'.requests ≡ update_payment_request_status id executed s.requests
      → s'.payment_spend_msat ≡ (
          if is_pay_invoice p.operation
          then saturating_add s.payment_spend_msat (amount_of p.amount_msat)
          else s.payment_spend_msat)
      → Effect approved id p s s'

module _ (id : ℕ) (p : Payment) (approved : Type 0) (ok : approved) where
  finish_payment-Effect :
      (r : RailResult) (s : PaymentState) (m : HealthMap)
      → Effect approved id p s (finish_payment id p r (record s { health = m })).0
  unfolding record_execution persist_failed_payment_request
  finish_payment-Effect settled s m = was_executed ok refl refl
  finish_payment-Effect (declined code) s m = was_failed refl refl
  finish_payment-Effect abandoned s m = kept refl refl

-- The sums of the rows that a condition selects, where it selects executed rows alone.
module _ (q : PaymentRequest → Bool) (new : PaymentRequest) (rows : Requests)
    (untaken : All (λ x. is_taken new x ≡ false) rows) where
  fresh_id :
      (xs : Requests)
      → All (λ x. is_taken new x ≡ false) xs
      → All (λ r. has_request_id new.id r ≡ false) xs
  fresh_id [] h = tt
  fresh_id (x ∷ xs) (e, h) = (ground arith, fresh_id xs h)

  sum_amounts-update :
      (st : PaymentStatus)
      → sum_amounts q (update_payment_request_status new.id st (rows ++ new ∷ []))
        ≡ sum_amounts q rows + sum_amounts q (with_status st new ∷ [])
  unfolding update_payment_request_status
  sum_amounts-update st =
      rw
        (
          update_rows-append new.id st rows (new ∷ []),
          update-absent new.id st rows (fresh_id rows untaken),
        )
        (sum_amounts-append q rows (update_rows (has_request_id new.id) (with_status st) (new ∷ []))
          ∙ ap (λ xs. sum_amounts q rows + sum_amounts q xs) hit)
    where
      hit :
          update_rows (has_request_id new.id) (with_status st) (new ∷ []) ≡ with_status st new ∷ []
      hit = ground arith

-- An amount of a budget that is not gone beyond: amounts are `u64` and their sums saturate.
abbrev pub IsWithin : Option ℕ → ℕ → Type 0
IsWithin none spent = Unit
IsWithin (some limit) spent = min spent u64_max ≤ limit

pub record IsWithinBudgets (config : PaymentConfig) (tenant : Text) (agent : ℕ) (s : PaymentState)
    : Type 0 where
  pub of_run : IsWithin config.payment_max_spend_msat_per_run s.payment_spend_msat
  pub of_its_tenant :
      IsWithin config.payment_max_spend_msat_per_tenant
        (sum_executed_payment_amount_msat_for_tenant tenant s.requests)
  pub of_its_agent :
      IsWithin config.payment_max_spend_msat_per_agent
        (sum_executed_payment_amount_msat_for_agent tenant agent s.requests)

pub IsWithin-mono : (limit : Option ℕ) (m n : ℕ) → m ≤ n → IsWithin limit n → IsWithin limit m
IsWithin-mono none m n h k = tt
IsWithin-mono (some limit) m n h k = ground arith

exceeds-IsWithin :
    (limit : Option ℕ) (spent amount : ℕ)
    → exceeds limit spent amount ≡ false
    → IsWithin limit (spent + amount)
exceeds-IsWithin none spent amount h = tt
exceeds-IsWithin (some limit) spent amount h = ground arith

pub exceeds-IsWithin_saturating :
    (limit : Option ℕ) (spent amount : ℕ)
    → exceeds limit spent amount ≡ false
    → IsWithin limit (saturating_add spent amount)
exceeds-IsWithin_saturating none spent amount h = tt
exceeds-IsWithin_saturating (some limit) spent amount h = ground arith

-- A payment of an invoice that no check refuses is within each budget.
pub payment_refusal-none :
    (config : PaymentConfig) (run tenants agents : ℕ) (p : Payment) (amount : ℕ)
    → payment_refusal config run tenants agents p ≡ none
    → is_pay_invoice p.operation ≡ true
    → p.amount_msat ≡ some amount
    → (exceeds config.payment_max_spend_msat_per_run run amount ≡ false)
      × (exceeds config.payment_max_spend_msat_per_tenant tenants amount ≡ false)
      × (exceeds config.payment_max_spend_msat_per_agent agents amount ≡ false)
unfolding payment_refusal
payment_refusal-none config run tenants agents p amount h k e =
    let h' = rw (k, e, payment_refusal) at h in (ground arith, ground arith, ground arith)

module _ (route_hash : Text → Text → ℕ) (send_nwc send_cashu : Payment → Text → Option Bool)
    (asked lost : Text → ℕ) (config : PaymentConfig) (tenant : Text) (agent : ℕ) where
  abbrev tenant_spent : PaymentState → ℕ
  tenant_spent s = sum_executed_payment_amount_msat_for_tenant tenant s.requests

  abbrev agent_spent : PaymentState → ℕ
  agent_spent s = sum_executed_payment_amount_msat_for_agent tenant agent s.requests

  -- No check refuses the payment.
  abbrev pub IsApproved : Payment → PaymentState → Type 0
  IsApproved p s =
      payment_refusal config s.payment_spend_msat (tenant_spent s) (agent_spent s) p ≡ none

  pub pay-Effect :
      (id : ℕ) (p : Payment) (s : PaymentState)
      → Effect
          (IsApproved p s)
          id
          p
          s
          (pay route_hash send_nwc send_cashu asked lost config tenant agent id p s).0
  unfolding pay persist_failed_payment_request
  pay-Effect id p s =
      elim (Option-cases
        (payment_refusal config s.payment_spend_msat (tenant_spent s) (agent_spent s) p)) [
          | inr (code, e) ↦ rw (e, pay) (was_failed refl refl)
          | inl e ↦
              let run = rail route_hash send_nwc send_cashu asked lost config p s.health in
              let same : pay route_hash send_nwc send_cashu asked lost config tenant agent id p s
                  ≡ finish_payment id p run.1 (record s { health = run.0 }) =
                rw (e, pay) refl in
              subst (λ y. Effect (IsApproved p s) id p s y.0) (sym same)
                (finish_payment-Effect id p (IsApproved p s) e run.1 s run.0)
        ]

  -- A request that is added adds nothing to the sums, nor does its failure; its execution adds the
  -- amount of the payment of an invoice.
  module _ (id action_request_id : ℕ) (p : Payment) (s : PaymentState) where
    abbrev pub new_one : PaymentRequest
    new_one = new_payment_request tenant agent id action_request_id p

    abbrev pub with_request : PaymentState
    with_request = record s { requests = s.requests ++ new_one ∷ [] }

    abbrev pub CountsSpent : (PaymentRequest → Bool) → Type 0
    CountsSpent q = (r : PaymentRequest) → q r ≡ true → is_spent r ≡ true

    not_spent :
        (q : PaymentRequest → Bool) (st : PaymentStatus)
        → CountsSpent q
        → is_spent (with_status st new_one) ≡ false
        → sum_amounts q (with_status st new_one ∷ []) ≡ 0
    not_spent q st c n = elim (Bool-cases (q (with_status st new_one))) [
      | inl counted ↦ absurd (ground (arith, c (with_status st new_one) counted))
      | inr free ↦ rw free refl
    ]

    amount_bound :
        (q : PaymentRequest → Bool)
        → sum_amounts q (with_status executed new_one ∷ []) ≤ amount_of p.amount_msat
    amount_bound q = elim (Bool-cases (q (with_status executed new_one))) [
      | inl e ↦ rw e (omega arith)
      | inr e ↦ rw e (omega arith)
    ]

    Effect-sum_amounts :
        (q : PaymentRequest → Bool) (approved : Type 0) (s' : PaymentState)
        → CountsSpent q
        → All (λ x. is_taken new_one x ≡ false) s.requests
        → Effect approved id p with_request s'
        → (sum_amounts q s'.requests ≡ sum_amounts q s.requests)
          ⊎ (approved
              × (is_pay_invoice p.operation ≡ true)
              × (sum_amounts q s'.requests ≤ sum_amounts q s.requests + amount_of p.amount_msat))
    Effect-sum_amounts q approved s' c u (kept e _) =
        let split = sum_amounts-append q s.requests (new_one ∷ []) in
        let zero = not_spent q requested c (ground arith) in
        inl (ap (sum_amounts q) e ∙ split ∙ omega (arith, zero))
    Effect-sum_amounts q approved s' c u (was_failed e _) =
        let split = sum_amounts-update q new_one s.requests u failed in
        let zero = not_spent q failed c (ground arith) in
        inl (ap (sum_amounts q) e ∙ split ∙ omega (arith, zero))
    Effect-sum_amounts q approved s' c u (was_executed a e _) =
        let split = ap (sum_amounts q) e ∙ sum_amounts-update q new_one s.requests u executed in
        elim (Bool-cases (is_pay_invoice p.operation)) [
          | inl pays ↦ inr (a, pays, omega (arith, split, amount_bound q))
          | inr not_pays ↦
              let zero = not_spent q executed c (ground arith) in inl (omega (arith, split, zero))
        ]

    -- A sum that stays within its limit, if the checks see the sum before the payment.
    pub Effect-IsWithin :
        (limit : Option ℕ) (q : PaymentRequest → Bool) (approved : Type 0) (s' : PaymentState)
        → CountsSpent q
        → All (λ x. is_taken new_one x ≡ false) s.requests
        → Effect approved id p with_request s'
        → (approved
            → is_pay_invoice p.operation ≡ true
            → (amount : ℕ) → p.amount_msat ≡ some amount
            → exceeds limit (sum_amounts q with_request.requests) amount ≡ false)
        → IsWithin limit (sum_amounts q s.requests)
        → IsWithin limit (sum_amounts q s'.requests)
    Effect-IsWithin limit q approved s' c u ef check h =
        elim (Effect-sum_amounts q approved s' c u ef) [
          | inl e ↦ rw e h
          | inr (a, pays, le) ↦ elim (Option-cases p.amount_msat) [
            | inl e ↦ IsWithin-mono limit _ (sum_amounts q s.requests) (ground (arith, le)) h
            | inr (amount, e) ↦
                let same =
                  sum_amounts-append q s.requests (new_one ∷ [])
                  ∙ omega (arith, not_spent q requested c (ground arith)) in
                let room =
                  exceeds-IsWithin limit (sum_amounts q s.requests) amount
                    (rw same at check a pays amount e) in
                IsWithin-mono limit _ (sum_amounts q s.requests + amount) (ground (arith, le)) room
          ]
        ]
