-- ===== src/Payments.antt =====
-- worker/src/lib.rs: the action `payment.send`; and the table of payment requests of
-- core/src/db.rs. Amounts are in millisatoshi, identifiers are the numbers of UUIDs.
pub mod Routes
pub mod Health
pub mod Sending
pub mod RouteFacts
pub mod HealthFacts
pub mod Fallback
pub mod Ledger
pub mod Budgets
pub mod Spending
pub mod Duplicates
use rust_agent.Base.{
  ℕ, ◌+◌, ◌-◌, ◌^◌, min, Bool, true, false, ◌&&◌, ◌||◌, not, ltb, leb, ◌==◌, Option, none, some,
  List, [], ◌∷◌, ◌++◌, Text, codes, text_eq, trim, to_ascii_lowercase, match_text, is_empty,
  if◌then◌else◌, ◌>>=◌, find, any, update_rows, is_some,
}
use rust_agent.Json.{Value, get, as_str, as_u64, as_bool}

pub data PaymentNwcRouteStrategy : Type 0 where
  ordered deterministic_hash : PaymentNwcRouteStrategy

-- What one rail has of its own in `WorkerConfig`. Durations are in milliseconds.
pub record RouteConfig : Type 0 where
  pub route_strategy : PaymentNwcRouteStrategy
  pub route_fallback_enabled : Bool
  pub route_rollout_percent : ℕ
  pub route_health_fail_threshold : ℕ
  pub route_health_cooldown : ℕ

-- The fields of `WorkerConfig` that payments use; a `BTreeMap` is the list of its entries.
pub record PaymentConfig : Type 0 where
  pub worker_id : Text
  pub payment_nwc_enabled : Bool
  pub payment_nwc_uri : Option Text
  pub payment_nwc_wallet_uris : List (Text × Text)
  pub payment_nwc : RouteConfig
  pub payment_cashu_enabled : Bool
  pub payment_cashu_mint_uris : List (Text × Text)
  pub payment_cashu_default_mint : Option Text
  pub payment_cashu_max_spend_msat_per_run : Option ℕ
  pub payment_cashu_http_enabled : Bool
  pub payment_cashu : RouteConfig
  pub payment_cashu_mock_enabled : Bool
  pub payment_max_spend_msat_per_run : Option ℕ
  pub payment_approval_threshold_msat : Option ℕ
  pub payment_max_spend_msat_per_tenant : Option ℕ
  pub payment_max_spend_msat_per_agent : Option ℕ

pub data PaymentProvider : Type 0 where
  nwc cashu : PaymentProvider

pub data PaymentOperation : Type 0 where
  pay_invoice make_invoice get_balance : PaymentOperation

unfoldable pub parse_operation : Text → Option PaymentOperation
unfolding trim to_ascii_lowercase match_text
parse_operation raw = match_text (to_ascii_lowercase (trim raw)) (
    (codes "pay_invoice", pay_invoice)
    ∷ (codes "make_invoice", make_invoice)
    ∷ (codes "get_balance", get_balance)
    ∷ [])

abbrev pub requires_amount : PaymentOperation → Bool
requires_amount pay_invoice = true
requires_amount make_invoice = true
requires_amount get_balance = false

abbrev pub is_pay_invoice : PaymentOperation → Bool
is_pay_invoice pay_invoice = true
is_pay_invoice make_invoice = false
is_pay_invoice get_balance = false

-- `str::split_once` with one character
abbrev split_once : ℕ → Text → Option (Text × Text)
split_once c [] = none
split_once c (d ∷ t) = elim (d == c) [
  | true ↦ some ([], t)
  | false ↦ elim (split_once c t) [ none ↦ none | some p ↦ some (d ∷ p.0, p.1) ]
]

-- `str::trim`, and then only what is not empty.
abbrev pub trimmed : Text → Option Text
trimmed t = if is_empty (trim t) then none else some (trim t)

unfoldable pub parse_destination : Text → Option (PaymentProvider × Text)
unfolding trim to_ascii_lowercase match_text
parse_destination raw = split_once b':' raw >>= (λ p.
    match_text (to_ascii_lowercase (trim p.0)) ((codes "nwc", nwc) ∷ (codes "cashu", cashu) ∷ [])
    >>= (λ provider. trimmed p.1 >>= (λ target. some (provider, target))))

-- What the arguments of an action ask for.
pub record Payment : Type 0 where
  pub provider : PaymentProvider
  pub target : Text
  pub operation : PaymentOperation
  pub idempotency_key : Text
  pub amount_msat : Option ℕ
  pub payment_approved : Bool
  pub invoice : Option Text

unfoldable pub parse_payment : Value → Option Payment
unfolding trim parse_operation parse_destination
parse_payment args =
    get (codes "destination") args >>= as_str >>= parse_destination >>= (λ destination.
      get (codes "operation") args >>= as_str >>= parse_operation >>= (λ operation.
        get (codes "idempotency_key") args >>= as_str >>= trimmed >>= (λ key.
          let amount = get (codes "amount_msat") args >>= as_u64 in
          if requires_amount operation && not (is_some amount)
          then none
          else some (record {
            provider = destination.0;
            target = destination.1;
            operation = operation;
            idempotency_key = key;
            amount_msat = amount;
            payment_approved = elim (get (codes "payment_approved") args >>= as_bool) [
              | none ↦ false
              | some b ↦ b
            ];
            invoice = get (codes "invoice") args >>= as_str >>= trimmed;
          }))))

pub data PaymentStatus : Type 0 where
  requested executed failed : PaymentStatus

abbrev pub is_executed : PaymentStatus → Bool
is_executed requested = false
is_executed executed = true
is_executed failed = false

pub record PaymentRequest : Type 0 where
  pub id : ℕ
  pub action_request_id : ℕ
  pub tenant_id : Text
  pub agent_id : ℕ
  pub provider : PaymentProvider
  pub operation : PaymentOperation
  pub idempotency_key : Text
  pub amount_msat : Option ℕ
  pub status : PaymentStatus

abbrev pub Requests : Type 0
Requests = List PaymentRequest

-- `ON CONFLICT (tenant_id, idempotency_key)`
abbrev pub same_payment : Text → Text → PaymentRequest → Bool
same_payment tenant key r = text_eq r.tenant_id tenant && text_eq r.idempotency_key key

-- A primary key or an `action_request_id` that is taken.
abbrev pub is_taken : PaymentRequest → PaymentRequest → Bool
is_taken new r = r.id == new.id || r.action_request_id == new.action_request_id

-- `amount as i64` is negative from 2 ^ 63 on, and the table takes no negative amount.
abbrev pub fits_i64 : Option ℕ → Bool
fits_i64 none = true
fits_i64 (some a) = ltb a (2 ^ 63)

-- `none` is the error of a constraint of the table.
unfoldable pub create_or_get_payment_request :
    PaymentRequest → Requests → Option (Requests × PaymentRequest)
create_or_get_payment_request new rows =
    if not (fits_i64 new.amount_msat)
    then none
    else elim (find (same_payment new.tenant_id new.idempotency_key) rows) [
      | some prior ↦ some (rows, prior)
      | none ↦ if any (is_taken new) rows then none else some (rows ++ new ∷ [], new)
    ]

abbrev pub with_status : PaymentStatus → PaymentRequest → PaymentRequest
with_status s r = record r { status = s }

abbrev pub has_request_id : ℕ → PaymentRequest → Bool
has_request_id id r = r.id == id

unfoldable pub update_payment_request_status : ℕ → PaymentStatus → Requests → Requests
update_payment_request_status id s rows = update_rows (has_request_id id) (with_status s) rows

abbrev pub amount_of : Option ℕ → ℕ
amount_of none = 0
amount_of (some a) = a

-- `COALESCE(SUM(amount_msat), 0)` of the rows that a condition selects.
abbrev pub sum_amounts : (PaymentRequest → Bool) → Requests → ℕ
sum_amounts p [] = 0
sum_amounts p (r ∷ rows) =
    if p r then amount_of r.amount_msat + sum_amounts p rows else sum_amounts p rows

abbrev pub is_spent : PaymentRequest → Bool
is_spent r = is_pay_invoice r.operation && is_executed r.status

abbrev pub of_tenant : Text → PaymentRequest → Bool
of_tenant tenant r = text_eq r.tenant_id tenant

abbrev pub of_agent : Text → ℕ → PaymentRequest → Bool
of_agent tenant agent r = text_eq r.tenant_id tenant && r.agent_id == agent

unfoldable pub sum_executed_payment_amount_msat_for_tenant : Text → Requests → ℕ
sum_executed_payment_amount_msat_for_tenant tenant rows =
    sum_amounts (λ r. of_tenant tenant r && is_spent r) rows

unfoldable pub sum_executed_payment_amount_msat_for_agent : Text → ℕ → Requests → ℕ
sum_executed_payment_amount_msat_for_agent tenant agent rows =
    sum_amounts (λ r. of_agent tenant agent r && is_spent r) rows

abbrev pub u64_max : ℕ
u64_max = 2 ^ 64 - 1

-- `u64::saturating_add`
abbrev pub saturating_add : ℕ → ℕ → ℕ
saturating_add a b = min (a + b) u64_max

-- A budget that `spent` and one more amount go beyond.
abbrev pub exceeds : Option ℕ → ℕ → ℕ → Bool
exceeds none spent amount = false
exceeds (some limit) spent amount = ltb limit (saturating_add spent amount)

abbrev needs_approval : Option ℕ → ℕ → Bool → Bool
needs_approval none amount approved = false
needs_approval (some threshold) amount approved = leb threshold amount && not approved

-- The code of the first check that a payment of an invoice does not pass.
unfoldable pub payment_refusal : PaymentConfig → ℕ → ℕ → ℕ → Payment → Option Text
payment_refusal config run_spent tenant_spent agent_spent p =
    if not (is_pay_invoice p.operation) then none else elim p.amount_msat [
      | none ↦ none
      | some amount ↦
          if needs_approval config.payment_approval_threshold_msat amount p.payment_approved
          then some (codes "PAYMENT_APPROVAL_REQUIRED")
          else if exceeds config.payment_max_spend_msat_per_run run_spent amount
          then some (codes "PAYMENT_RUN_BUDGET_EXCEEDED")
          else if exceeds config.payment_max_spend_msat_per_tenant tenant_spent amount
          then some (codes "PAYMENT_TENANT_BUDGET_EXCEEDED")
          else if exceeds config.payment_max_spend_msat_per_agent agent_spent amount
          then some (codes "PAYMENT_AGENT_BUDGET_EXCEEDED")
          else none
    ]
