-- ===== src/Gateway.antt =====
-- worker/src/llm.rs: the route, the endpoint and the model of a request to a language model, and the
-- rules under which a request may leave for a remote host. An error is none, without its message; the
-- host of a URL is a parameter.
pub mod Routes
pub mod Egress
pub mod Admission
use rust_agent.Base.{
  ℕ, Bool, true, false, not, ◌&&◌, ◌||◌, ltb, leb, ◌==◌, ◌*◌, ◌/◌, min, ◌-◌, ◌^◌, Option, none,
  some, List, [], ◌∷◌, ◌++◌, Text, codes, text_eq, trim, to_ascii_lowercase, one_of, any, is_empty,
  is_some, decimal, if◌then◌else◌,
}

pub data LlmMode : Type 0 where
  local_only local_first remote_only : LlmMode

pub data LlmRoute : Type 0 where
  local_route remote_route : LlmRoute

pub data LlmRequestClass : Type 0 where
  interactive batch : LlmRequestClass

pub data LlmRemoteEgressClass : Type 0 where
  never_leaves_prem redacted_only cloud_allowed : LlmRemoteEgressClass

pub data LlmLocalTier : Type 0 where
  workhorse small : LlmLocalTier

pub record LlmEndpointConfig : Type 0 where
  pub base_url : Text
  pub model : Text
  pub api_key : Option Text

-- The fields of `LlmConfig` that choose a route and an endpoint.
pub record LlmConfig : Type 0 where
  pub mode : LlmMode
  pub slo_interactive_max_latency_ms : Option ℕ
  pub slo_batch_max_latency_ms : Option ℕ
  pub local : Option LlmEndpointConfig
  pub local_models : List Text
  pub local_small : Option LlmEndpointConfig
  pub local_small_models : List Text
  pub local_interactive_tier : LlmLocalTier
  pub local_batch_tier : LlmLocalTier
  pub remote : Option LlmEndpointConfig
  pub remote_models : List Text
  pub remote_egress_enabled : Bool
  pub remote_egress_class : LlmRemoteEgressClass
  pub remote_host_allowlist : List Text

-- The fields of `LlmPromptPlan` that do so.
pub record LlmPromptPlan : Type 0 where
  pub prefer : Option LlmRoute
  pub request_class : LlmRequestClass
  pub local_tier : Option LlmLocalTier
  pub model : Option Text

pub record RouteDecision : Type 0 where
  pub route : LlmRoute
  pub reason_code : Text

pub record RouteEndpointSelection : Type 0 where
  pub endpoint : LlmEndpointConfig
  pub local_tier_requested : Option LlmLocalTier
  pub local_tier_selected : Option LlmLocalTier
  pub local_tier_reason_code : Option Text

abbrev pub prefers_local : Option LlmRoute → Bool
prefers_local (some local_route) = true
prefers_local (some remote_route) = false
prefers_local none = false

abbrev pub prefers_remote : Option LlmRoute → Bool
prefers_remote (some remote_route) = true
prefers_remote (some local_route) = false
prefers_remote none = false

abbrev pub decision : LlmRoute → Text → Option RouteDecision
decision route reason = some (record { route = route; reason_code = reason })

unfoldable pub select_route_with_reason : LlmConfig → Option LlmRoute → Option RouteDecision
select_route_with_reason config prefer = elim config.mode [
  | local_only ↦
      if not (is_some config.local) || prefers_remote prefer
      then none
      else decision local_route (codes "mode_local_only")
  | remote_only ↦
      if not (is_some config.remote) || prefers_local prefer
      then none
      else decision remote_route (codes "mode_remote_only")
  | local_first ↦
      if prefers_remote prefer && is_some config.remote
      then decision remote_route (codes "prefer_remote_local_first")
      else if is_some config.local
      then decision local_route (codes "local_first_default_local")
      else if is_some config.remote
      then decision remote_route (codes "local_unavailable_remote_fallback")
      else none
]

abbrev pub resolve_default_local_tier : LlmRequestClass → LlmConfig → LlmLocalTier
resolve_default_local_tier interactive config = config.local_interactive_tier
resolve_default_local_tier batch config = config.local_batch_tier

-- The models that a route and a tier may use.
abbrev pub allowed_models : LlmConfig → LlmRoute → Option LlmLocalTier → List Text
allowed_models config remote_route tier = config.remote_models
allowed_models config local_route (some small) = config.local_small_models
allowed_models config local_route (some workhorse) = config.local_models
allowed_models config local_route none = config.local_models

-- `requested_model.and_then(non_empty_trimmed)`
abbrev pub requested : Option Text → Option Text
requested none = none
requested (some raw) = if is_empty (trim raw) then none else some (trim raw)

unfoldable pub select_model_for_route : List Text → Option Text → Text → Option Text
unfolding one_of text_eq trim
select_model_for_route allowed requested_model default_model = elim (requested requested_model) [
  | some raw ↦
      if is_empty allowed && text_eq default_model raw
      then some raw
      else if one_of raw allowed
      then some raw
      else none
  | none ↦ elim allowed [
    | model ∷ models ↦ some model
    | [] ↦ if is_empty default_model then none else some default_model
  ]
]

-- The local endpoint for a tier: its own, or the one of the other tier.
abbrev pub local_endpoint :
    LlmConfig → LlmLocalTier → Option (LlmLocalTier × LlmEndpointConfig × Text)
local_endpoint config small = elim config.local_small [
  | some e ↦ some (small, e, codes "local_tier_small")
  | none ↦ elim config.local [
    | some e ↦ some (workhorse, e, codes "local_tier_small_fallback_workhorse")
    | none ↦ none
  ]
]
local_endpoint config workhorse = elim config.local [
  | some e ↦ some (workhorse, e, codes "local_tier_workhorse")
  | none ↦ elim config.local_small [
    | some e ↦ some (small, e, codes "local_tier_workhorse_fallback_small")
    | none ↦ none
  ]
]

abbrev pub tier_of : Option LlmLocalTier → LlmLocalTier → LlmLocalTier
tier_of (some tier) default = tier
tier_of none default = default

-- The endpoint with its model, which is another only where that is allowed.
unfoldable pub with_model :
    LlmConfig
    → LlmRoute
    → Option LlmLocalTier
    → Option Text
    → Bool
    → LlmEndpointConfig
    → Option LlmEndpointConfig
with_model config route tier model false e = some e
with_model config route tier model true e =
    elim (select_model_for_route (allowed_models config route tier) model e.model) [
      | none ↦ none
      | some name ↦ some (record e { model = name })
    ]

unfoldable pub select_endpoint_for_route :
    LlmConfig → LlmRoute → LlmPromptPlan → Bool → Option RouteEndpointSelection
select_endpoint_for_route config local_route plan override =
    let tier = tier_of plan.local_tier (resolve_default_local_tier plan.request_class config) in
    elim (local_endpoint config tier) [
      | none ↦ none
      | some p ↦ elim (with_model config local_route (some p.0) plan.model override p.1) [
        | none ↦ none
        | some e ↦ some (record {
          endpoint = e;
          local_tier_requested = some tier;
          local_tier_selected = some p.0;
          local_tier_reason_code = some p.2;
        })
      ]
    ]
select_endpoint_for_route config remote_route plan override = elim config.remote [
  | none ↦ none
  | some base ↦ elim (with_model config remote_route none plan.model override base) [
    | none ↦ none
    | some e ↦ some (record {
      endpoint = e;
      local_tier_requested = none;
      local_tier_selected = none;
      local_tier_reason_code = none;
    })
  ]
]

abbrev pub route_text : LlmRoute → Text
route_text local_route = codes "local"
route_text remote_route = codes "remote"

-- `policy_scope_for_action`, from the plan of the prompt on.
unfoldable pub policy_scope : LlmConfig → LlmPromptPlan → Option Text
policy_scope config plan = elim (select_route_with_reason config plan.prefer) [
  | none ↦ none
  | some d ↦ elim (select_endpoint_for_route config d.route plan true) [
    | none ↦ none
    | some s ↦ some (route_text d.route ++ 58 ∷ s.endpoint.model)
  ]
]

abbrev pub eq_ignore_ascii_case : Text → Text → Bool
eq_ignore_ascii_case s t = text_eq (to_ascii_lowercase s) (to_ascii_lowercase t)

-- The rest of the rules, for a class that lets the request leave.
abbrev pub egress_to_host :
    (Text → Option Text) → LlmEndpointConfig → LlmConfig → Option (Option Text)
egress_to_host host_of endpoint config =
    if not config.remote_egress_enabled || is_empty config.remote_host_allowlist
    then none
    else elim (host_of endpoint.base_url) [
      | none ↦ none
      | some host ↦
          if any (λ allowed. eq_ignore_ascii_case allowed host) config.remote_host_allowlist
          then some (some host)
          else none
    ]

-- `redacted` is the field of `LlmInferActionArgs`. The outer none is a refusal; a local request gives
-- no host. `host_of` is the host of a URL that parses and has one.
unfoldable pub enforce_remote_egress_policy :
    (Text → Option Text) → LlmRoute → LlmEndpointConfig → LlmConfig → Bool → Option (Option Text)
unfolding to_ascii_lowercase text_eq
enforce_remote_egress_policy host_of local_route endpoint config redacted = some none
enforce_remote_egress_policy host_of remote_route endpoint config redacted =
    elim config.remote_egress_class [
      | never_leaves_prem ↦ none
      | redacted_only ↦ if redacted then egress_to_host host_of endpoint config else none
      | cloud_allowed ↦ egress_to_host host_of endpoint config
    ]
