-- ===== src/Tests/GatewayTests.antt =====
-- Routes and egress of the LLM gateway on concrete configurations.
use rust_agent.Base.{
  Text, codes, ◌≡◌, refl, true, false, Option, none, some, [], ◌∷◌, ◌↔◌, trim, trim_start, trim_end,
  is_whitespace, to_ascii_lowercase, text_eq, one_of, inl,
}
use rust_agent.Gateway.{
  LlmConfig, LlmEndpointConfig, LlmPromptPlan, RouteEndpointSelection, local_first, interactive,
  small, workhorse, local_route, remote_route, redacted_only, select_route_with_reason,
  select_model_for_route, with_model, select_endpoint_for_route, policy_scope,
  enforce_remote_egress_policy,
}
use rust_agent.Gateway.Routes.{IsPermitted, select_endpoint-IsPermitted}
use rust_agent.Gateway.Admission.{
  Lane, empty_lane, load_slot, exchange_slot, Reach, here, next, load, exchange, IsWithinSlots,
  Reach-IsWithinSlots,
}
use rust_agent.Gateway.Egress.{MayLeave, enforce_remote_egress_policy_iff}

running_gateway : Unit {0}
unfolding select_route_with_reason select_model_for_route with_model select_endpoint_for_route
    policy_scope enforce_remote_egress_policy trim trim_start trim_end is_whitespace
    to_ascii_lowercase text_eq one_of
running_gateway = tt

abbrev here_endpoint : LlmEndpointConfig
here_endpoint = record { base_url = codes "http://here"; model = codes "m"; api_key = none }

abbrev there_endpoint : LlmEndpointConfig
there_endpoint = record { base_url = codes "https://there"; model = codes "big"; api_key = none }

abbrev config : LlmConfig
config = record {
  mode = local_first;
  slo_interactive_max_latency_ms = none;
  slo_batch_max_latency_ms = none;
  local = some here_endpoint;
  local_models = codes "m" ∷ codes "n" ∷ [];
  local_small = none;
  local_small_models = [];
  local_interactive_tier = small;
  local_batch_tier = workhorse;
  remote = some there_endpoint;
  remote_models = [];
  remote_egress_enabled = true;
  remote_egress_class = redacted_only;
  remote_host_allowlist = codes "THERE" ∷ [];
}

abbrev plan : LlmPromptPlan
plan = record {
  prefer = none;
  request_class = interactive;
  local_tier = none;
  model = some (codes " n ");
}

scope_of_plan : policy_scope config plan ≡ some (codes "local:n")
unfolding running_gateway
scope_of_plan = refl

unlisted_model :
    select_endpoint_for_route config remote_route
      (record plan { model = some (codes "other") })
      true
    ≡ none
unfolding running_gateway
unlisted_model = refl

abbrev selected : RouteEndpointSelection
selected = record {
  endpoint = record { base_url = codes "http://here"; model = codes "n"; api_key = none };
  local_tier_requested = some small;
  local_tier_selected = some workhorse;
  local_tier_reason_code = some (codes "local_tier_small_fallback_workhorse");
}

select_endpoint-IsPermitted_example : IsPermitted config local_route selected
unfolding running_gateway
select_endpoint-IsPermitted_example =
    select_endpoint-IsPermitted config local_route plan selected refl

abbrev host_of : Text → Option Text
host_of url = some (codes "there")

unmarked : enforce_remote_egress_policy host_of remote_route there_endpoint config false ≡ none
unfolding running_gateway
unmarked = refl

marked :
    enforce_remote_egress_policy host_of remote_route there_endpoint config true
    ≡ some (some (codes "there"))
unfolding running_gateway
marked = refl

enforce_remote_egress_policy_iff_example :
    (enforce_remote_egress_policy host_of remote_route there_endpoint config true
      ≡ some (some (codes "there")))
    ↔ MayLeave host_of there_endpoint config true (codes "there")
enforce_remote_egress_policy_iff_example =
    enforce_remote_egress_policy_iff host_of there_endpoint config (codes "there") true

-- Two requests load the counter of a lane with one slot; the second to exchange goes round again.
after_race : Lane
unfolding load_slot exchange_slot
after_race = exchange_slot 0 (exchange_slot 0 (load_slot 1 (load_slot 1 empty_lane)))

race_won_once : after_race ≡ record { counter = 1; loaded = []; guards = 1 }
unfolding after_race load_slot exchange_slot
race_won_once = refl

after_race-Reach : Reach 1 empty_lane after_race
unfolding after_race load_slot exchange_slot
after_race-Reach =
    next (next (next (next here load) load) (exchange 0 (inl refl))) (exchange 0 (inl refl))

Reach-IsWithinSlots_example : IsWithinSlots 1 after_race
Reach-IsWithinSlots_example = Reach-IsWithinSlots after_race-Reach
