-- ===== src/Gateway/Routes.antt =====
-- worker/src/llm.rs: the endpoint and the model that a request gets.
use rust_agent.Base.{
  true, ◌&&◌, ◌≡◌, refl, ap, sym, arith, Option, none, some, List, [], ◌∷◌, In, Text, text_eq,
  text_eq_sound, one_of, is_empty, Bool-cases, Option-cases, inl, inr, ◌⊎◌, eq_of_some, subst, ◌∙◌,
}
use rust_agent.Gateway.{
  LlmRoute, local_route, remote_route, LlmLocalTier, workhorse, small, LlmConfig, LlmEndpointConfig,
  LlmPromptPlan, RouteEndpointSelection, select_model_for_route, select_endpoint_for_route,
  allowed_models, requested, local_endpoint, tier_of, with_model, resolve_default_local_tier,
}

one_of-In : (t : Text) (ks : List Text) → one_of t ks ≡ true → In t ks
unfolding one_of
one_of-In t [] h = cc
one_of-In t (k ∷ ks) h = elim (Bool-cases (text_eq t k)) [
  | inl e ↦ inl (text_eq_sound t k e)
  | inr e ↦ inr (one_of-In t ks (ground arith))
]

-- The model of a request is on the list of models, or it is the model of the endpoint and there is no
-- list.
abbrev pub IsPermittedModel : List Text → Text → Text → Type 0
IsPermittedModel allowed default model = In model allowed ⊎ ((allowed ≡ []) × (model ≡ default))

is_empty-eq : (xs : List Text) → is_empty xs ≡ true → xs ≡ []
is_empty-eq [] h = refl
is_empty-eq (x ∷ xs) h = cc

list_cases : (xs : List Text) → (xs ≡ []) ⊎ ((y : Text) × (ys : List Text) × (xs ≡ y ∷ ys))
list_cases [] = inl refl
list_cases (y ∷ ys) = inr (y, ys, refl)

select_model-IsPermittedModel :
    (allowed : List Text) (model : Option Text) (default name : Text)
    → select_model_for_route allowed model default ≡ some name
    → IsPermittedModel allowed default name
unfolding select_model_for_route
select_model-IsPermittedModel allowed model default name e = elim (Option-cases (requested model)) [
  | inr (raw, asked) ↦ elim (Bool-cases (is_empty allowed && text_eq default raw)) [
    | inl own ↦
        let same : raw ≡ name = eq_of_some (rw (asked, own, select_model_for_route) at e) in
        inr (
          is_empty-eq allowed (ground arith),
          sym same ∙ sym (text_eq_sound default raw (ground arith)),
        )
    | inr other ↦ elim (Bool-cases (one_of raw allowed)) [
      | inl listed ↦
          let same : raw ≡ name =
            eq_of_some (rw (asked, other, listed, select_model_for_route) at e) in
          inl (subst (λ x. In x allowed) same (one_of-In raw allowed listed))
      | inr unlisted ↦ absurd (cc (rw (asked, other, unlisted, select_model_for_route) at e))
    ]
  ]
  | inl unasked ↦ elim (list_cases allowed) [
    | inr (m, ms, listed) ↦
        let same : m ≡ name = eq_of_some (rw (unasked, listed, select_model_for_route) at e) in
        inl (subst (λ x. In name x) (sym listed) (inl (sym same)))
    | inl none_listed ↦ elim (Bool-cases (is_empty default)) [
      | inl blank ↦ absurd (cc (rw (unasked, none_listed, blank, select_model_for_route) at e))
      | inr own ↦ inr (
        none_listed,
        sym (eq_of_some (rw (unasked, none_listed, own, select_model_for_route) at e)),
      )
    ]
  ]
]

-- Whether an endpoint is configured for a route and the tier that is selected.
abbrev pub configured : LlmConfig → LlmRoute → Option LlmLocalTier → Option LlmEndpointConfig
configured config remote_route tier = config.remote
configured config local_route (some small) = config.local_small
configured config local_route (some workhorse) = config.local
configured config local_route none = none

-- The endpoint is the one that is configured for the route and the tier, with a model that is
-- permitted for them.
pub record IsPermitted (config : LlmConfig) (route : LlmRoute) (s : RouteEndpointSelection)
    : Type 0 where
  pub base : LlmEndpointConfig
  pub is_configured : configured config route s.local_tier_selected ≡ some base
  pub same_url : s.endpoint.base_url ≡ base.base_url
  pub same_key : s.endpoint.api_key ≡ base.api_key
  pub permitted :
      IsPermittedModel
        (allowed_models config route s.local_tier_selected)
        base.model
        s.endpoint.model

with_model-permitted :
    (config : LlmConfig) (route : LlmRoute) (tier : Option LlmLocalTier) (model : Option Text)
    → (base e : LlmEndpointConfig) → with_model config route tier model true base ≡ some e
    → (e.base_url ≡ base.base_url)
      × (e.api_key ≡ base.api_key)
      × IsPermittedModel (allowed_models config route tier) base.model e.model
unfolding with_model
with_model-permitted config route tier model base e h =
    elim (Option-cases
      (select_model_for_route (allowed_models config route tier) model base.model)) [
        | inl refused ↦ absurd (cc (rw (refused, with_model) at h))
        | inr (name, chosen) ↦
            let same = eq_of_some (rw (chosen, with_model) at h) in
            (
              sym (ap (λ x. x.base_url) same),
              sym (ap (λ x. x.api_key) same),
              subst (λ x. IsPermittedModel (allowed_models config route tier) base.model x)
                  (ap (λ x. x.model) same)
                  (select_model-IsPermittedModel (allowed_models config route tier) model base.model
                    name chosen),
            )
      ]

abbrev IsAt : LlmConfig → LlmLocalTier × LlmEndpointConfig × Text → Type 0
IsAt config p = configured config local_route (some p.0) ≡ some p.1

local_endpoint-configured :
    (config : LlmConfig) (tier : LlmLocalTier) (p : LlmLocalTier × LlmEndpointConfig × Text)
    → local_endpoint config tier ≡ some p
    → IsAt config p
local_endpoint-configured config small p h = elim (Option-cases config.local_small) [
  | inr (e, there) ↦ subst (IsAt config) (eq_of_some (rw there at h)) there
  | inl gone ↦ elim (Option-cases config.local) [
    | inr (e, there) ↦ subst (IsAt config) (eq_of_some (rw (gone, there) at h)) there
    | inl neither ↦ absurd (cc (rw (gone, neither) at h))
  ]
]
local_endpoint-configured config workhorse p h = elim (Option-cases config.local) [
  | inr (e, there) ↦ subst (IsAt config) (eq_of_some (rw there at h)) there
  | inl gone ↦ elim (Option-cases config.local_small) [
    | inr (e, there) ↦ subst (IsAt config) (eq_of_some (rw (gone, there) at h)) there
    | inl neither ↦ absurd (cc (rw (gone, neither) at h))
  ]
]

-- A selection with the model of the request is of an endpoint that is configured for the route, with
-- its address and its key, and the model is on the list of the route and the tier, or the endpoint's
-- own where that list is empty.
pub select_endpoint-IsPermitted :
    (config : LlmConfig) (route : LlmRoute) (plan : LlmPromptPlan) (s : RouteEndpointSelection)
    → select_endpoint_for_route config route plan true ≡ some s
    → IsPermitted config route s
unfolding select_endpoint_for_route
select_endpoint-IsPermitted config local_route plan s h =
    let tier = tier_of plan.local_tier (resolve_default_local_tier plan.request_class config) in
    elim (Option-cases (local_endpoint config tier)) [
      | inl gone ↦ absurd (cc (rw (gone, select_endpoint_for_route) at h))
      | inr (p, found) ↦
          elim (Option-cases (with_model config local_route (some p.0) plan.model true p.1)) [
            | inl refused ↦ absurd (cc (rw (found, refused, select_endpoint_for_route) at h))
            | inr (e, chosen) ↦
                let (url, key, model) =
                  with_model-permitted config local_route (some p.0) plan.model p.1 e chosen in
                subst (IsPermitted config local_route)
                  (eq_of_some (rw (found, chosen, select_endpoint_for_route) at h))
                  (record {
                    base = p.1;
                    is_configured = local_endpoint-configured config tier p found;
                    same_url = url;
                    same_key = key;
                    permitted = model;
                  })
          ]
    ]
select_endpoint-IsPermitted config remote_route plan s h = elim (Option-cases config.remote) [
  | inl gone ↦ absurd (cc (rw (gone, select_endpoint_for_route) at h))
  | inr (base, there) ↦
      elim (Option-cases (with_model config remote_route none plan.model true base)) [
        | inl refused ↦ absurd (cc (rw (there, refused, select_endpoint_for_route) at h))
        | inr (e, chosen) ↦
            let (url, key, model) =
              with_model-permitted config remote_route none plan.model base e chosen in
            subst (IsPermitted config remote_route)
              (eq_of_some (rw (there, chosen, select_endpoint_for_route) at h))
              (record {
                base = base;
                is_configured = there;
                same_url = url;
                same_key = key;
                permitted = model;
              })
      ]
]
