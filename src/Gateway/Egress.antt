-- ===== src/Gateway/Egress.antt =====
-- worker/src/llm.rs: when a request may leave for a remote host.
use rust_agent.Base.{
  Bool, true, false, not, ◌||◌, ◌≡◌, refl, ap, arith, Option, some, [], ◌∷◌, List, Text, any,
  is_empty, Bool-cases, Option-cases, inl, inr, eq_of_some, ◌↔◌, ◌⊎◌, subst, ◌∙◌,
}
use rust_agent.Gateway.{
  LlmRemoteEgressClass, never_leaves_prem, redacted_only, cloud_allowed, LlmConfig,
  LlmEndpointConfig, remote_route, enforce_remote_egress_policy, egress_to_host,
  eq_ignore_ascii_case,
}

-- Whether a class lets a request leave.
abbrev pub lets_out : LlmRemoteEgressClass → Bool → Bool
lets_out never_leaves_prem redacted = false
lets_out redacted_only redacted = redacted
lets_out cloud_allowed redacted = true

-- The conditions under which a request leaves for a host.
pub record MayLeave (host_of : Text → Option Text) (endpoint : LlmEndpointConfig)
    (config : LlmConfig) (redacted : Bool) (host : Text) : Type 0 where
  pub class : lets_out config.remote_egress_class redacted ≡ true
  pub enabled : config.remote_egress_enabled ≡ true
  pub is_host : host_of endpoint.base_url ≡ some host
  pub listed :
      any (λ allowed. eq_ignore_ascii_case allowed host) config.remote_host_allowlist ≡ true

class_cases :
    (c : LlmRemoteEgressClass)
    → (c ≡ never_leaves_prem) ⊎ ((c ≡ cloud_allowed) ⊎ (c ≡ redacted_only))
class_cases never_leaves_prem = inl refl
class_cases cloud_allowed = inr (inl refl)
class_cases redacted_only = inr (inr refl)

module _ (host_of : Text → Option Text) (endpoint : LlmEndpointConfig) (config : LlmConfig)
    (host : Text) where
  to_host :
      egress_to_host host_of endpoint config ≡ some (some host)
      → (config.remote_egress_enabled ≡ true)
        × (host_of endpoint.base_url ≡ some host)
        × (any (λ allowed. eq_ignore_ascii_case allowed host) config.remote_host_allowlist ≡ true)
  to_host e =
      elim (Bool-cases
        (not config.remote_egress_enabled || is_empty config.remote_host_allowlist)) [
          | inl closed ↦ absurd (cc (rw closed at e))
          | inr ready ↦ elim (Option-cases (host_of endpoint.base_url)) [
            | inl none_named ↦ absurd (cc (rw (ready, none_named) at e))
            | inr (h, named) ↦
                elim (Bool-cases
                  (any (λ allowed. eq_ignore_ascii_case allowed h) config.remote_host_allowlist)) [
                    | inr other ↦ absurd (cc (rw (ready, named, other) at e))
                    | inl listed ↦
                        let same : h ≡ host =
                          eq_of_some (eq_of_some (rw (ready, named, listed) at e)) in
                        (
                          ground arith,
                          named ∙ ap (λ x. some x) same,
                          subst
                              (λ x.
                                any (λ allowed. eq_ignore_ascii_case allowed x)
                                  config.remote_host_allowlist
                                ≡ true)
                              same listed,
                        )
                  ]
          ]
        ]

  list_some :
      (xs : List Text)
      → any (λ allowed. eq_ignore_ascii_case allowed host) xs ≡ true
      → is_empty xs ≡ false
  list_some [] h = cc
  list_some (x ∷ xs) h = refl

  of_host :
      (config.remote_egress_enabled ≡ true)
      → host_of endpoint.base_url ≡ some host
      → any (λ allowed. eq_ignore_ascii_case allowed host) config.remote_host_allowlist ≡ true
      → egress_to_host host_of endpoint config ≡ some (some host)
  of_host on named listed =
      rw (on, list_some config.remote_host_allowlist listed, named, listed) refl

  leaves :
      (redacted : Bool)
      → enforce_remote_egress_policy host_of remote_route endpoint config redacted
        ≡ some (some host)
      → (lets_out config.remote_egress_class redacted ≡ true)
        × (egress_to_host host_of endpoint config ≡ some (some host))
  unfolding enforce_remote_egress_policy
  leaves redacted e = elim (class_cases config.remote_egress_class) [
    | inl never ↦ absurd (cc (rw (never, enforce_remote_egress_policy) at e))
    | inr (inl all) ↦ rw all (refl, rw (all, enforce_remote_egress_policy) at e)
    | inr (inr marked) ↦ elim (Bool-cases redacted) [
      | inl on ↦ rw (marked, on) (refl, rw (marked, on, enforce_remote_egress_policy) at e)
      | inr off ↦ absurd (cc (rw (marked, off, enforce_remote_egress_policy) at e))
    ]
  ]

  let_out :
      (redacted : Bool)
      → lets_out config.remote_egress_class redacted ≡ true
      → enforce_remote_egress_policy host_of remote_route endpoint config redacted
        ≡ egress_to_host host_of endpoint config
  unfolding enforce_remote_egress_policy
  let_out redacted h = elim (class_cases config.remote_egress_class) [
    | inl never ↦ absurd (cc (rw never at h))
    | inr (inl all) ↦ rw (all, enforce_remote_egress_policy) refl
    | inr (inr marked) ↦ rw (marked, rw marked at h, enforce_remote_egress_policy) refl
  ]

  -- A request for the remote route leaves for a host exactly when its class lets it out, which for
  -- `redacted_only` is when its arguments are marked as redacted, egress is enabled, and the host of
  -- the endpoint is on the list, in whatever case.
  pub enforce_remote_egress_policy_iff :
      (redacted : Bool)
      → (enforce_remote_egress_policy host_of remote_route endpoint config redacted
          ≡ some (some host))
        ↔ MayLeave host_of endpoint config redacted host
  enforce_remote_egress_policy_iff redacted = (
    λ e.
        let (class, e2) = leaves redacted e in
        let (on, named, listed) = to_host e2 in
        record { class = class; enabled = on; is_host = named; listed = listed },
    λ m. let_out redacted m.class ∙ of_host m.enabled m.is_host m.listed,
  )
