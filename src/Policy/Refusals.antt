-- ===== src/Policy/Refusals.antt =====
-- Why the policy of core/src/policy.rs refuses an action.
use rust_agent.Base.{
  true, false, none, some, List, ◌≡◌, ◌≢◌, inl, inr, ap, ◌∙◌, arith, In, All, Option-cases,
  In-filter, filter-In, filter-is_empty, filter-witness, any-eq-false, filter, any, is_empty,
  All-of_In, All-In,
}
use rust_agent.Policy.{
  CapabilityKind, CapabilityGrant, GrantSet, PolicyRequest, DenyReason, unknown_action_type,
  capability_missing, scope_mismatch, payload_too_large, invalid_action_contract, deny, kind_eq,
  from_action_type, within_limit, decide_for, is_action_allowed,
}
use rust_agent.Policy.Scope.{Covers, scope_matches_iff}
use rust_agent.Policy.Decision.{
  Fits, Fits-within_limit, kind_eq_sound, kind_eq_refl, of_kind, in_scope,
}

-- Why a request is refused: the first of the four filters that nothing passes.
abbrev pub Refusal : DenyReason → List CapabilityGrant → PolicyRequest → Type 0
Refusal unknown_action_type gs request = from_action_type request.action_type ≡ none
Refusal capability_missing gs request =
    (kind : CapabilityKind) × (from_action_type request.action_type ≡ some kind)
    × All (λ g. g.kind ≢ kind) gs
Refusal scope_mismatch gs request =
    (kind : CapabilityKind) × (from_action_type request.action_type ≡ some kind)
    × ((g : CapabilityGrant) × In g gs × (g.kind ≡ kind))
    × All (λ g. g.kind ≡ kind → ¬ Covers g.scope request.scope) gs
Refusal payload_too_large gs request =
    (kind : CapabilityKind) × (from_action_type request.action_type ≡ some kind)
    × ((g : CapabilityGrant) × In g gs × (g.kind ≡ kind) × Covers g.scope request.scope)
    × All (λ g. g.kind ≡ kind → Covers g.scope request.scope → ¬ Fits request.payload_bytes g) gs
Refusal invalid_action_contract gs request = ⊥

module _ (kind : CapabilityKind) (request : PolicyRequest) (gs : List CapabilityGrant)
    (known : from_action_type request.action_type ≡ some kind) where
  abbrev kind_grants : List CapabilityGrant
  kind_grants = filter (of_kind kind request) gs

  abbrev scoped_grants : List CapabilityGrant
  scoped_grants = filter (in_scope kind request) kind_grants

  no_kind : is_empty kind_grants ≡ true → Refusal capability_missing gs request
  no_kind e = (
    kind,
    known,
    All-of_In _ gs λ g m same. cc (
      All-In (λ a. of_kind kind request a ≡ false) g gs (filter-is_empty _ gs e) m,
      kind_eq_refl kind,
      ap (λ k. kind_eq k kind) same,
    ),
  )

  no_scope :
      is_empty kind_grants ≡ false
      → is_empty scoped_grants ≡ true
      → Refusal scope_mismatch gs request
  no_scope some_kind e =
      let (g, m, k) = filter-witness (of_kind kind request) gs some_kind in
      (
        kind,
        known,
        (g, m, kind_eq_sound g.kind kind k),
        All-of_In _ gs λ a n same covers. cc (
          All-In (λ b. in_scope kind request b ≡ false) a kind_grants
              (filter-is_empty (in_scope kind request) kind_grants e)
              (filter-In (of_kind kind request) a gs n
                (ap (λ k. kind_eq k kind) same ∙ kind_eq_refl kind)),
          (scope_matches_iff a.scope request.scope).1 covers,
        ),
      )

  no_room :
      is_empty scoped_grants ≡ false
      → any (within_limit request.payload_bytes) scoped_grants ≡ false
      → Refusal payload_too_large gs request
  no_room some_scope e =
      let (g, m, s) = filter-witness (in_scope kind request) kind_grants some_scope in
      let (m', k) = In-filter (of_kind kind request) g gs m in
      (
        kind,
        known,
        (g, m', kind_eq_sound g.kind kind k, (scope_matches_iff g.scope request.scope).0 s),
        All-of_In _ gs λ a n same covers fits. cc (
          All-In (λ b. within_limit request.payload_bytes b ≡ false) a scoped_grants
              (any-eq-false (within_limit request.payload_bytes) scoped_grants e)
              (filter-In (in_scope kind request) a kind_grants
                (filter-In (of_kind kind request) a gs n
                  (ap (λ k. kind_eq k kind) same ∙ kind_eq_refl kind))
                ((scope_matches_iff a.scope request.scope).1 covers)),
          Fits-within_limit request.payload_bytes a fits,
        ),
      )

  decide_for-Refusal : (r : DenyReason) → decide_for kind gs request ≡ deny r → Refusal r gs request
  unfolding decide_for
  decide_for-Refusal unknown_action_type h = absurd (ground arith)
  decide_for-Refusal capability_missing h = no_kind (ground arith)
  decide_for-Refusal scope_mismatch h = no_scope (ground arith) (ground arith)
  decide_for-Refusal payload_too_large h = no_room (ground arith) (ground arith)
  decide_for-Refusal invalid_action_contract h = ground arith

-- A refusal names its true cause: the action type is unknown; or no grant has its kind; or some
-- have and none of them covers the scope; or some do that too and none of these has room for the
-- payload. The policy never refuses for an invalid contract.
pub is_action_allowed-Refusal :
    (grants : GrantSet) (request : PolicyRequest) (r : DenyReason)
    → is_action_allowed grants request ≡ deny r
    → Refusal r grants.grants request
unfolding is_action_allowed
is_action_allowed-Refusal grants request r h =
    elim (Option-cases (from_action_type request.action_type)) [
      | inl e ↦ unknown r e (rw (e, is_action_allowed) at h)
      | inr (kind, e) ↦
          decide_for-Refusal kind request grants.grants e r (rw (e, is_action_allowed) at h)
    ]
  where
    unknown :
        (r : DenyReason)
        → from_action_type request.action_type ≡ none
        → deny unknown_action_type ≡ deny r
        → Refusal r grants.grants request
    unknown unknown_action_type e q = e
    unknown capability_missing e q = cc
    unknown scope_mismatch e q = cc
    unknown payload_too_large e q = cc
    unknown invalid_action_contract e q = cc
