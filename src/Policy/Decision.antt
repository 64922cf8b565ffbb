-- ===== src/Policy/Decision.antt =====
-- When the policy of core/src/policy.rs lets an action run.
use rust_agent.Base.{
  ℕ, ◌≤◌, Bool, true, some, List, ◌≡◌, ◌↔◌, inl, inr, refl, sym, ap, ◌∙◌, arith, In, Option-cases,
  In-filter, filter-In, In-filter-ne-empty, any_sound, any-In, filter, any,
}
use rust_agent.Policy.{
  CapabilityKind, CapabilityGrant, GrantSet, PolicyRequest, allow, kind_eq, from_action_type,
  scope_matches, within_limit, decide_for, is_action_allowed,
}
use rust_agent.Policy.Scope.{Covers, scope_matches_iff}

pub kind_eq_sound : (a b : CapabilityKind) → kind_eq a b ≡ true → a ≡ b
unfolding kind_eq
kind_eq_sound a b h = ground arith

pub kind_eq_refl : (a : CapabilityKind) → kind_eq a a ≡ true
unfolding kind_eq
kind_eq_refl a = ground arith

-- The payload is within the grant's limit, if it has one.
abbrev pub Fits : ℕ → CapabilityGrant → Type 0
Fits n g = (most : ℕ) → g.limits.max_payload_bytes ≡ some most → n ≤ most

within_limit-Fits : (n : ℕ) (g : CapabilityGrant) → within_limit n g ≡ true → Fits n g
within_limit-Fits n g h most e = ground arith

pub Fits-within_limit : (n : ℕ) (g : CapabilityGrant) → Fits n g → within_limit n g ≡ true
Fits-within_limit n g f = elim (Option-cases g.limits.max_payload_bytes) [
  | inl e ↦ rw e refl
  | inr (most, e) ↦ ground (arith, f most e)
]

-- One grant of the set permits the request.
pub record Permits (g : CapabilityGrant) (request : PolicyRequest) : Type 0 where
  pub kind : from_action_type request.action_type ≡ some g.kind
  pub scope : Covers g.scope request.scope
  pub payload : Fits request.payload_bytes g

module _ (kind : CapabilityKind) (request : PolicyRequest) where
  abbrev pub of_kind : CapabilityGrant → Bool
  of_kind g = kind_eq g.kind kind

  abbrev pub in_scope : CapabilityGrant → Bool
  in_scope g = scope_matches g.scope request.scope

  decide_for-allow :
      (gs : List CapabilityGrant)
      → decide_for kind gs request ≡ allow
      → any (within_limit request.payload_bytes) (filter in_scope (filter of_kind gs)) ≡ true
  unfolding decide_for
  decide_for-allow gs h = ground arith

  decide_for_sound :
      (gs : List CapabilityGrant)
      → decide_for kind gs request ≡ allow
      → (g : CapabilityGrant) × In g gs
        × (g.kind ≡ kind)
        × Covers g.scope request.scope
        × Fits request.payload_bytes g
  decide_for_sound gs h =
      let (g, m, fits) = any_sound (within_limit request.payload_bytes) _ (decide_for-allow gs h) in
      let (m', covers) = In-filter in_scope g _ m in
      let (m'', same) = In-filter of_kind g gs m' in
      (
        g,
        m'',
        kind_eq_sound g.kind kind same,
        (scope_matches_iff g.scope request.scope).0 covers,
        within_limit-Fits request.payload_bytes g fits,
      )

  decide_for_complete :
      (gs : List CapabilityGrant) (g : CapabilityGrant)
      → In g gs
      → g.kind ≡ kind
      → Covers g.scope request.scope
      → Fits request.payload_bytes g
      → decide_for kind gs request ≡ allow
  unfolding decide_for
  decide_for_complete gs g m e c f =
      let k : of_kind g ≡ true = rw e (kind_eq_refl kind) in
      let s = (scope_matches_iff g.scope request.scope).1 c in
      let m' = filter-In of_kind g gs m k in
      rw (
        In-filter-ne-empty of_kind g gs m k,
        In-filter-ne-empty in_scope g _ m' s,
        any-In (within_limit request.payload_bytes) g _ (filter-In in_scope g _ m' s)
            (Fits-within_limit request.payload_bytes g f),
      )

-- An action is allowed exactly when one grant of the set has the action's kind, covers its scope
-- and leaves room for its payload: no two grants are combined, and no grant is overlooked.
pub is_action_allowed_iff :
    (grants : GrantSet) (request : PolicyRequest)
    → (is_action_allowed grants request ≡ allow)
      ↔ ((g : CapabilityGrant) × In g grants.grants × Permits g request)
unfolding is_action_allowed
is_action_allowed_iff grants request = (
  λ h. elim (Option-cases (from_action_type request.action_type)) [
    | inl e ↦ cc (rw (e, is_action_allowed) at h)
    | inr (kind, e) ↦
        let (g, m, same, c, f) =
          decide_for_sound kind request grants.grants (rw (e, is_action_allowed) at h) in
        (g, m, record { kind = e ∙ ap some (sym same); scope = c; payload = f })
  ],
  λ (g, m, p).
      rw (p.kind, is_action_allowed)
        (decide_for_complete g.kind request grants.grants g m refl p.scope p.payload),
)
