-- ===== src/Grants/Safety.antt =====
-- What the capabilities that api/src/lib.rs grants to a run can let a worker do.
use rust_agent.Base.{
  ℕ, Text, Option, ◌≡◌, true, some, subst, strip_suffix_char, ◌≤◌, codes, none, sym, arith,
  starts_with, refl, List, Bool, All, text_eq, filter, map, ◌∷◌, Option-cases, Bool-cases, find,
  inl, [], ◌&&◌, inr, is_empty, find_sound, and-eq-true, All-In, text_eq_sound, ◌∙◌,
}
use rust_agent.Json.{Value}
use rust_agent.Policy.{CapabilityKind}
use rust_agent.Policy.Scope.{Covers, scope_matches_iff, Covers-starts_with}
use rust_agent.Api.{RolePreset}
use rust_agent.Grants.{
  RequestedCapability, role_allows_capability, capability_json, capped_max,
  resolve_max_payload_bytes, grant_unbundled, grant_requested, grants_for, scope_matches,
  is_scope_allowed_for_capability,
}
use rust_agent.Grants.Bundles.{BundleCapability, resolve_recipe_capability_bundle}
use rust_agent.Grants.BundleFacts.{IsRegular, resolve_recipe_capability_bundle-IsRegular}
use rust_agent.Grants.Kinds.{name_of}
use rust_agent.Grants.Limits.{
  IsEnabled, limited_grant, parse_capability_grant-capability_json, capped_max-le,
  allowed-IsEnabled,
}
use rust_agent.Grants.Requests.{IsSound}
use rust_agent.Worker.GrantSets.{parse_capability_grant}

-- A stored entry that the worker reads as a grant the role may hold, within the hard limit.
pub record IsGranted (role : RolePreset) (v : Value) : Type 0 where
  pub kind : CapabilityKind
  pub scope : Text
  pub limit : ℕ
  pub read : parse_capability_grant v ≡ some (limited_grant kind scope limit)
  pub allowed : role_allows_capability role (name_of kind) scope ≡ true
  pub enabled : IsEnabled kind
  pub bounded : limit ≤ resolve_max_payload_bytes (name_of kind) none

under_local :
    (g r : Text)
    → Covers g r
    → starts_with g (codes "local:") ≡ true
    → starts_with r (codes "local:") ≡ true
unfolding strip_suffix_char
under_local g r covers h = Covers-starts_with g r (codes "local:") covers h refl

module _ (role : RolePreset) where
  capability_json-IsGranted :
      (k : CapabilityKind) (c scope : Text) (requested bundle : Option ℕ)
      → c ≡ name_of k
      → IsEnabled k
      → role_allows_capability role c scope ≡ true
      → IsGranted role (capability_json c scope requested bundle)
  capability_json-IsGranted k c scope requested bundle e enabled h =
      subst (λ t. IsGranted role (capability_json t scope requested bundle)) (sym e)
        (record {
          kind = k;
          scope = scope;
          limit = capped_max (name_of k) requested bundle;
          read = parse_capability_grant-capability_json k scope requested bundle;
          allowed = subst (λ t. role_allows_capability role t scope ≡ true) e h;
          enabled = enabled;
          bounded = capped_max-le (name_of k) requested bundle;
        })

  -- A role that may hold a pattern may hold every scope under it.
  pub role_allows_capability-Covers :
      (c g r : Text)
      → Covers g r
      → role_allows_capability role c g ≡ true
      → role_allows_capability role c r ≡ true
  unfolding role_allows_capability
  role_allows_capability-Covers c g r covers h =
      ground (arith, λ (q : starts_with g (codes "local:") ≡ true). under_local g r covers q)

  grant_unbundled-IsGranted :
      (rs : List RequestedCapability)
      → All IsSound rs
      → All (IsGranted role) (grant_unbundled role rs)
  unfolding grant_unbundled
  grant_unbundled-IsGranted [] h = tt
  grant_unbundled-IsGranted (r ∷ rs) (s, h) =
      let rest = grant_unbundled-IsGranted rs h in
      elim (Bool-cases (role_allows_capability role r.capability r.scope)) [
        | inl e ↦
            rw (e, grant_unbundled)
              (
                capability_json-IsGranted s.kind r.capability r.scope r.requested_max_payload_bytes
                    none s.named
                    (allowed-IsEnabled s.kind r.scope (
                      subst (λ t. is_scope_allowed_for_capability t r.scope ≡ true) s.named
                        s.allowed))
                    e,
                rest,
              )
        | inr e ↦ rw (e, grant_unbundled) rest
      ]

  -- The entries of a bundle that the role may hold.
  abbrev IsUsable : BundleCapability → Type 0
  IsUsable e = IsRegular e × (role_allows_capability role e.capability e.scope ≡ true)

  grant_bundle-IsGranted :
      (es : List BundleCapability)
      → All IsUsable es
      → All
          (IsGranted role)
          (map (λ e. capability_json e.capability e.scope none e.max_payload_bytes) es)
  grant_bundle-IsGranted [] h = tt
  grant_bundle-IsGranted (e ∷ es) (((k, named, enabled, _), a), h) = (
    capability_json-IsGranted k e.capability e.scope none e.max_payload_bytes named enabled a,
    grant_bundle-IsGranted es h,
  )

  -- An entry of the bundle that serves a request.
  abbrev serves : RequestedCapability → BundleCapability → Bool
  serves r e = text_eq e.capability r.capability && scope_matches e.scope r.scope

  grant_requested-IsGranted :
      (es : List BundleCapability) (rs : List RequestedCapability)
      → All IsUsable es
      → All (IsGranted role) (grant_requested es rs)
  unfolding grant_requested
  grant_requested-IsGranted es [] h = tt
  grant_requested-IsGranted es (r ∷ rs) h = elim (Option-cases (find (serves r) es)) [
    | inl n ↦ rw (n, grant_requested) (grant_requested-IsGranted es rs h)
    | inr (e, f) ↦
        let (m, s) = find_sound (serves r) es e f in
        let (same, covers) = and-eq-true _ _ s in
        let ((k, named, enabled, _), a) = All-In IsUsable e es h m in
        let c = text_eq_sound e.capability r.capability same in
        rw (f, grant_requested)
          (
            capability_json-IsGranted k r.capability r.scope r.requested_max_payload_bytes
                e.max_payload_bytes (sym c ∙ named) enabled
                (role_allows_capability-Covers r.capability e.scope r.scope
                  ((scope_matches_iff e.scope r.scope).0 covers)
                  (subst (λ t. role_allows_capability role t e.scope ≡ true) c a)),
            grant_requested-IsGranted es rs h,
          )
  ]

  usable :
      (es : List BundleCapability)
      → All IsRegular es
      → All IsUsable (filter (λ e. role_allows_capability role e.capability e.scope) es)
  usable [] h = tt
  usable (e ∷ es) (r, h) = elim (Bool-cases (role_allows_capability role e.capability e.scope)) [
    | inl a ↦ rw a ((r, a), usable es h)
    | inr a ↦ rw a (usable es h)
  ]

  pub grants_for-IsGranted :
      (recipe : Text) (rs : List RequestedCapability)
      → All IsSound rs
      → All (IsGranted role) (grants_for recipe role rs)
  unfolding grants_for
  grants_for-IsGranted recipe rs h = elim (Option-cases (resolve_recipe_capability_bundle recipe)) [
    | inl n ↦ rw (n, grants_for) (grant_unbundled-IsGranted rs h)
    | inr (es, e) ↦
        let u = usable es (resolve_recipe_capability_bundle-IsRegular recipe es e) in
        rw (e, grants_for)
          (elim (Bool-cases (is_empty rs)) [
            | inl n ↦ rw n (grant_bundle-IsGranted _ u)
            | inr n ↦ rw n (grant_requested-IsGranted _ rs u)
          ])
  ]
