-- ===== src/Grants/Requests.antt =====
-- What the parser of api/src/lib.rs lets through: capabilities with a canonical name and a scope
-- that the capability may have.
use rust_agent.Base.{
  Bool-cases, inr, if◌then◌else◌, codes, is_empty, trim, ◌∙◌, ℕ, ◌≡◌, refl, ap, true, Option, none,
  some, List, [], ◌∷◌, Text, All, Option-cases, arith, inl, inr,
}
use rust_agent.Json.{Value, as_array}
use rust_agent.Policy.{CapabilityKind}
use rust_agent.Api.{ok, chain-ok, ok-injective, or_bad_request}
use rust_agent.Grants.{
  RequestedCapability, normalize_capability, is_scope_allowed_for_capability, parse_requested_item,
  admit_item, parse_requested_items, parse_requested_capabilities, requested_limit, keep_some,
  text_at,
}
use rust_agent.Grants.Kinds.{name_of, normalize_capability-name_of}

pub record IsSound (r : RequestedCapability) : Type 0 where
  pub kind : CapabilityKind
  pub named : r.capability ≡ name_of kind
  pub allowed : is_scope_allowed_for_capability r.capability r.scope ≡ true

admit_item-IsSound :
    (raw scope : Text) (limit : Option ℕ) (r : RequestedCapability)
    → admit_item raw scope limit ≡ some r
    → IsSound r
unfolding admit_item
admit_item-IsSound raw scope limit r h = elim (Option-cases (normalize_capability raw)) [
  | inl e ↦ cc (rw (e, admit_item) at h)
  | inr (c, e) ↦
      let (k, n) = normalize_capability-name_of raw c e in
      elim (Bool-cases (is_scope_allowed_for_capability c scope)) [
        | inl a ↦ record { kind = k; named = ground arith; allowed = ground arith }
        | inr a ↦ ground arith
      ]
]

parse_requested_item-IsSound :
    (item : Value) (r : RequestedCapability) → parse_requested_item item ≡ ok (some r) → IsSound r
unfolding parse_requested_item
parse_requested_item-IsSound item r h =
    let (raw, _, h1) = chain-ok (or_bad_request (text_at (codes "capability") item) _) _ h in
    let (raw_scope, _, h2) = chain-ok (or_bad_request (text_at (codes "scope") item) _) _ h1 in
    let (scope, _, h3) =
      chain-ok
        (or_bad_request (if is_empty (trim raw_scope) then none else some (trim raw_scope)) _) _
        h2 in
    admit_item-IsSound raw scope (requested_limit item) r (ok-injective h3)

keep_some-IsSound :
    (o : Option RequestedCapability) (rs : List RequestedCapability)
    → ((r : RequestedCapability) → o ≡ some r → IsSound r)
    → All IsSound rs
    → All IsSound (keep_some o rs)
keep_some-IsSound none rs f h = h
keep_some-IsSound (some r) rs f h = (f r refl, h)

parse_requested_items-IsSound :
    (vs : List Value) (rs : List RequestedCapability)
    → parse_requested_items vs ≡ ok rs
    → All IsSound rs
unfolding parse_requested_items
parse_requested_items-IsSound [] rs h = ground arith
parse_requested_items-IsSound (v ∷ vs) rs h =
    let (o, e, h1) = chain-ok (parse_requested_item v) _ h in
    let (ss, f, h2) = chain-ok (parse_requested_items vs) _ h1 in
    let sound =
      keep_some-IsSound o ss (λ r q. parse_requested_item-IsSound v r (e ∙ ap ok q))
        (parse_requested_items-IsSound vs ss f) in
    ground arith

-- Every request that the parser hands on is sound.
pub parse_requested_capabilities-IsSound :
    (v : Value) (rs : List RequestedCapability)
    → parse_requested_capabilities v ≡ ok rs
    → All IsSound rs
unfolding parse_requested_capabilities
parse_requested_capabilities-IsSound v rs h =
    let (vs, _, h1) = chain-ok (or_bad_request (as_array v) _) parse_requested_items h in
    parse_requested_items-IsSound vs rs h1
