-- ===== src/Grants/Limits.antt =====
-- The limits of a grant, and how the worker reads back what the API has stored.
use rust_agent.Base.{ℕ, Text, Option, some, ◌≤◌, ◌≡◌, arith, none, true, refl}
use rust_agent.Policy.{CapabilityKind, CapabilityGrant, db_query, http_request}
use rust_agent.Grants.{
  capability_json, capped_max, resolve_max_payload_bytes, is_scope_allowed_for_capability,
}
use rust_agent.Grants.Kinds.{name_of, parse_capability_kind-name_of}
use rust_agent.Worker.GrantSets.{parse_capability_grant, capability_kind_to_action_type}

abbrev pub limited_grant : CapabilityKind → Text → ℕ → CapabilityGrant
limited_grant k scope n = record {
  kind = k;
  scope = scope;
  limits = record { max_payload_bytes = some n };
}

-- A grant that is written by the API is read back by the worker, with its limit.
pub parse_capability_grant-capability_json :
    (k : CapabilityKind) (scope : Text) (requested bundle : Option ℕ)
    → parse_capability_grant (capability_json (name_of k) scope requested bundle)
      ≡ some (limited_grant k scope (capped_max (name_of k) requested bundle))
unfolding parse_capability_grant capability_json
parse_capability_grant-capability_json k scope requested bundle =
    rw (parse_capability_kind-name_of k) refl

pub capped_max-le :
    (c : Text) (requested bundle : Option ℕ)
    → capped_max c requested bundle ≤ resolve_max_payload_bytes c none
unfolding capped_max
capped_max-le c requested bundle = ground arith

pub capped_max-le-bundle :
    (c : Text) (requested : Option ℕ) (most : ℕ) → capped_max c requested (some most) ≤ most
unfolding capped_max
capped_max-le-bundle c requested most = ground arith

-- The kinds that this version can grant.
abbrev pub IsEnabled : CapabilityKind → Type 0
IsEnabled db_query = ⊥
IsEnabled http_request = ⊥
IsEnabled k = Unit

pub allowed-IsEnabled :
    (k : CapabilityKind) (scope : Text)
    → is_scope_allowed_for_capability (name_of k) scope ≡ true
    → IsEnabled k
unfolding is_scope_allowed_for_capability capability_kind_to_action_type
allowed-IsEnabled db_query scope h = ground arith
allowed-IsEnabled http_request scope h = ground arith
allowed-IsEnabled k scope h = tt
