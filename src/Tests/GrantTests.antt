-- ===== src/Tests/GrantTests.antt =====
-- The policy and the grants on concrete inputs.
use rust_agent.Base.{ℕ, Text, codes, [], ◌∷◌, ◌≡◌, ◌↔◌, refl, true, In}
use rust_agent.Json.{Value, array, object, string, number, pos_int, field, end, cons, nil, get}
use rust_agent.Policy.{
  CapabilityGrant, GrantSet, PolicyRequest, object_write, allow, deny, scope_mismatch,
  capability_missing, payload_too_large, is_action_allowed, scope_matches, new_grant,
  with_max_payload_bytes,
}
use rust_agent.Policy.Scope.{Covers, scope_matches_iff}
use rust_agent.Policy.Decision.{Permits, is_action_allowed_iff}
use rust_agent.Policy.Refusals.{Refusal, is_action_allowed-Refusal}
use rust_agent.Api.{viewer, ok, err, bad_request}
use rust_agent.Grants.{
  resolve_granted_capabilities, parse_requested_capabilities, grants_for, parse_requested_items,
  parse_requested_item, admit_item, grant_requested, grant_unbundled, capability_json,
  role_allows_capability, normalize_capability, is_scope_allowed_for_capability,
}
use rust_agent.Grants.EndToEnd.{IsWithin, is_action_allowed-resolve_granted_capabilities}
use rust_agent.Grants.Bundles.{resolve_recipe_capability_bundle}
use rust_agent.Worker.GrantSets.{parse_grant_set, parse_capability_grant, parse_capability_kind}

running_grants : Unit {0}
unfolding resolve_granted_capabilities parse_requested_capabilities parse_requested_items
    parse_requested_item admit_item normalize_capability is_scope_allowed_for_capability grants_for
    grant_requested grant_unbundled capability_json role_allows_capability
    resolve_recipe_capability_bundle parse_grant_set parse_capability_grant parse_capability_kind
    is_action_allowed scope_matches get
running_grants = tt

-- `{"capability": …, "scope": …}`
abbrev asked : Text → Text → Value
asked capability scope =
    object
      (field (codes "capability") (string capability) (field (codes "scope") (string scope) end))

abbrev two_asked : Value
two_asked = array (
    cons (asked (codes " OBJECT_READ ") (codes "podcasts/a"))
      (cons (asked (codes "object.write") (codes "shownotes/a")) nil))

-- What a viewer gets of them.
abbrev viewer_grants : Value
viewer_grants = array (
    cons
      (object (
        field (codes "capability") (string (codes "object.read")) (
          field (codes "limits")
            (object (field (codes "max_payload_bytes") (number (pos_int 128000)) end))
            (field (codes "scope") (string (codes "podcasts/a")) end))))
      nil)

viewer_grants_test :
    resolve_granted_capabilities (codes "show_notes_v1") viewer two_asked ≡ ok viewer_grants
unfolding running_grants
viewer_grants_test = refl

not_an_array :
    resolve_granted_capabilities (codes "show_notes_v1") viewer (string [])
    ≡ err
        (record { status = bad_request; message = codes "requested_capabilities must be an array" })
unfolding running_grants
not_an_array = refl

abbrev read_request : PolicyRequest
read_request = record {
  action_type = codes "object.read";
  scope = codes "podcasts/a";
  payload_bytes = 10;
}

is_action_allowed-resolve_granted_capabilities_example : IsWithin viewer read_request
unfolding running_grants
is_action_allowed-resolve_granted_capabilities_example =
    is_action_allowed-resolve_granted_capabilities (codes "show_notes_v1") viewer two_asked
      viewer_grants read_request refl refl

abbrev write_grants : GrantSet
write_grants = record {
  grants = with_max_payload_bytes (new_grant object_write (codes "shownotes/*")) 100 ∷ [];
}

abbrev write_request : Text → ℕ → PolicyRequest
write_request scope size = record {
  action_type = codes "object.write";
  scope = scope;
  payload_bytes = size;
}

decisions :
    (is_action_allowed write_grants (write_request (codes "shownotes/e.md") 100) ≡ allow)
    × (is_action_allowed write_grants (write_request (codes "shownotes/e.md") 101)
        ≡ deny payload_too_large)
    × (is_action_allowed write_grants (write_request (codes "podcasts/e.md") 1)
        ≡ deny scope_mismatch)
    × (is_action_allowed write_grants read_request ≡ deny capability_missing)
unfolding running_grants
decisions = (refl, refl, refl, refl)

is_action_allowed_iff_example :
    (is_action_allowed write_grants (write_request (codes "shownotes/e.md") 100) ≡ allow) ↔ (
      (g : CapabilityGrant) × In g write_grants.grants
      × Permits g (write_request (codes "shownotes/e.md") 100))
is_action_allowed_iff_example =
    is_action_allowed_iff write_grants (write_request (codes "shownotes/e.md") 100)

is_action_allowed-Refusal_example :
    Refusal payload_too_large write_grants.grants (write_request (codes "shownotes/e.md") 101)
unfolding running_grants
is_action_allowed-Refusal_example =
    is_action_allowed-Refusal write_grants (write_request (codes "shownotes/e.md") 101)
      payload_too_large refl

scope_matches_iff_example :
    (scope_matches (codes "nwc:*") (codes "nwc:main") ≡ true)
    ↔ Covers (codes "nwc:*") (codes "nwc:main")
scope_matches_iff_example = scope_matches_iff (codes "nwc:*") (codes "nwc:main")
