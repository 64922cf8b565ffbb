-- ===== src/Grants/EndToEnd.antt =====
-- From the grants that api/src/lib.rs stores for a run to the decision that the worker takes on an
-- action with them.
use rust_agent.Base.{
  ℕ, Text, none, ◌≡◌, ◌≢◌, true, ◌⊎◌, refl, codes, subst, ◌++◌, sym, text_eq, some, List, Option,
  In, ◌∷◌, inl, eq_of_some, ◌≤◌, ap, inr, All-In, ◌∙◌, Option-cases, starts_with-split, arith, [],
}
use rust_agent.Json.{Value, items, elements, array}
use rust_agent.Policy.{
  CapabilityKind, object_read, object_write, memory_read, memory_write, message_send,
  message_receive, payment_send, llm_infer, local_exec, db_query, http_request, CapabilityGrant,
  PolicyRequest, allow, is_action_allowed, from_action_type,
}
use rust_agent.Policy.Decision.{Permits, is_action_allowed_iff}
use rust_agent.Policy.Scope.{Covers}
use rust_agent.Api.{RolePreset, owner, operator, viewer, ok, chain-ok, ok-injective}
use rust_agent.Grants.{
  parse_requested_capabilities, resolve_granted_capabilities, resolve_max_payload_bytes,
  role_allows_capability, grants_for,
}
use rust_agent.Grants.Kinds.{name_of}
use rust_agent.Grants.Limits.{IsEnabled}
use rust_agent.Grants.Requests.{parse_requested_capabilities-IsSound}
use rust_agent.Grants.Safety.{IsGranted, grants_for-IsGranted, role_allows_capability-Covers}
use rust_agent.Worker.GrantSets.{
  parse_capability_grant, parse_grant_set, filter_map, capability_kind_to_action_type,
}

-- What each role may do, whatever was requested.
abbrev pub RoleMay : RolePreset → CapabilityKind → Text → Type 0
RoleMay owner k scope = Unit
RoleMay operator k scope = k ≢ local_exec
RoleMay viewer k scope =
    (k ≡ object_read) ⊎ ((k ≡ llm_infer) × ((rest : Text) × (scope ≡ codes "local:" ++ rest)))

-- The largest payload of an action of each kind, in bytes.
abbrev pub hard_limit : CapabilityKind → ℕ
hard_limit object_read = 128000
hard_limit object_write = 500000
hard_limit memory_read = 64000
hard_limit memory_write = 64000
hard_limit message_send = 20000
hard_limit message_receive = 20000
hard_limit payment_send = 16000
hard_limit llm_infer = 32000
hard_limit local_exec = 4096
hard_limit db_query = 0
hard_limit http_request = 0

resolve_max_payload_bytes-hard_limit :
    (k : CapabilityKind) → resolve_max_payload_bytes (name_of k) none ≡ hard_limit k
unfolding resolve_max_payload_bytes capability_kind_to_action_type
resolve_max_payload_bytes-hard_limit object_read = refl
resolve_max_payload_bytes-hard_limit object_write = refl
resolve_max_payload_bytes-hard_limit memory_read = refl
resolve_max_payload_bytes-hard_limit memory_write = refl
resolve_max_payload_bytes-hard_limit message_send = refl
resolve_max_payload_bytes-hard_limit message_receive = refl
resolve_max_payload_bytes-hard_limit payment_send = refl
resolve_max_payload_bytes-hard_limit llm_infer = refl
resolve_max_payload_bytes-hard_limit local_exec = refl
resolve_max_payload_bytes-hard_limit db_query = refl
resolve_max_payload_bytes-hard_limit http_request = refl

role_allows_capability-RoleMay :
    (role : RolePreset) (k : CapabilityKind) (scope : Text)
    → role_allows_capability role (name_of k) scope ≡ true
    → RoleMay role k scope
unfolding role_allows_capability capability_kind_to_action_type text_eq
role_allows_capability-RoleMay owner k scope h = tt
role_allows_capability-RoleMay operator local_exec scope h = cc
role_allows_capability-RoleMay operator k scope h = λ e. cc
role_allows_capability-RoleMay viewer object_read scope h = inl refl
role_allows_capability-RoleMay viewer llm_infer scope h =
    inr (refl, starts_with-split scope (codes "local:") h)
role_allows_capability-RoleMay viewer k scope h = cc

In-filter_map :
    (f : Value → Option CapabilityGrant) (g : CapabilityGrant) (vs : List Value)
    → In g (filter_map f vs)
    → (v : Value) × In v vs × (f v ≡ some g)
In-filter_map f g [] m = absurd m
In-filter_map f g (v ∷ vs) m = elim (Option-cases (f v)) [
  | inl e ↦ let (w, n, q) = In-filter_map f g vs (rw (e, filter_map) at m) in (w, inr n, q)
  | inr (h, e) ↦ later h e (rw (e, filter_map) at m) (In-filter_map f g vs)
]
  where
    later :
        (h : CapabilityGrant)
        → f v ≡ some h
        → (g ≡ h) ⊎ In g (filter_map f vs)
        → (In g (filter_map f vs) → (w : Value) × In w vs × (f w ≡ some g))
        → (w : Value) × In w (v ∷ vs) × (f w ≡ some g)
    later h e (inl q) ih = (v, inl refl, e ∙ ap some (sym q))
    later h e (inr n) ih = let (w, n', q) = ih n in (w, inr n', q)

elements-items : (vs : List Value) → elements (items vs) ≡ vs
elements-items [] = refl
elements-items (v ∷ vs) = ap (λ ws. v ∷ ws) (elements-items vs)

-- What an action must be like that a worker lets run for a role.
pub record IsWithin (role : RolePreset) (request : PolicyRequest) : Type 0 where
  pub kind : CapabilityKind
  pub known : from_action_type request.action_type ≡ some kind
  pub enabled : (kind ≢ db_query) × (kind ≢ http_request)
  pub role_may : RoleMay role kind request.scope
  pub payload : request.payload_bytes ≤ hard_limit kind

IsEnabled-ne : (k : CapabilityKind) → IsEnabled k → (k ≢ db_query) × (k ≢ http_request)
IsEnabled-ne db_query h = absurd h
IsEnabled-ne http_request h = absurd h
IsEnabled-ne k h = (λ e. cc, λ e. cc)

Permits-IsWithin :
    (role : RolePreset) (v : Value) (g : CapabilityGrant) (request : PolicyRequest)
    → IsGranted role v
    → parse_capability_grant v ≡ some g
    → Permits g request
    → IsWithin role request
Permits-IsWithin role v g request granted e p =
    let same = eq_of_some (sym e ∙ granted.read) in
    let k = granted.kind in
    let covers = subst (λ h. Covers h.scope request.scope) same p.scope in
    record {
      kind = k;
      known = p.kind ∙ ap (λ h. some h.kind) same;
      enabled = IsEnabled-ne k granted.enabled;
      role_may = role_allows_capability-RoleMay role k request.scope (
          role_allows_capability-Covers role (name_of k) granted.scope request.scope covers
            granted.allowed);
      payload = omega (
        arith,
        granted.bounded,
        resolve_max_payload_bytes-hard_limit k,
        p.payload granted.limit (ap (λ h. h.limits.max_payload_bytes) same),
      );
    }

-- Whatever is requested for a run, the grants that are stored for it let the worker allow only
-- actions of an enabled kind (never `db.query` or `http.request`), within the hard limit of the
-- kind, that the role may take: an operator no `local.exec`, a viewer only `object.read` and
-- `llm.infer` on a `local:` scope.
pub is_action_allowed-resolve_granted_capabilities :
    (recipe : Text) (role : RolePreset) (requested granted : Value) (request : PolicyRequest)
    → resolve_granted_capabilities recipe role requested ≡ ok granted
    → is_action_allowed (parse_grant_set granted) request ≡ allow
    → IsWithin role request
unfolding resolve_granted_capabilities parse_grant_set
is_action_allowed-resolve_granted_capabilities recipe role requested granted request h a =
    let (rs, parsed, stored) = chain-ok (parse_requested_capabilities requested) _ h in
    let vs = grants_for recipe role rs in
    let (g, m, p) = (is_action_allowed_iff (parse_grant_set (array (items vs))) request).0 (
      subst (λ w. is_action_allowed (parse_grant_set w) request ≡ allow) (sym (ok-injective stored))
        a) in
    let (v, n, e) =
      In-filter_map parse_capability_grant g vs
        (subst (λ ws. In g (filter_map parse_capability_grant ws)) (elements-items vs) m) in
    let sound =
      grants_for-IsGranted role recipe rs
        (parse_requested_capabilities-IsSound requested rs parsed) in
    Permits-IsWithin role v g request (All-In (IsGranted role) v vs sound n) e p
