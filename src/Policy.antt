-- ===== src/Policy.antt =====
-- core/src/policy.rs: capability grants and the decision whether an action may run.
pub mod Scope
pub mod Decision
pub mod Refusals
use rust_agent.Base.{
  ℕ, Bool, true, false, Option, none, some, List, [], ◌∷◌, ◌++◌, Text, codes, text_eq, starts_with,
  strip_suffix_char, match_text, leb, if◌then◌else◌, filter, any, is_empty, ◌==◌, map,
}

pub data CapabilityKind : Type 0 where
  object_read object_write memory_read memory_write message_send message_receive payment_send
        llm_infer local_exec db_query http_request :
      CapabilityKind

-- The derived `PartialEq`.
abbrev kind_number : CapabilityKind → ℕ
kind_number object_read = 0
kind_number object_write = 1
kind_number memory_read = 2
kind_number memory_write = 3
kind_number message_send = 4
kind_number message_receive = 5
kind_number payment_send = 6
kind_number llm_infer = 7
kind_number local_exec = 8
kind_number db_query = 9
kind_number http_request = 10

unfoldable pub kind_eq : CapabilityKind → CapabilityKind → Bool
kind_eq a b = kind_number a == kind_number b

abbrev pub action_types : List (Text × CapabilityKind)
action_types =
    (codes "object.read", object_read)
    ∷ (codes "object.write", object_write)
    ∷ (codes "memory.read", memory_read)
    ∷ (codes "memory.write", memory_write)
    ∷ (codes "message.send", message_send)
    ∷ (codes "message.receive", message_receive)
    ∷ (codes "payment.send", payment_send)
    ∷ (codes "llm.infer", llm_infer)
    ∷ (codes "local.exec", local_exec)
    ∷ (codes "db.query", db_query)
    ∷ (codes "http.request", http_request)
    ∷ []

unfoldable pub from_action_type : Text → Option CapabilityKind
unfolding match_text
from_action_type action_type = match_text action_type action_types

pub record CapabilityLimits : Type 0 where
  pub max_payload_bytes : Option ℕ

pub record CapabilityGrant : Type 0 where
  pub kind : CapabilityKind
  pub scope : Text
  pub limits : CapabilityLimits

abbrev pub new_grant : CapabilityKind → Text → CapabilityGrant
new_grant kind scope = record {
  kind = kind;
  scope = scope;
  limits = record { max_payload_bytes = none };
}

abbrev pub with_max_payload_bytes : CapabilityGrant → ℕ → CapabilityGrant
with_max_payload_bytes g n = record g { limits = record { max_payload_bytes = some n } }

pub record GrantSet : Type 0 where
  pub grants : List CapabilityGrant

pub record PolicyRequest : Type 0 where
  pub action_type : Text
  pub scope : Text
  pub payload_bytes : ℕ

pub data DenyReason : Type 0 where
  unknown_action_type capability_missing scope_mismatch payload_too_large invalid_action_contract :
      DenyReason

pub data PolicyDecision : Type 0 where
  allow : PolicyDecision
  deny : DenyReason → PolicyDecision

-- Also `scope_within` of api/src/lib.rs, which has the same body.
unfoldable pub scope_matches : Text → Text → Bool
unfolding strip_suffix_char starts_with text_eq
scope_matches grant_scope requested_scope = elim (strip_suffix_char b'*' grant_scope) [
  | some prefix ↦ starts_with requested_scope prefix
  | none ↦ text_eq grant_scope requested_scope
]

-- `limits.max_payload_bytes.map_or(true, |max| payload_bytes <= max)`
abbrev pub within_limit : ℕ → CapabilityGrant → Bool
within_limit payload_bytes g = elim g.limits.max_payload_bytes [
  | none ↦ true
  | some most ↦ leb payload_bytes most
]

-- The three filters after the action type is known.
unfoldable pub decide_for : CapabilityKind → List CapabilityGrant → PolicyRequest → PolicyDecision
unfolding kind_eq scope_matches
decide_for kind grants request =
    let kind_grants = filter (λ g. kind_eq g.kind kind) grants in
    let scoped_grants = filter (λ g. scope_matches g.scope request.scope) kind_grants in
    if is_empty kind_grants
    then deny capability_missing
    else if is_empty scoped_grants
    then deny scope_mismatch
    else if any (within_limit request.payload_bytes) scoped_grants
    then allow
    else deny payload_too_large

unfoldable pub is_action_allowed : GrantSet → PolicyRequest → PolicyDecision
unfolding from_action_type decide_for
is_action_allowed grants request = elim (from_action_type request.action_type) [
  | none ↦ deny unknown_action_type
  | some kind ↦ decide_for kind grants.grants request
]
