-- ===== src/Worker/GrantSets.antt =====
-- worker/src/lib.rs: the stored grants of a run, read back into the policy's grant set.
use rust_agent.Base.{ℕ, Option, none, some, List, [], ◌∷◌, Text, codes, match_text, ◌>>=◌}
use rust_agent.Json.{Value, get, as_str, as_array, as_u64}
use rust_agent.Policy.{
  CapabilityKind, object_read, object_write, memory_read, memory_write, message_send,
  message_receive, payment_send, llm_infer, local_exec, db_query, http_request, CapabilityGrant,
  GrantSet, new_grant, with_max_payload_bytes,
}

abbrev pub kind_names : List (Text × CapabilityKind)
kind_names =
    (codes "object.read", object_read)
    ∷ (codes "object_read", object_read)
    ∷ (codes "object.write", object_write)
    ∷ (codes "object_write", object_write)
    ∷ (codes "memory.read", memory_read)
    ∷ (codes "memory_read", memory_read)
    ∷ (codes "memory.write", memory_write)
    ∷ (codes "memory_write", memory_write)
    ∷ (codes "message.send", message_send)
    ∷ (codes "message_send", message_send)
    ∷ (codes "message.receive", message_receive)
    ∷ (codes "message_receive", message_receive)
    ∷ (codes "payment.send", payment_send)
    ∷ (codes "payment_send", payment_send)
    ∷ (codes "llm.infer", llm_infer)
    ∷ (codes "llm_infer", llm_infer)
    ∷ (codes "local.exec", local_exec)
    ∷ (codes "local_exec", local_exec)
    ∷ (codes "db.query", db_query)
    ∷ (codes "db_query", db_query)
    ∷ (codes "http.request", http_request)
    ∷ (codes "http_request", http_request)
    ∷ []

unfoldable pub parse_capability_kind : Text → Option CapabilityKind
unfolding match_text
parse_capability_kind value = match_text value kind_names

unfoldable pub capability_kind_to_action_type : CapabilityKind → Text
capability_kind_to_action_type object_read = codes "object.read"
capability_kind_to_action_type object_write = codes "object.write"
capability_kind_to_action_type memory_read = codes "memory.read"
capability_kind_to_action_type memory_write = codes "memory.write"
capability_kind_to_action_type message_send = codes "message.send"
capability_kind_to_action_type message_receive = codes "message.receive"
capability_kind_to_action_type payment_send = codes "payment.send"
capability_kind_to_action_type llm_infer = codes "llm.infer"
capability_kind_to_action_type local_exec = codes "local.exec"
capability_kind_to_action_type db_query = codes "db.query"
capability_kind_to_action_type http_request = codes "http.request"

-- The limit of an entry, if it is a number that fits `u64`.
abbrev entry_limit : Value → Option ℕ
entry_limit value = get (codes "limits") value >>= get (codes "max_payload_bytes") >>= as_u64

abbrev limited : CapabilityGrant → Option ℕ → CapabilityGrant
limited grant none = grant
limited grant (some n) = with_max_payload_bytes grant n

unfoldable pub parse_capability_grant : Value → Option CapabilityGrant
unfolding get
parse_capability_grant value = do
  capability ← get (codes "capability") value >>= as_str
  scope ← get (codes "scope") value >>= as_str
  kind ← parse_capability_kind capability
  some (limited (new_grant kind scope) (entry_limit value))

abbrev pub filter_map : {A B : Type 0} → (A → Option B) → List A → List B
filter_map f [] = []
filter_map f (x ∷ xs) = elim (f x) [ none ↦ filter_map f xs | some y ↦ y ∷ filter_map f xs ]

unfoldable pub parse_grant_set : Value → GrantSet
parse_grant_set raw = elim (as_array raw) [
  | none ↦ record { grants = [] }
  | some entries ↦ record { grants = filter_map parse_capability_grant entries }
]
