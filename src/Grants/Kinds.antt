-- ===== src/Grants/Kinds.antt =====
-- The canonical capability names and the action types of the policy are the same eleven texts.
use rust_agent.Base.{trim, to_ascii_lowercase, ◌≡◌, refl, some, Text, All, All-In, match_text_sound}
use rust_agent.Policy.{
  CapabilityKind, object_read, object_write, memory_read, memory_write, message_send,
  message_receive, payment_send, llm_infer, local_exec, db_query, http_request,
}
use rust_agent.Grants.{normalize_capability, capability_names}
use rust_agent.Worker.GrantSets.{capability_kind_to_action_type, parse_capability_kind}

abbrev pub name_of : CapabilityKind → Text
name_of = capability_kind_to_action_type

pub parse_capability_kind-name_of :
    (k : CapabilityKind) → parse_capability_kind (name_of k) ≡ some k
unfolding parse_capability_kind capability_kind_to_action_type
parse_capability_kind-name_of object_read = refl
parse_capability_kind-name_of object_write = refl
parse_capability_kind-name_of memory_read = refl
parse_capability_kind-name_of memory_write = refl
parse_capability_kind-name_of message_send = refl
parse_capability_kind-name_of message_receive = refl
parse_capability_kind-name_of payment_send = refl
parse_capability_kind-name_of llm_infer = refl
parse_capability_kind-name_of local_exec = refl
parse_capability_kind-name_of db_query = refl
parse_capability_kind-name_of http_request = refl

abbrev IsName : Text → Type 0
IsName t = (k : CapabilityKind) × (t ≡ name_of k)

names_listed : All (λ kv. IsName kv.1) capability_names
unfolding capability_kind_to_action_type
names_listed = (
  (object_read, refl),
  (
    (object_read, refl),
    (
      (object_write, refl),
      (
        (object_write, refl),
        (
          (memory_read, refl),
          (
            (memory_read, refl),
            (
              (memory_write, refl),
              (
                (memory_write, refl),
                (
                  (message_send, refl),
                  (
                    (message_send, refl),
                    (
                      (message_receive, refl),
                      (
                        (message_receive, refl),
                        (
                          (payment_send, refl),
                          (
                            (payment_send, refl),
                            (
                              (llm_infer, refl),
                              (
                                (llm_infer, refl),
                                (
                                  (local_exec, refl),
                                  (
                                    (local_exec, refl),
                                    (
                                      (db_query, refl),
                                      (
                                        (db_query, refl),
                                        ((http_request, refl), ((http_request, refl), tt)),
                                      ),
                                    ),
                                  ),
                                ),
                              ),
                            ),
                          ),
                        ),
                      ),
                    ),
                  ),
                ),
              ),
            ),
          ),
        ),
      ),
    ),
  ),
)

pub normalize_capability-name_of :
    (raw c : Text) → normalize_capability raw ≡ some c → (k : CapabilityKind) × (c ≡ name_of k)
unfolding normalize_capability
normalize_capability-name_of raw c h =
    let t = to_ascii_lowercase (trim raw) in
    All-In (λ kv. IsName kv.1) (t, c) capability_names names_listed
      (match_text_sound t capability_names c h)
