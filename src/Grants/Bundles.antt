-- ===== src/Grants/Bundles.antt =====
-- api/src/lib.rs: the payload limits and the capability bundle of each recipe.
use rust_agent.Base.{ℕ, Option, some, List, [], ◌∷◌, Text, codes, match_text}

abbrev pub max_object_write : ℕ
max_object_write = 500_000

abbrev pub max_message_send : ℕ
max_message_send = 20_000

abbrev pub max_object_read : ℕ
max_object_read = 128_000

abbrev pub max_local_exec : ℕ
max_local_exec = 4_096

abbrev pub max_llm_infer : ℕ
max_llm_infer = 32_000

abbrev pub max_payment_send : ℕ
max_payment_send = 16_000

abbrev pub max_memory_read : ℕ
max_memory_read = 64_000

abbrev pub max_memory_write : ℕ
max_memory_write = 64_000

pub record BundleCapability : Type 0 where
  pub capability : Text
  pub scope : Text
  pub max_payload_bytes : Option ℕ

abbrev pub entry : Text → Text → ℕ → BundleCapability
entry capability scope most = record {
  capability = capability;
  scope = scope;
  max_payload_bytes = some most;
}

abbrev pub bundles : List (Text × List BundleCapability)
bundles =
    (
      codes "show_notes_v1",
      entry (codes "object.read") (codes "podcasts/*") max_object_read
          ∷ entry (codes "object.write") (codes "shownotes/*") max_object_write
          ∷ entry (codes "message.send") (codes "whitenoise:*") max_message_send
          ∷ entry (codes "llm.infer") (codes "local:*") max_llm_infer
          ∷ entry (codes "local.exec") (codes "local.exec:file.head") max_local_exec
          ∷ [],
    )
    ∷ (
      codes "notify_v1",
      entry (codes "message.send") (codes "whitenoise:*") max_message_send
          ∷ entry (codes "message.send") (codes "slack:*") max_message_send
          ∷ entry (codes "llm.infer") (codes "local:*") max_llm_infer
          ∷ [],
    )
    ∷ (
      codes "operator_reply_v1",
      entry (codes "message.send") (codes "whitenoise:*") max_message_send ∷ [],
    )
    ∷ (
      codes "operator_chat_v1",
      entry (codes "message.send") (codes "whitenoise:*") max_message_send
          ∷ entry (codes "message.send") (codes "slack:*") max_message_send
          ∷ entry (codes "llm.infer") (codes "local:*") max_llm_infer
          ∷ entry (codes "llm.infer") (codes "remote:*") max_llm_infer
          ∷ [],
    )
    ∷ (codes "payments_v1", entry (codes "payment.send") (codes "nwc:*") max_payment_send ∷ [])
    ∷ (
      codes "payments_cashu_v1",
      entry (codes "payment.send") (codes "cashu:*") max_payment_send ∷ [],
    )
    ∷ (
      codes "memory_v1",
      entry (codes "memory.read") (codes "memory:*") max_memory_read
          ∷ entry (codes "memory.write") (codes "memory:*") max_memory_write
          ∷ [],
    )
    ∷ (codes "llm_local_v1", entry (codes "llm.infer") (codes "local:*") max_llm_infer ∷ [])
    ∷ (codes "llm_remote_v1", entry (codes "llm.infer") (codes "remote:*") max_llm_infer ∷ [])
    ∷ (
      codes "local_exec_v1",
      entry (codes "local.exec") (codes "local.exec:file.head") max_local_exec
          ∷ entry (codes "local.exec") (codes "local.exec:file.word_count") max_local_exec
          ∷ [],
    )
    ∷ []

unfoldable pub resolve_recipe_capability_bundle : Text → Option (List BundleCapability)
unfolding match_text
resolve_recipe_capability_bundle recipe_id = match_text recipe_id bundles
