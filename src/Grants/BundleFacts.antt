-- ===== src/Grants/BundleFacts.antt =====
-- The bundles of api/src/lib.rs name capabilities by their canonical names, enabled ones only, with
-- a single star in a scope.
use rust_agent.Base.{Text, List, some, true, ◌≡◌, refl, All, All-In, match_text_sound}
use rust_agent.Policy.{
  CapabilityKind, llm_infer, local_exec, memory_read, memory_write, message_send, object_read,
  object_write, payment_send,
}
use rust_agent.Policy.Scope.{one_star}
use rust_agent.Grants.Bundles.{BundleCapability, bundles, resolve_recipe_capability_bundle}
use rust_agent.Grants.Kinds.{name_of}
use rust_agent.Grants.Limits.{IsEnabled}
use rust_agent.Worker.GrantSets.{capability_kind_to_action_type}
use rust_agent.Base.{strip_suffix_char}

abbrev pub IsRegular : BundleCapability → Type 0
IsRegular e =
    (k : CapabilityKind) × (e.capability ≡ name_of k) × IsEnabled k × (one_star e.scope ≡ true)

bundles-IsRegular : All (λ kv. All IsRegular kv.1) bundles
unfolding capability_kind_to_action_type strip_suffix_char
bundles-IsRegular = (
  (
    (object_read, refl, tt, refl),
    (
      (object_write, refl, tt, refl),
      (
        (message_send, refl, tt, refl),
        ((llm_infer, refl, tt, refl), ((local_exec, refl, tt, refl), tt)),
      ),
    ),
  ),
  (
    (
      (message_send, refl, tt, refl),
      ((message_send, refl, tt, refl), ((llm_infer, refl, tt, refl), tt)),
    ),
    (
      ((message_send, refl, tt, refl), tt),
      (
        (
          (message_send, refl, tt, refl),
          (
            (message_send, refl, tt, refl),
            ((llm_infer, refl, tt, refl), ((llm_infer, refl, tt, refl), tt)),
          ),
        ),
        (
          ((payment_send, refl, tt, refl), tt),
          (
            ((payment_send, refl, tt, refl), tt),
            (
              ((memory_read, refl, tt, refl), ((memory_write, refl, tt, refl), tt)),
              (
                ((llm_infer, refl, tt, refl), tt),
                (
                  ((llm_infer, refl, tt, refl), tt),
                  (((local_exec, refl, tt, refl), ((local_exec, refl, tt, refl), tt)), tt),
                ),
              ),
            ),
          ),
        ),
      ),
    ),
  ),
)

pub resolve_recipe_capability_bundle-IsRegular :
    (recipe : Text) (es : List BundleCapability)
    → resolve_recipe_capability_bundle recipe ≡ some es
    → All IsRegular es
unfolding resolve_recipe_capability_bundle
resolve_recipe_capability_bundle-IsRegular recipe es h =
    All-In (λ kv. All IsRegular kv.1) (recipe, es) bundles bundles-IsRegular
      (match_text_sound recipe bundles es h)
