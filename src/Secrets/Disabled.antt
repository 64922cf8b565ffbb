-- ===== src/Secrets/Disabled.antt =====
-- core/src/secrets.rs: the resolver while the backends of the clouds are disabled.
use rust_agent.Base.{false, ◌≡◌, refl, Text}
use rust_agent.Secrets.{
  SecretReference, SecretBackend, env, file, vault, aws_secrets_manager, gcp_secret_manager,
  azure_key_vault,
}
use rust_agent.Secrets.Backends.{Machine, resolve}

by_backend :
    (m n : Machine) (b : SecretBackend) (key : Text)
    → ((k : Text) → m.env_var k ≡ n.env_var k)
    → ((k : Text) → m.read_file k ≡ n.read_file k)
    → resolve m false (record { backend = b; key = key })
      ≡ resolve n false (record { backend = b; key = key })
unfolding resolve
by_backend m n env key h k = h key
by_backend m n file key h k = rw (k key, resolve) refl
by_backend m n vault key h k = refl
by_backend m n aws_secrets_manager key h k = refl
by_backend m n gcp_secret_manager key h k = refl
by_backend m n azure_key_vault key h k = refl

-- While the backends of the clouds are disabled, a resolution depends on the environment and on files
-- alone: no process has a part in it, whatever the reference is.
pub resolve_disabled :
    (m n : Machine) (r : SecretReference)
    → ((k : Text) → m.env_var k ≡ n.env_var k)
    → ((k : Text) → m.read_file k ≡ n.read_file k)
    → resolve m false r ≡ resolve n false r
resolve_disabled m n r h k = by_backend m n r.backend r.key h k
