-- ===== src/Tests/SecretTests.antt =====
-- References to secrets and the caching resolver on concrete inputs.
use rust_agent.Base.{
  ℕ, Text, codes, ◌≡◌, ◌≤◌, refl, true, false, Option, none, some, [], ◌∷◌, max, trim, trim_start,
  trim_end, is_whitespace, to_ascii_lowercase, match_text, one_of, text_eq, contains, starts_with,
  length,
}
use rust_agent.Json.{null, get, get_field}
use rust_agent.Secrets.{
  SecretReference, env, gcp_secret_manager, parse, cache_key, resolve_secret_value,
}
use rust_agent.Secrets.Params.{split_key_and_params, ensure_only_known_params, parse_gcp_secret_key}
use rust_agent.Secrets.Backends.{
  Machine, resolve, run_cli, resolve_with_vault_cli, resolve_with_aws_sm_cli,
  resolve_with_gcp_sm_cli, resolve_with_azure_kv_cli,
}
use rust_agent.Secrets.Cache.{Cache, CacheSettings, lookup_cached, store_cached, resolve_cached}
use rust_agent.Secrets.Size.{Answer, Reach, empty, call, Reach-length}
use rust_agent.Secrets.Recent.{IsRecent, resolve_cached-IsRecent}
use rust_agent.Secrets.References.{parse-cache_key-parse}
use rust_agent.Secrets.Disabled.{resolve_disabled}

running_secrets : Unit {0}
unfolding parse resolve_secret_value split_key_and_params ensure_only_known_params
    parse_gcp_secret_key resolve run_cli resolve_with_vault_cli resolve_with_aws_sm_cli
    resolve_with_gcp_sm_cli resolve_with_azure_kv_cli lookup_cached store_cached resolve_cached trim
    trim_start trim_end is_whitespace to_ascii_lowercase match_text one_of text_eq contains
    starts_with get get_field
running_secrets = tt

abbrev variable : SecretReference
variable = record { backend = env; key = codes "KEY" }

variable_parsed : parse (codes " ENV : KEY ") ≡ some variable
unfolding running_secrets
variable_parsed = refl

unprefixed : parse (codes "KEY") ≡ none
unfolding running_secrets
unprefixed = refl

gcp_path :
    parse_gcp_secret_key (codes "projects/p/secrets/s/versions/3")
    ≡ some (codes "p", codes "s", codes "3")
unfolding running_secrets
gcp_path = refl

gcp_mismatch : parse_gcp_secret_key (codes "p:s:3?version=4") ≡ none
unfolding running_secrets
gcp_mismatch = refl

parse-cache_key-parse_example : parse (cache_key variable) ≡ some variable
unfolding running_secrets
parse-cache_key-parse_example = parse-cache_key-parse (codes " ENV : KEY ") variable refl

-- A machine whose processes print what they are called with, and one without processes.
abbrev machine : Machine
machine = record {
  env_var = λ k. some k;
  read_file = λ k. none;
  output = λ program args. some program;
  from_json = λ t. some null;
  to_json = λ v. none;
}

abbrev no_processes : Machine
no_processes = record {
  env_var = λ k. some k;
  read_file = λ k. none;
  output = λ program args. none;
  from_json = λ t. none;
  to_json = λ v. none;
}

abbrev cloud : SecretReference
cloud = record { backend = gcp_secret_manager; key = codes "p:s:3" }

cloud_enabled : resolve machine true cloud ≡ some (codes "gcloud")
unfolding running_secrets
cloud_enabled = refl

resolve_disabled_example : resolve machine false cloud ≡ resolve no_processes false cloud
resolve_disabled_example = resolve_disabled machine no_processes cloud (λ k. refl) (λ k. refl)

abbrev settings : CacheSettings
settings = record { ttl = 30; max_entries = 1; first_key = λ c. 0 }

abbrev answers : SecretReference → Option Text
answers r = some r.key

-- Two calls: the second evicts what the first has stored.
after_two : Cache
unfolding running_secrets
after_two =
    (resolve_cached settings 5 answers cloud (resolve_cached settings 0 answers variable []).0).0

abbrev asked : ℕ → SecretReference → Answer
asked now r = record { reference = r; answer = some r.key; at = now }

after_two-Reach : Reach settings (asked 0 variable ∷ asked 5 cloud ∷ []) after_two
unfolding running_secrets after_two
after_two-Reach = call 5 answers cloud (call 0 answers variable empty)

Reach-length_example : length after_two ≤ max 1 1
Reach-length_example = Reach-length settings after_two-Reach

abbrev refusing : SecretReference → Option Text
refusing r = none

resolve_cached-IsRecent_example :
    IsRecent settings 34 refusing cloud (asked 0 variable ∷ asked 5 cloud ∷ []) (codes "p:s:3")
unfolding running_secrets after_two
resolve_cached-IsRecent_example =
    resolve_cached-IsRecent settings 34 refusing cloud (codes "p:s:3") after_two-Reach refl
