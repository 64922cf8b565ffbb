-- ===== src/Grants.antt =====
-- api/src/lib.rs: which capabilities a new run is granted.
pub mod Bundles
pub mod Kinds
pub mod Limits
pub mod BundleFacts
pub mod Requests
pub mod Safety
pub mod EndToEnd
use rust_agent.Base.{
  ℕ, min, Bool, true, false, not, ◌&&◌, ◌||◌, Option, none, some, List, [], ◌∷◌, map, Text, codes,
  trim, to_ascii_lowercase, text_eq, starts_with, contains, match_text, one_of, if◌then◌else◌, ltb,
  filter, find, is_empty,
}
use rust_agent.Json.{
  Value, array, object, string, number, Fields, field, end, pos_int, get, as_str, as_array, as_u64,
  items,
}
use rust_agent.Policy.{scope_matches}
use rust_agent.Api.{ApiResult, ok, err, ◌>>=◌, or_bad_request, RolePreset, owner, operator, viewer}
use Bundles.{
  BundleCapability, resolve_recipe_capability_bundle, max_object_read, max_object_write,
  max_memory_read, max_memory_write, max_message_send, max_payment_send, max_llm_infer,
  max_local_exec,
}

pub record RequestedCapability : Type 0 where
  pub capability : Text
  pub scope : Text
  pub requested_max_payload_bytes : Option ℕ

abbrev pub capability_names : List (Text × Text)
capability_names =
    (codes "object.read", codes "object.read")
    ∷ (codes "object_read", codes "object.read")
    ∷ (codes "object.write", codes "object.write")
    ∷ (codes "object_write", codes "object.write")
    ∷ (codes "memory.read", codes "memory.read")
    ∷ (codes "memory_read", codes "memory.read")
    ∷ (codes "memory.write", codes "memory.write")
    ∷ (codes "memory_write", codes "memory.write")
    ∷ (codes "message.send", codes "message.send")
    ∷ (codes "message_send", codes "message.send")
    ∷ (codes "message.receive", codes "message.receive")
    ∷ (codes "message_receive", codes "message.receive")
    ∷ (codes "payment.send", codes "payment.send")
    ∷ (codes "payment_send", codes "payment.send")
    ∷ (codes "llm.infer", codes "llm.infer")
    ∷ (codes "llm_infer", codes "llm.infer")
    ∷ (codes "local.exec", codes "local.exec")
    ∷ (codes "local_exec", codes "local.exec")
    ∷ (codes "db.query", codes "db.query")
    ∷ (codes "db_query", codes "db.query")
    ∷ (codes "http.request", codes "http.request")
    ∷ (codes "http_request", codes "http.request")
    ∷ []

unfoldable pub normalize_capability : Text → Option Text
unfolding match_text trim to_ascii_lowercase
normalize_capability raw = match_text (to_ascii_lowercase (trim raw)) capability_names

-- The prefixes that a scope may have, by capability; none for one that is not listed.
abbrev pub scope_prefixes : List (Text × List Text)
scope_prefixes =
    (codes "object.read", codes "podcasts/" ∷ [])
    ∷ (codes "object.write", codes "shownotes/" ∷ [])
    ∷ (codes "memory.read", codes "memory:" ∷ [])
    ∷ (codes "memory.write", codes "memory:" ∷ [])
    ∷ (codes "message.send", codes "whitenoise:" ∷ codes "slack:" ∷ [])
    ∷ (codes "message.receive", codes "whitenoise:" ∷ codes "slack:" ∷ [])
    ∷ (codes "payment.send", codes "nwc:" ∷ codes "cashu:" ∷ [])
    ∷ (codes "llm.infer", codes "local:" ∷ codes "remote:" ∷ [])
    ∷ (codes "local.exec", codes "local.exec:" ∷ [])
    ∷ (codes "db.query", [])
    ∷ (codes "http.request", [])
    ∷ []

unfoldable pub starts_with_one : Text → List Text → Bool
unfolding starts_with
starts_with_one scope [] = false
starts_with_one scope (p ∷ ps) = starts_with scope p || starts_with_one scope ps

unfoldable pub is_scope_allowed_for_capability : Text → Text → Bool
unfolding contains match_text starts_with_one
is_scope_allowed_for_capability capability scope =
    if contains scope (codes "..") || contains scope (0 ∷ [])
    then false
    else elim (match_text capability scope_prefixes) [
      | none ↦ false
      | some prefixes ↦ starts_with_one scope prefixes
    ]

abbrev pub hard_maxima : List (Text × ℕ)
hard_maxima =
    (codes "object.read", max_object_read)
    ∷ (codes "object.write", max_object_write)
    ∷ (codes "memory.read", max_memory_read)
    ∷ (codes "memory.write", max_memory_write)
    ∷ (codes "message.send", max_message_send)
    ∷ (codes "message.receive", max_message_send)
    ∷ (codes "payment.send", max_payment_send)
    ∷ (codes "llm.infer", max_llm_infer)
    ∷ (codes "local.exec", max_local_exec)
    ∷ []

unfoldable pub resolve_max_payload_bytes : Text → Option Value → ℕ
unfolding match_text
resolve_max_payload_bytes capability limits =
    let hard_max : ℕ = elim (match_text capability hard_maxima) [ none ↦ 0 | some most ↦ most ] in
    elim limits [
      | none ↦ hard_max
      | some v ↦ elim (as_u64 v) [
        | none ↦ hard_max
        | some value ↦ if ltb 0 value then min value hard_max else hard_max
      ]
    ]

-- The limit that a grant carries: the requested one, if it is positive, never above the bundle's
-- or the hard limit.
unfoldable pub capped_max : Text → Option ℕ → Option ℕ → ℕ
unfolding resolve_max_payload_bytes
capped_max capability requested bundle =
    let hard_max = resolve_max_payload_bytes capability none in
    let bundle_cap : ℕ = elim bundle [ none ↦ hard_max | some most ↦ min most hard_max ] in
    elim requested [
      | none ↦ bundle_cap
      | some value ↦ if ltb 0 value then min value bundle_cap else bundle_cap
    ]

unfoldable pub capability_json : Text → Text → Option ℕ → Option ℕ → Value
unfolding capped_max
capability_json capability scope requested bundle = object (
    field (codes "capability") (string capability) (
      field (codes "limits")
        (object (
          field (codes "max_payload_bytes")
            (number (pos_int (capped_max capability requested bundle))) end))
        (field (codes "scope") (string scope) end)))

unfoldable pub role_allows_capability : RolePreset → Text → Text → Bool
role_allows_capability owner capability scope = true
role_allows_capability operator capability scope = not (text_eq capability (codes "local.exec"))
role_allows_capability viewer capability scope =
    text_eq capability (codes "object.read")
    || text_eq capability (codes "llm.infer") && starts_with scope (codes "local:")

-- The text that an entry has under a key.
abbrev text_at : Text → Value → Option Text
text_at k item = elim (get k item) [ none ↦ none | some v ↦ as_str v ]

abbrev requested_limit : Value → Option ℕ
requested_limit item = elim (get (codes "limits") item) [
  | none ↦ none
  | some v ↦ elim (get (codes "max_payload_bytes") v) [ none ↦ none | some n ↦ as_u64 n ]
]

-- The two `continue`s of the loop, and its push.
unfoldable pub admit_item : Text → Text → Option ℕ → Option RequestedCapability
admit_item capability_raw scope limit = elim (normalize_capability capability_raw) [
  | none ↦ none
  | some capability ↦
      if is_scope_allowed_for_capability capability scope
      then some
          (record { capability = capability; scope = scope; requested_max_payload_bytes = limit })
      else none
]

-- One round of the loop: `none` is `continue`.
unfoldable pub parse_requested_item : Value → ApiResult (Option RequestedCapability)
parse_requested_item item = do
  capability_raw ←
      or_bad_request (text_at (codes "capability") item)
        (codes "capability entry missing string `capability`")
  raw_scope ←
      or_bad_request (text_at (codes "scope") item)
        (codes "capability entry missing string `scope`")
  scope ←
      or_bad_request (if is_empty (trim raw_scope) then none else some (trim raw_scope))
        (codes "capability scope must not be empty")
  ok (admit_item capability_raw scope (requested_limit item))

abbrev keep_some : Option RequestedCapability → List RequestedCapability → List RequestedCapability
keep_some none rest = rest
keep_some (some r) rest = r ∷ rest

unfoldable pub parse_requested_items : List Value → ApiResult (List RequestedCapability)
parse_requested_items [] = ok []
parse_requested_items (item ∷ rest) =
    let parsed = parse_requested_items rest in
    parse_requested_item item >>= λ r. parsed >>= λ rs. ok (keep_some r rs)

unfoldable pub parse_requested_capabilities : Value → ApiResult (List RequestedCapability)
parse_requested_capabilities v =
    or_bad_request (as_array v) (codes "requested_capabilities must be an array")
    >>= parse_requested_items

-- Without a bundle: what was requested and the role allows.
unfoldable pub grant_unbundled : RolePreset → List RequestedCapability → List Value
grant_unbundled role requested =
    map (λ r. capability_json r.capability r.scope r.requested_max_payload_bytes none)
      (filter (λ r. role_allows_capability role r.capability r.scope) requested)

-- With a bundle: each request that an entry of the bundle covers, under that entry's limit.
unfoldable pub grant_requested : List BundleCapability → List RequestedCapability → List Value
grant_requested bundle [] = []
grant_requested bundle (r ∷ rs) =
    elim (find (λ e. text_eq e.capability r.capability && scope_matches e.scope r.scope) bundle) [
      | none ↦ grant_requested bundle rs
      | some e ↦
          capability_json r.capability r.scope r.requested_max_payload_bytes e.max_payload_bytes
          ∷ grant_requested bundle rs
    ]

-- The grants once the request is parsed.
unfoldable pub grants_for : Text → RolePreset → List RequestedCapability → List Value
grants_for recipe role requested = elim (resolve_recipe_capability_bundle recipe) [
  | none ↦ grant_unbundled role requested
  | some entries ↦
      let bundle = filter (λ e. role_allows_capability role e.capability e.scope) entries in
      if is_empty requested
      then map (λ e. capability_json e.capability e.scope none e.max_payload_bytes) bundle
      else grant_requested bundle requested
]

unfoldable pub resolve_granted_capabilities : Text → RolePreset → Value → ApiResult Value
resolve_granted_capabilities recipe role requested_capabilities = do
  requested ← parse_requested_capabilities requested_capabilities
  ok (array (items (grants_for recipe role requested)))
