-- ===== src/Secrets/Params.antt =====
-- core/src/secrets.rs: the parameters of a key, and the keys of the Google secret manager.
use rust_agent.Base.{
  ℕ, zero, suc, Bool, true, not, ◌&&◌, ◌||◌, ◌==◌, leb, Option, none, some, List, [], ◌∷◌, Text,
  codes, trim, contains, to_ascii_lowercase, text_eq, one_of, if◌then◌else◌, is_empty, length,
}
use rust_agent.Secrets.{split_once}

-- `str::split` with one character: the first part and the others.
abbrev split_parts : ℕ → Text → Text × List Text
split_parts e [] = ([], [])
split_parts e (c ∷ t) =
    let rest = split_parts e t in if c == e then ([], rest.0 ∷ rest.1) else (c ∷ rest.0, rest.1)

abbrev pub split_on : ℕ → Text → List Text
split_on e t = let parts = split_parts e t in parts.0 ∷ parts.1

abbrev pub Params : Type 0
Params = List (Text × Text)

abbrev pub get_param : Text → Params → Option Text
get_param k [] = none
get_param k ((j, v) ∷ ps) = let rest = get_param k ps in if text_eq j k then some v else rest

-- `HashMap::insert`
abbrev pub insert_param : Text → Text → Params → Params
insert_param k v [] = (k, v) ∷ []
insert_param k v ((j, w) ∷ ps) =
    let rest = insert_param k v ps in if text_eq j k then (j, v) ∷ ps else (j, w) ∷ rest

abbrev pub add_params : List Text → Params → Option Params
add_params [] ps = some ps
add_params (pair ∷ pairs) ps =
    if is_empty (trim pair) then add_params pairs ps else elim (split_once 61 pair) [
      | none ↦ none
      | some p ↦
          let key = to_ascii_lowercase (trim p.0) in
          if is_empty key || is_empty (trim p.1)
          then none
          else add_params pairs (insert_param key (trim p.1) ps)
    ]

abbrev pub split_query : Text → Text × Option Text
split_query trimmed = elim (split_once 63 trimmed) [
  | none ↦ (trimmed, none)
  | some p ↦ (trim p.0, some (trim p.1))
]

unfoldable pub split_key_and_params : Text → Option (Text × Params)
unfolding trim to_ascii_lowercase
split_key_and_params raw =
    let (base, query) = split_query (trim raw) in
    if is_empty base then none else elim query [
      | none ↦ some (base, [])
      | some q ↦
          if is_empty q
          then none
          else elim (add_params (split_on 38 q) []) [ none ↦ none | some ps ↦ some (base, ps) ]
    ]

unfoldable pub ensure_only_known_params : Params → List Text → Bool
unfolding one_of
ensure_only_known_params [] allowed = true
ensure_only_known_params ((k, v) ∷ ps) allowed =
    one_of k allowed && ensure_only_known_params ps allowed

-- A parameter of a reference that is not blank.
abbrev pub given_param : Text → Params → Option Text
given_param k ps = elim (get_param k ps) [
  | none ↦ none
  | some v ↦ if is_empty (trim v) then none else some v
]

-- `str::trim_matches` and `str::trim_end_matches` with one character
abbrev pub trim_end_char : ℕ → Text → Text
trim_end_char e [] = []
trim_end_char e (c ∷ t) = elim (trim_end_char e t) [
  | [] ↦ if c == e then [] else c ∷ []
  | d ∷ s ↦ c ∷ d ∷ s
]

abbrev pub trim_start_char : ℕ → Text → Text
trim_start_char e [] = []
trim_start_char e (c ∷ t) = if c == e then trim_start_char e t else c ∷ t

abbrev nth_part : ℕ → List Text → Text
nth_part n [] = []
nth_part zero (p ∷ ps) = p
nth_part (suc n) (p ∷ ps) = nth_part n ps

-- A version that the query names agrees with the one of the key.
abbrev agrees : Option Text → Text → Bool
agrees none version = true
agrees (some v) version = text_eq v version

abbrev checked_gcp : Option Text → Text → Text → Text → Option (Text × Text × Text)
checked_gcp query project secret version =
    if agrees query version then some (project, secret, version) else none

abbrev all_named : Text → Text → Text → Bool
all_named project secret version =
    not (is_empty project) && (not (is_empty secret) && not (is_empty version))

abbrev gcp_colons : Option Text → List Text → Option (Text × Text × Text)
gcp_colons query parts =
    if length parts == 3
    then (let version = trim (nth_part 2 parts) in
        let project = trim (nth_part 0 parts) in
        let secret = trim (nth_part 1 parts) in
        if agrees query version && all_named project secret version
        then some (project, secret, version)
        else none)
    else if length parts == 2
    then elim query [
      | none ↦ none
      | some version ↦
          let project = trim (nth_part 0 parts) in
          let secret = trim (nth_part 1 parts) in
          if all_named project secret (trim version)
          then some (project, secret, trim version)
          else none
    ]
    else none

abbrev gcp_key : Option Text → Text → Option (Text × Text × Text)
gcp_key query normalized =
    let parts = split_on 47 normalized in
    if contains normalized (codes "/secrets/")
      && (contains normalized (codes "/versions/")
          && (leb 6 (length parts)
              && all_named (nth_part 1 parts) (nth_part 3 parts) (nth_part 5 parts)))
    then checked_gcp query (nth_part 1 parts) (nth_part 3 parts) (nth_part 5 parts)
    else gcp_colons query (split_on 58 normalized)

unfoldable pub parse_gcp_secret_key : Text → Option (Text × Text × Text)
unfolding split_key_and_params ensure_only_known_params trim contains
parse_gcp_secret_key key = elim (split_key_and_params key) [
  | none ↦ none
  | some p ↦
      if ensure_only_known_params p.1 (codes "version" ∷ [])
      then gcp_key (given_param (codes "version") p.1)
          (trim_end_char 47 (trim_start_char 47 (trim p.0)))
      else none
]
