-- ===== src/Payments/Routes.antt =====
-- worker/src/lib.rs: which URIs a payment may go to. The hash of the standard library
-- (`DefaultHasher`) is a parameter.
use rust_agent.Base.{
  ℕ, zero, suc, ◌%◌, Bool, true, false, ◌&&◌, not, ltb, leb, ◌==◌, Option, none, some, List, [],
  ◌∷◌, ◌++◌, Text, codes, match_text, is_empty, if◌then◌else◌, length, take, drop, trim,
}
use rust_agent.Payments.{
  PaymentConfig, RouteConfig, PaymentNwcRouteStrategy, ordered, deterministic_hash, trimmed,
}

-- `ResolvedNwcRoutes` and `ResolvedCashuRoutes`
pub record ResolvedRoutes : Type 0 where
  pub candidates : List Text
  pub rollout_limited : Bool

-- `raw.split(c)`: the first part, and the others.
abbrev split_head : ℕ → Text → Text × List Text
split_head c [] = ([], [])
split_head c (d ∷ t) =
    let (part, parts) = split_head c t in if d == c then ([], part ∷ parts) else (d ∷ part, parts)

abbrev trimmed_parts : List Text → List Text
trimmed_parts [] = []
trimmed_parts (t ∷ ts) = elim (trimmed t) [
  | none ↦ trimmed_parts ts
  | some s ↦ s ∷ trimmed_parts ts
]

unfoldable pub split_route_value : Text → List Text
unfolding trim
split_route_value raw = let (part, parts) = split_head b'|' raw in trimmed_parts (part ∷ parts)

-- `slice::rotate_left`
abbrev pub rotate_left : ℕ → List Text → List Text
rotate_left k xs = drop k xs ++ take k xs

abbrev routes_at : Text → List (Text × Text) → Option (List Text)
routes_at name uris = elim (match_text name uris) [
  | none ↦ none
  | some value ↦ some (split_route_value value)
]

abbrev or_else : Option (List Text) → Option (List Text) → Option (List Text)
or_else (some xs) y = some xs
or_else none y = y

abbrev or_empty : Option (List Text) → List Text
or_empty none = []
or_empty (some xs) = xs

unfoldable pub nwc_candidates : PaymentConfig → Text → List Text
unfolding match_text split_route_value trim
nwc_candidates config wallet =
    let uris = config.payment_nwc_wallet_uris in
    let found = or_empty (or_else (routes_at wallet uris) (routes_at (codes "*") uris)) in
    if is_empty found
    then elim config.payment_nwc_uri [
      | none ↦ []
      | some uri ↦ elim (trimmed uri) [ none ↦ [] | some u ↦ u ∷ [] ]
    ]
    else found

unfoldable pub cashu_candidates : PaymentConfig → Text → List Text
unfolding match_text split_route_value trim
cashu_candidates config mint =
    let uris = config.payment_cashu_mint_uris in
    let preset : Option (List Text) = elim config.payment_cashu_default_mint [
      | none ↦ none
      | some m ↦ routes_at m uris
    ] in
    or_empty (or_else (routes_at mint uris) (or_else preset (routes_at (codes "*") uris)))

module _ (route_hash : Text → Text → ℕ) where
  unfoldable pub deterministic_route_offset : Text → Text → ℕ → ℕ
  deterministic_route_offset wallet key zero = 0
  deterministic_route_offset wallet key (suc n) = route_hash wallet key % suc n

  unfoldable pub is_payment_route_rollout_enabled : Text → Text → ℕ → Bool
  is_payment_route_rollout_enabled wallet key percent =
      if leb 100 percent
      then true
      else if percent == 0
      then false
      else ltb (deterministic_route_offset wallet key 100) percent

  abbrev pub in_order : PaymentNwcRouteStrategy → Text → Text → List Text → List Text
  in_order ordered wallet key xs = xs
  in_order deterministic_hash wallet key xs =
      rotate_left (deterministic_route_offset wallet key (length xs)) xs

  -- What the two functions `resolve_…` do with the candidates that they found.
  unfoldable pub limit_routes : RouteConfig → Text → Text → List Text → ResolvedRoutes
  limit_routes config wallet key found =
      if leb (length found) 1
      then record { candidates = found; rollout_limited = false }
      else let limited =
          ltb config.route_rollout_percent 100
          && not (is_payment_route_rollout_enabled wallet key config.route_rollout_percent) in
        let sorted = in_order config.route_strategy wallet key found in
        let rolled = if limited then take 1 sorted else sorted in
        record {
          candidates = if config.route_fallback_enabled then rolled else take 1 rolled;
          rollout_limited = limited;
        }

  abbrev pub resolve_nwc_uris_for_wallet : PaymentConfig → Text → Text → ResolvedRoutes
  resolve_nwc_uris_for_wallet config wallet key =
      limit_routes config.payment_nwc wallet key (nwc_candidates config wallet)

  abbrev pub resolve_cashu_mint_uris : PaymentConfig → Text → Text → ResolvedRoutes
  resolve_cashu_mint_uris config mint key =
      limit_routes config.payment_cashu mint key (cashu_candidates config mint)
