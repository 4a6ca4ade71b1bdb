-- ===== src/DataPlane/Routing.antt =====
-- data_plane/dispatcher.py: `Route`, `RoutingTable` and its longest-suffix match.
pub mod Longest
use astropath_dns_relay.Prelude.{ℕ, suc, Option, none, some, List, [], ◌∷◌, foldl}
use astropath_dns_relay.Prelude.Dict.{Dict, lookup, insert}
use astropath_dns_relay.Dns.{DnsName, name_eq}
use astropath_dns_relay.Providers.Base.{Provider}

pub record Route (N W : Type 0) : Type 0 where
  pub zone : N
  pub provider : Provider W
  pub record_name : N

-- `_by_zone`
abbrev pub RoutingTable : Type 0 → Type 0 → Type 0
RoutingTable N W = Dict N (Route N W)

module _ {N W : Type 0} ⦃d : DnsName N⦄ where
  abbrev pub add_route : RoutingTable N W → Route N W → RoutingTable N W
  add_route t r = insert r.zone r t

  -- `RoutingTable(routes)`
  unfoldable pub routing_table : List (Route N W) → RoutingTable N W
  unfolding insert
  routing_table routes = foldl add_route [] routes

  -- The loop of `match`; `none` for `NoParent`. The fuel is the number of candidates.
  unfoldable pub match_from : ℕ → RoutingTable N W → N → Option (Route N W)
  match_from ℕ.zero t candidate = none
  match_from (suc fuel) t candidate = elim (lookup candidate t) [
    | some route ↦ some route
    | none ↦ elim (d.parent candidate) [ none ↦ none | some p ↦ match_from fuel t p ]
  ]

  unfoldable pub match : RoutingTable N W → N → Option (Route N W)
  unfolding match_from lookup
  match t zone = match_from (suc (d.depth zone)) t zone
