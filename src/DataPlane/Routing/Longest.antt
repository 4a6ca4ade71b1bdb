-- ===== src/DataPlane/Routing/Longest.antt =====
-- `RoutingTable.match` finds the nearest configured name at or above the zone.
use mathlib.Core.Path.{fun_ext}
use astropath_dns_relay.Prelude.{
  ℕ, zero, suc, ◌<◌, ◌≡◌, refl, Option, none, some, List, [], ◌∷◌, foldl, arith, ◌==◌,
  if◌then◌else◌, Option-cases, sym, ◌∙◌, subst, inl, inr,
}
use astropath_dns_relay.Prelude.Dict.{lookup, lookup-insert}
use astropath_dns_relay.Dns.{DnsName, name_eq, up}
use astropath_dns_relay.DataPlane.Routing.{
  Route, RoutingTable, add_route, routing_table, match_from, match,
}

module _ {N W : Type 0} ⦃d : DnsName N⦄ where
  -- The last of the routes for a zone, which is the one that `_by_zone` keeps.
  unfoldable pub last_for : N → List (Route N W) → Option (Route N W)
  last_for a [] = none
  last_for a (r ∷ routes) = elim (last_for a routes) [
    | some later ↦ some later
    | none ↦ if r.zone == a then some r else none
  ]

  abbrev or_else : Option (Route N W) → Option (Route N W) → Option (Route N W)
  or_else (some r) o = some r
  or_else none o = o

  lookup-foldl :
      (a : N) (t : RoutingTable N W) (routes : List (Route N W))
      → lookup a (foldl add_route t routes) ≡ or_else (last_for a routes) (lookup a t)
  unfolding last_for
  lookup-foldl a t [] = refl
  lookup-foldl a t (r ∷ routes) =
      ground (arith, lookup-foldl a (add_route t r) routes, lookup-insert r.zone a r t)

  pub lookup-routing_table :
      (a : N) (routes : List (Route N W)) → lookup a (routing_table routes) ≡ last_for a routes
  unfolding routing_table lookup
  lookup-routing_table a routes = ground (arith, lookup-foldl a [] routes)

  -- `r` is found for the `k`-th parent of the zone, and nothing is for a nearer one.
  abbrev pub IsNearest : (N → Option (Route N W)) → N → Route N W → Type 0
  IsNearest find z r =
      (k : ℕ) × (a : N) × (up k z ≡ some a)
      × (find a ≡ some r)
      × ((j : ℕ) → j < k → (b : N) → up j z ≡ some b → find b ≡ none)

  abbrev table_find : RoutingTable N W → N → Option (Route N W)
  table_find t a = lookup a t

  abbrev pub route_find : List (Route N W) → N → Option (Route N W)
  route_find routes a = last_for a routes

  nearer :
      (t : RoutingTable N W) (z p : N) (k : ℕ)
      → lookup z t ≡ none
      → d.parent z ≡ some p
      → ((j : ℕ) → j < k → (b : N) → up j p ≡ some b → lookup b t ≡ none)
      → (j : ℕ) → j < suc k
      → (b : N) → up j z ≡ some b
      → lookup b t ≡ none
  unfolding up
  nearer t z p k miss e near zero lt b u = ground arith
  nearer t z p k miss e near (suc j) lt b u = near j (omega arith) b (ground arith)

  IsNearest-parent :
      (t : RoutingTable N W) (z p : N) (r : Route N W)
      → lookup z t ≡ none
      → d.parent z ≡ some p
      → IsNearest (table_find t) p r
      → IsNearest (table_find t) z r
  unfolding up
  IsNearest-parent t z p r miss e (k, a, u, found, near) =
      (suc k, a, ground arith, found, nearer t z p k miss e near)

  match_from-IsNearest :
      (fuel : ℕ) (t : RoutingTable N W) (z : N) (r : Route N W)
      → match_from fuel t z ≡ some r
      → IsNearest (table_find t) z r
  unfolding match_from up
  match_from-IsNearest zero t z r h = cc
  match_from-IsNearest (suc fuel) t z r h = elim (Option-cases (lookup z t)) [
    | inr (q, e) ↦ (0, z, refl, ground arith, λ j lt. elim lt [ ])
    | inl miss ↦ elim (Option-cases (d.parent z)) [
      | inl top ↦ absurd (ground arith)
      | inr (p, e) ↦
          IsNearest-parent t z p r miss e (match_from-IsNearest fuel t p r (ground arith))
    ]
  ]

  match_from-none :
      (fuel : ℕ) (t : RoutingTable N W) (z : N)
      → d.depth z < fuel
      → match_from fuel t z ≡ none
      → (k : ℕ) (b : N) → up k z ≡ some b
      → lookup b t ≡ none
  unfolding match_from up
  match_from-none zero t z lt h k b u = elim lt [ ]
  match_from-none (suc fuel) t z lt h zero b u = ground arith
  match_from-none (suc fuel) t z lt h (suc k) b u = elim (Option-cases (d.parent z)) [
    | inl top ↦ absurd (ground arith)
    | inr (p, e) ↦
        match_from-none fuel t p (omega (arith, d.depth_parent z p e)) (ground arith) k b
          (ground arith)
  ]

  -- What `match` returns for a table built from `routes`: a route exactly if some name at or above
  -- the zone is configured, and then the last route listed for the nearest such name.
  pub match_correct :
      (routes : List (Route N W)) (z : N)
      → ((r : Route N W)
          → match (routing_table routes) z ≡ some r
          → IsNearest (route_find routes) z r)
        × (match (routing_table routes) z ≡ none
            → (k : ℕ) (b : N) → up k z ≡ some b
            → last_for b routes ≡ none)
  unfolding match
  match_correct routes z = (
    λ r h.
        subst (λ f. IsNearest f z r) (fun_ext (λ b. lookup-routing_table b routes))
          (match_from-IsNearest (suc (d.depth z)) (routing_table routes) z r h),
    λ h k b u.
        sym (lookup-routing_table b routes)
        ∙ match_from-none (suc (d.depth z)) (routing_table routes) z (omega arith) h k b u,
  )
