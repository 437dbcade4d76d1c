-- ===== src/Gateway/Sources.antt =====
-- Where a selected gateway's routes come from (`discover_with_sources` of
-- src/network_traversal/gateway.rs).
use liskov_runtime_cargo.Prelude.{
  ◌≤◌, ◌≡◌, ◌↔◌, refl, subst, ◌⊎◌, inl, inr, Bool, true, false, List, arith, length,
}
use liskov_runtime_cargo.Prelude.Result.{Result, ok, err}
use liskov_runtime_cargo.Gateway.Routes.{
  RouteRecord, SelectedGateway, selected, RouteReadError, unavailable, malformed, bounded,
  cancelled, CancelCheck, at_entry, before_netlink, route_table_max_records, discover_loaded,
  discover_routes, discover_with_sources, select_gateway,
}
use liskov_runtime_cargo.Gateway.Selection.{Explains, select_gateway-Explains}

-- The table could not be used: it is the only ground for asking netlink.
abbrev pub IsUnusable : Result RouteReadError (List RouteRecord) → Type 0
IsUnusable proc_routes = (proc_routes ≡ err unavailable) ⊎ (proc_routes ≡ err malformed)

-- A gateway selected from some routes, of which there are at most 128.
abbrev pub FromRoutes : SelectedGateway → List RouteRecord → Type 0
FromRoutes g routes = (length routes ≤ route_table_max_records) × Explains routes (selected g)

discover_routes-selected :
    (source : Result RouteReadError (List RouteRecord)) (c : CancelCheck → Bool)
    (g : SelectedGateway)
    → discover_routes source c ≡ selected g
    → (routes : List RouteRecord) × (source ≡ ok routes) × FromRoutes g routes
unfolding discover_routes discover_loaded
discover_routes-selected (ok routes) c g e =
    let chosen : select_gateway routes ≡ selected g = ground arith in
    (routes, refl, (ground arith, subst (Explains routes) chosen (select_gateway-Explains routes)))
discover_routes-selected (err unavailable) c g e = absurd (ground arith)
discover_routes-selected (err malformed) c g e = absurd (ground arith)
discover_routes-selected (err bounded) c g e = absurd (ground arith)
discover_routes-selected (err cancelled) c g e = absurd (ground arith)

module _ (netlink : Result RouteReadError (List RouteRecord)) (c : CancelCheck → Bool) where
  -- The netlink dump is asked for exactly when the call is not cancelled and the route table cannot
  -- be read or is malformed.
  pub discover_with_sources-asks_iff :
      (proc_routes : Result RouteReadError (List RouteRecord))
      → ((discover_with_sources proc_routes netlink c).1 ≡ true)
        ↔ ((c at_entry ≡ false) × (c before_netlink ≡ false) × IsUnusable proc_routes)
  unfolding discover_with_sources
  discover_with_sources-asks_iff (ok routes) = ground arith
  discover_with_sources-asks_iff (err unavailable) = ground arith
  discover_with_sources-asks_iff (err malformed) = ground arith
  discover_with_sources-asks_iff (err bounded) = ground arith
  discover_with_sources-asks_iff (err cancelled) = ground arith

  -- A selected gateway comes from the route table, or from the netlink dump where the table could
  -- not be used, in a call that was not cancelled at its start; the source gave at most 128 routes,
  -- of which it is the choice.
  pub discover_with_sources-selected :
      (proc_routes : Result RouteReadError (List RouteRecord)) (g : SelectedGateway)
      → (discover_with_sources proc_routes netlink c).0 ≡ selected g
      → (c at_entry ≡ false)
        × (((routes : List RouteRecord) × (proc_routes ≡ ok routes) × FromRoutes g routes)
            ⊎ (IsUnusable proc_routes
                × ((routes : List RouteRecord) × (netlink ≡ ok routes) × FromRoutes g routes)))
  unfolding discover_with_sources
  discover_with_sources-selected (ok routes) g e =
      (ground arith, inl (discover_routes-selected (ok routes) c g (ground arith)))
  discover_with_sources-selected (err unavailable) g e =
      (ground arith, inr (inl refl, discover_routes-selected netlink c g (ground arith)))
  discover_with_sources-selected (err malformed) g e =
      (ground arith, inr (inr refl, discover_routes-selected netlink c g (ground arith)))
  discover_with_sources-selected (err bounded) g e = absurd (ground arith)
  discover_with_sources-selected (err cancelled) g e = absurd (ground arith)
