-- ===== src/Gateway/Selection.antt =====
-- Which gateway is selected (`select_gateway` of src/network_traversal/gateway.rs).
use liskov_runtime_cargo.Prelude.{
  ◌≤◌, ◌≡◌, ◌≢◌, refl, ◌∙◌, subst, ◌⊎◌, inl, inr, Bool, true, false, ◌&&◌, Option, none, some, List,
  [], ◌∷◌, Memᴰ, All, arith, Bool-cases, and-eq-true,
}
use liskov_runtime_cargo.Gateway.Routes.{
  RouteRecord, from_record, GatewayDiscovery, selected, unsupported, invalid_gateway,
  discovery_cancelled, discovery_bounded, Scan, no_scan, scan_routes, select_gateway,
  is_default_route, acceptable_gateway,
}
use liskov_runtime_cargo.Gateway.Scanning.{
  IsCandidate, NoBetter, Covers, Found, scan_routes-Covers, scan_routes-Found,
}

All-of_mem {ℓ κ} : {A : Type ℓ} (P : A → Type κ) (l : List A) → ((x : A) → Memᴰ x l → P x) → All P l
All-of_mem P [] f = tt
All-of_mem P (x ∷ l) f = (f x (Memᴰ.head refl), All-of_mem P l (λ y m. f y (Memᴰ.tail m)))

-- Every route that is a default route through an acceptable gateway has the property.
abbrev pub EveryCandidate : (RouteRecord → Type 0) → List RouteRecord → Type 0
EveryCandidate P routes =
    All (λ r. ((is_default_route r && acceptable_gateway r.gateway) ≡ false) ⊎ P r) routes

every_candidate :
    (P : RouteRecord → Type 0) (routes : List RouteRecord)
    → ((r : RouteRecord) → Memᴰ r routes → IsCandidate r → P r)
    → EveryCandidate P routes
every_candidate P routes f = All-of_mem _ routes λ r m.
    elim (Bool-cases (is_default_route r && acceptable_gateway r.gateway)) [
      | inl yes_candidate ↦ inr (f r m (and-eq-true _ _ yes_candidate))
      | inr other ↦ inl other
    ]

module _ (routes : List RouteRecord) where
  -- What a discovery tells of the routes.
  abbrev pub Explains : GatewayDiscovery → Type 0
  Explains (selected g) =
      (b : RouteRecord) × Memᴰ b routes
      × IsCandidate b
      × (g ≡ from_record b)
      × EveryCandidate (λ r. NoBetter false r b) routes
  Explains unsupported =
      EveryCandidate (λ r. ⊥) routes
      ⊎ ((b w : RouteRecord) × Memᴰ b routes
          × Memᴰ w routes
          × IsCandidate b
          × IsCandidate w
          × (w.metric ≡ b.metric)
          × (w.gateway ≢ b.gateway)
          × EveryCandidate (λ r. b.metric ≤ r.metric) routes)
  Explains invalid_gateway = EveryCandidate (λ r. ⊥) routes
  Explains discovery_cancelled = ⊥
  Explains discovery_bounded = ⊥

  abbrev final : Scan
  final = scan_routes no_scan routes

  found : Found routes final.best final.ambiguous
  found = scan_routes-Found routes routes no_scan (All-of_mem _ routes (λ r m. m)) refl

  covered :
      (o : Option RouteRecord) (ambiguous : Bool)
      → final.best ≡ o
      → final.ambiguous ≡ ambiguous
      → (r : RouteRecord) → Memᴰ r routes
      → IsCandidate r
      → Covers o ambiguous r
  covered o ambiguous best clash r m k =
      subst (λ p. Covers p ambiguous r) best
        (subst (λ a. Covers final.best a r) clash (scan_routes-Covers routes no_scan r m k))

  explained :
      (o : Option RouteRecord) (ambiguous : Bool)
      → final.best ≡ o
      → final.ambiguous ≡ ambiguous
      → Found routes o ambiguous
      → Explains (select_gateway routes)
  unfolding select_gateway
  explained none ambiguous best clash f = elim (Bool-cases final.saw_invalid) [
    | inl invalid ↦
        rw (best, clash ∙ f, invalid, select_gateway)
          (every_candidate (λ r. ⊥) routes (covered none ambiguous best clash))
    | inr valid ↦
        rw (best, clash ∙ f, valid, select_gateway)
          (inl (every_candidate (λ r. ⊥) routes (covered none ambiguous best clash)))
  ]
  explained (some b) false best clash (m, k, rival) =
      rw (clash, best, select_gateway)
        (
          b,
          m,
          k,
          refl,
          every_candidate (λ r. NoBetter false r b) routes (covered (some b) false best clash),
        )
  explained (some b) true best clash (m, k, inl calm) = absurd (ground arith)
  explained (some b) true best clash (m, k, inr (w, mw, kw, tie, other)) =
      rw (clash, select_gateway)
        (inr (
          b,
          w,
          m,
          mw,
          k,
          kw,
          tie,
          other,
          every_candidate _ routes (λ r n c. (covered (some b) true best clash r n c).0),
        ))

  -- What selects a gateway, and what does not. A selected gateway is that of a default route
  -- through an acceptable gateway: no such route has a lower metric, and each of the same metric
  -- goes through the same gateway. Otherwise there is no such route, or two of the least metric go
  -- through different gateways, and the result is then unsupported.
  pub select_gateway-Explains : Explains (select_gateway routes)
  select_gateway-Explains = explained final.best final.ambiguous refl refl found
