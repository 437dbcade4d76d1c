-- ===== src/Gateway/Scanning.antt =====
-- What the scan of the routes keeps (`select_gateway` of src/network_traversal/gateway.rs).
use liskov_runtime_cargo.Prelude.{
  subst, ℕ, ◌≤◌, ◌≡◌, ◌≢◌, refl, ◌⊎◌, inl, inr, Bool, true, false, not, ◌&&◌, Option, none, some,
  List, [], ◌∷◌, Memᴰ, All, arith, ltb, ◌==◌, Bool-cases,
}
use liskov_runtime_cargo.Gateway.Routes.{
  RouteRecord, Scan, is_default_route, acceptable_gateway, interface_before, scan_candidate,
  scan_route, scan_routes,
}

abbrev pub IsCandidate : RouteRecord → Type 0
IsCandidate r = (is_default_route r ≡ true) × (acceptable_gateway r.gateway ≡ true)

-- Whether a candidate does not beat a best route, and goes through the same gateway if it ties and
-- the scan saw no ambiguity.
abbrev pub NoBetter : Bool → RouteRecord → RouteRecord → Type 0
NoBetter ambiguous r b =
    (b.metric ≤ r.metric) × ((ambiguous ≡ true) ⊎ ((r.metric ≢ b.metric) ⊎ (r.gateway ≡ b.gateway)))

-- A route that the scan took account of.
abbrev pub Covers : Option RouteRecord → Bool → RouteRecord → Type 0
Covers none ambiguous r = ⊥
Covers (some b) ambiguous r = NoBetter ambiguous r b

candidate-Covers :
    (o : Option RouteRecord) (invalid ambiguous : Bool) (r : RouteRecord)
    → let s =
        scan_candidate (record { best = o; saw_invalid = invalid; ambiguous = ambiguous }) r in
      Covers s.best s.ambiguous r
unfolding scan_candidate
candidate-Covers none invalid ambiguous r = (omega arith, inr (inr refl))
candidate-Covers (some b) invalid ambiguous r = ground arith

candidate_keeps :
    (o : Option RouteRecord) (invalid ambiguous : Bool) (r x : RouteRecord)
    → Covers o ambiguous r
    → let s =
        scan_candidate (record { best = o; saw_invalid = invalid; ambiguous = ambiguous }) x in
      Covers s.best s.ambiguous r
unfolding scan_candidate
candidate_keeps none invalid ambiguous r x h = absurd h
candidate_keeps (some b) invalid ambiguous r x h = ground arith

pub scan_route_keeps :
    (s : Scan) (r x : RouteRecord)
    → Covers s.best s.ambiguous r
    → Covers (scan_route s x).best (scan_route s x).ambiguous r
unfolding scan_route
scan_route_keeps s r x h = elim (Bool-cases (is_default_route x)) [
  | inr other ↦ rw (other, scan_route) h
  | inl default ↦ elim (Bool-cases (acceptable_gateway x.gateway)) [
    | inr bad ↦ rw (default, bad, scan_route) h
    | inl good ↦
        rw (default, good, scan_route) (candidate_keeps s.best s.saw_invalid s.ambiguous r x h)
  ]
]

scan_routes_keeps :
    (l : List RouteRecord) (s : Scan) (r : RouteRecord)
    → Covers s.best s.ambiguous r
    → Covers (scan_routes s l).best (scan_routes s l).ambiguous r
unfolding scan_routes
scan_routes_keeps [] s r h = h
scan_routes_keeps (x ∷ l) s r h = scan_routes_keeps l (scan_route s x) r (scan_route_keeps s r x h)

scan_route-Covers :
    (s : Scan) (x : RouteRecord)
    → IsCandidate x
    → Covers (scan_route s x).best (scan_route s x).ambiguous x
unfolding scan_route
scan_route-Covers s x (default, good) =
    rw (default, good, scan_route) (candidate-Covers s.best s.saw_invalid s.ambiguous x)

-- Every candidate among the routes is covered at the end of the scan.
pub scan_routes-Covers :
    (l : List RouteRecord) (s : Scan) (r : RouteRecord)
    → Memᴰ r l
    → IsCandidate r
    → Covers (scan_routes s l).best (scan_routes s l).ambiguous r
unfolding scan_routes
scan_routes-Covers [] s r m h = elim m [ ]
scan_routes-Covers (x ∷ l) s r (Memᴰ.head same) h =
    rw same
      (scan_routes_keeps l (scan_route s x) x (scan_route-Covers s x (subst IsCandidate same h)))
scan_routes-Covers (x ∷ l) s r (Memᴰ.tail later) h = scan_routes-Covers l (scan_route s x) r later h

module _ (all : List RouteRecord) where
  -- The scan saw no ambiguity, or one candidate has the metric and goes through another gateway.
  abbrev pub Rival : Bool → ℕ → ℕ → Type 0
  Rival ambiguous metric gateway =
      (ambiguous ≡ false)
      ⊎ ((w : RouteRecord) × Memᴰ w all
          × IsCandidate w
          × (w.metric ≡ metric)
          × (w.gateway ≢ gateway))

  -- What the variables of the loop tell of the routes.
  abbrev pub Found : Option RouteRecord → Bool → Type 0
  Found none ambiguous = ambiguous ≡ false
  Found (some b) ambiguous = Memᴰ b all × IsCandidate b × Rival ambiguous b.metric b.gateway

  candidate-Found :
      (o : Option RouteRecord) (invalid ambiguous : Bool) (r : RouteRecord)
      → Memᴰ r all
      → IsCandidate r
      → Found o ambiguous
      → let s =
          scan_candidate (record { best = o; saw_invalid = invalid; ambiguous = ambiguous }) r in
        Found s.best s.ambiguous
  unfolding scan_candidate
  candidate-Found none invalid ambiguous r m h k = (m, h, inl k)
  candidate-Found (some b) invalid ambiguous r m h (mb, hb, w) =
      elim (Bool-cases (ltb r.metric b.metric)) [
        | inl lower ↦ rw lower (m, h, inl refl)
        | inr higher ↦ elim (Bool-cases (r.metric == b.metric && not (r.gateway == b.gateway))) [
          | inl clash ↦ rw (higher, clash) (mb, hb, inr (r, m, h, ground arith, ground arith))
          | inr calm ↦
              elim (Bool-cases
                (r.metric == b.metric && r.gateway == b.gateway && interface_before r b)) [
                  | inr later ↦ rw (higher, calm, later) (mb, hb, w)
                  | inl nearer ↦
                      let tie : b.metric ≡ r.metric = ground arith in
                      let same : b.gateway ≡ r.gateway = ground arith in
                      rw (higher, calm, nearer) (m, h, rw (← tie, ← same) w)
                ]
        ]
      ]

  abbrev Accounts : Scan → Type 0
  Accounts s = Found s.best s.ambiguous

  scan_route-Found :
      (s : Scan) (r : RouteRecord) → Memᴰ r all → Accounts s → Accounts (scan_route s r)
  unfolding scan_route
  scan_route-Found s r m k = elim (Bool-cases (is_default_route r)) [
    | inr other ↦ rw (other, scan_route) k
    | inl default ↦ elim (Bool-cases (acceptable_gateway r.gateway)) [
      | inr bad ↦ rw (default, bad, scan_route) k
      | inl good ↦
          rw (default, good, scan_route)
            (candidate-Found s.best s.saw_invalid s.ambiguous r m (default, good) k)
    ]
  ]

  -- At the end of the scan the best route is a candidate among the routes, and an ambiguity has
  -- two candidates that show it.
  pub scan_routes-Found :
      (l : List RouteRecord) (s : Scan)
      → All (λ r. Memᴰ r all) l
      → Accounts s
      → Accounts (scan_routes s l)
  unfolding scan_routes
  scan_routes-Found [] s m k = k
  scan_routes-Found (r ∷ l) s (m, ms) k =
      scan_routes-Found l (scan_route s r) ms (scan_route-Found s r m k)
