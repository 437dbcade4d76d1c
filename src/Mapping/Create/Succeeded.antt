-- ===== src/Mapping/Create/Succeeded.antt =====
-- When a creation by PCP or NAT-PMP succeeds (src/network_traversal/mapping.rs).
use liskov_runtime_cargo.Prelude.{
  ◌≤◌, ◌≡◌, inl, inr, sym, subst, true, false, Option, some, Bytes, arith, Option-cases,
}
use liskov_runtime_cargo.Gateway.Routes.{SelectedGateway}
use liskov_runtime_cargo.Gateway.Control.{Url}
use liskov_runtime_cargo.Traversal.Outcomes.{TraversalOutcome}
use liskov_runtime_cargo.Mapping.Packets.{decode_natpmp, natpmp_class, usable_ipv4}
use liskov_runtime_cargo.Mapping.Effects.{
  ExclusiveReservation, authorizes, Turn, local_outcome, lease_ceiling,
}
use liskov_runtime_cargo.Mapping.Create.{
  PcpMap, NatPmpMap, exchange_create, map_nat_pmp, natpmp_parts, natpmp_request, natpmp_matches,
  is_zero_nonce,
}
use liskov_runtime_cargo.Mapping.Create.Leases.{IsCreated, exchange_create-IsCreated}

module _ (parse_url : Bytes → Option Url) (gateway : SelectedGateway) where
  -- What lets `map_pcp` come to its exchange.
  abbrev pub IsPcpRequest : PcpMap → Type 0
  IsPcpRequest input =
      (60 ≤ input.maximum_lease_sec)
      × (input.maximum_lease_sec ≤ 120)
      × (1_024 ≤ input.internal_port)
      × (usable_ipv4 input.local_address ≡ true)
      × (is_zero_nonce input.nonce ≡ false)

  -- What lets `map_nat_pmp` come to its exchange: a reservation of this gateway.
  abbrev pub IsNatPmpRequest : NatPmpMap → ExclusiveReservation → Type 0
  IsNatPmpRequest input reservation =
      (60 ≤ input.maximum_lease_sec)
      × (input.maximum_lease_sec ≤ 120)
      × (1_024 ≤ input.internal_port)
      × (input.exclusive_reservation ≡ some reservation)
      × (authorizes reservation gateway ≡ true)

  natpmp_reaches :
      (input : NatPmpMap) (creating deleting : Turn)
      → (map_nat_pmp parse_url gateway input creating deleting).0.outcome
        ≡ TraversalOutcome.succeeded
      → (reservation : ExclusiveReservation) × IsNatPmpRequest input reservation
  unfolding map_nat_pmp lease_ceiling local_outcome
  natpmp_reaches input creating deleting e = elim (Option-cases input.exclusive_reservation) [
    | inl missing ↦ absurd (ground arith)
    | inr (reservation, held) ↦
        (reservation, (ground arith, ground arith, ground arith, held, ground arith))
  ]

  natpmp_exchanges :
      (input : NatPmpMap) (reservation : ExclusiveReservation) (creating deleting : Turn)
      → IsNatPmpRequest input reservation
      → map_nat_pmp parse_url gateway input creating deleting
        ≡ exchange_create parse_url
            (natpmp_parts input reservation input.maximum_lease_sec)
            gateway
            (natpmp_request input)
            creating
            deleting
            decode_natpmp
            (natpmp_matches input)
            natpmp_class
  unfolding map_nat_pmp lease_ceiling
  natpmp_exchanges input reservation creating deleting (low, high, port, held, mine) = ground arith

  -- A NAT-PMP creation that succeeds had a maximal lease of 60 to 120 seconds, a high port, and a
  -- reservation of this gateway. The reply to its request was decoded, carries its protocol and port,
  -- is a mapping response of version 0, and grants. Then a lease is held, for 1 second to the
  -- maximum, at a port that is not 0, by an epoch that did not fall; or a grant of more than the
  -- maximum and at most 120 seconds was given back, and its deletion is confirmed.
  pub map_nat_pmp-IsCreated :
      (input : NatPmpMap) (creating deleting : Turn)
      → (map_nat_pmp parse_url gateway input creating deleting).0.outcome
        ≡ TraversalOutcome.succeeded
      → (reservation : ExclusiveReservation) × IsNatPmpRequest input reservation
        × IsCreated parse_url gateway
            (natpmp_parts input reservation input.maximum_lease_sec)
            (natpmp_request input)
            creating
            decode_natpmp
            (natpmp_matches input)
            natpmp_class
            (map_nat_pmp parse_url gateway input creating deleting).0
  map_nat_pmp-IsCreated input creating deleting e =
      let (reservation, sound) = natpmp_reaches input creating deleting e in
      let same = natpmp_exchanges input reservation creating deleting sound in
      let parts = natpmp_parts input reservation input.maximum_lease_sec in
      (
        reservation,
        sound,
        subst
            (λ r.
              IsCreated parse_url gateway parts (natpmp_request input) creating decode_natpmp
                (natpmp_matches input) natpmp_class r.0)
            (sym same)
            (exchange_create-IsCreated parse_url gateway parts (natpmp_request input) creating
              deleting decode_natpmp (natpmp_matches input) natpmp_class
              (subst (λ r. r.0.outcome ≡ TraversalOutcome.succeeded) same e)),
      )
