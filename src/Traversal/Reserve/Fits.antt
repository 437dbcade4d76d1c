-- ===== src/Traversal/Reserve/Fits.antt =====
-- What a reservation promises, and that the two admission checks agree
-- (src/network_traversal/reserve.rs).
use liskov_runtime_cargo.Prelude.{
  ℕ, ◌+◌, ◌≤◌, ◌≡◌, ◌⊎◌, inl, inr, true, false, ◌&&◌, Option, some, bytes_eq, arith, Bool-cases,
}
use liskov_runtime_cargo.Prelude.Result.{ok, Result-cases}
use liskov_runtime_cargo.Traversal.Texts.{
  TraversalRefusal, invalid_mac, invalid_binding, wrong_domain, lower_hex, not_yet_valid, expired,
}
use liskov_runtime_cargo.Traversal.Descriptor.{TraversalDescriptorV1}
use liskov_runtime_cargo.Traversal.Validate.{validate, validate_at, can_start}
use liskov_runtime_cargo.Traversal.Validate.Accepted.{validate-IsAccepted, Starts}
use liskov_runtime_cargo.Traversal.Reserve.{
  TraversalCapabilityV1, Reservation, ReserveOutcome, absent, refused, reserved, skipped_budget,
  ReserveInput, existing_delivery_reserve_ms, reservation_of, reservation_fits, grant_structure_ok,
  reserve_bound, reserve_granted, reserve_traversal, traversal_capability_domain,
}

module _ (serialized_len : TraversalDescriptorV1 → Option ℕ) where
  -- What is known of a grant that a time was reserved for.
  abbrev pub IsReserved : ReserveInput → TraversalCapabilityV1 → Reservation → Type 0
  IsReserved input capability r =
      (input.grant ≡ some capability)
      × (input.cancelled ≡ false)
      × (grant_structure_ok serialized_len capability input.artifact_digest input.helper ≡ true)
      × (reservation_fits capability.descriptor r ≡ true)
      × (r.collector_end_ms ≡ input.now_ms + r.experiment_ms)
      × (r.delivery_end_ms ≡ r.collector_end_ms + existing_delivery_reserve_ms)
      × (r.delivery_end_ms ≤ input.job_expires_at_ms)

  pub reserved_fits :
      (d : TraversalDescriptorV1) (now job : ℕ)
      → Starts serialized_len d now job existing_delivery_reserve_ms
      → let r = reservation_of d now in
        (reservation_fits d r ≡ true)
        × (r.collector_end_ms ≡ now + r.experiment_ms)
        × (r.delivery_end_ms ≡ r.collector_end_ms + existing_delivery_reserve_ms)
        × (r.delivery_end_ms ≤ job)
  unfolding reservation_of reservation_fits
  reserved_fits d now job (valid, issued, live, in_time, before_end, before_job, small) =
      let (_, shorter, _, _, _, _, _, _, _, _) = (validate-IsAccepted serialized_len d valid).0 in
      (ground arith, ground arith, ground arith, ground arith)

  -- A grant that passes every check of its binding, as the reservation makes them one by one.
  Binds : TraversalCapabilityV1 → ReserveInput → Type 0
  Binds capability input =
      grant_structure_ok serialized_len capability input.artifact_digest input.helper ≡ true

  bound_cases :
      (capability : TraversalCapabilityV1) (input : ReserveInput)
      → (Binds capability input
          × (validate serialized_len capability.descriptor ≡ ok tt)
          × (reserve_granted serialized_len capability input
              ≡ reserve_bound serialized_len capability.descriptor input))
        ⊎ ((grant_structure_ok serialized_len capability input.artifact_digest input.helper ≡ false)
            × ((problem : TraversalRefusal) × (reserve_granted serialized_len capability input
                  ≡ refused problem)))
  unfolding Binds grant_structure_ok reserve_granted
  bound_cases capability input =
      elim (Bool-cases (bytes_eq capability.domain traversal_capability_domain)) [
        | inr other ↦ inr (ground arith, (wrong_domain, ground arith))
        | inl domain ↦ elim (Bool-cases (lower_hex capability.mac 32)) [
          | inr bad ↦ inr (ground arith, (invalid_mac, ground arith))
          | inl mac ↦ elim (Result-cases (validate serialized_len capability.descriptor)) [
            | inr (problem, invalid) ↦ inr (ground arith, (problem, ground arith))
            | inl (_, valid) ↦
                elim (Bool-cases (
                  bytes_eq capability.descriptor.helper_version input.helper.version
                  && bytes_eq capability.descriptor.helper_digest input.helper.digest
                  && bytes_eq capability.descriptor.artifact_digest input.artifact_digest)) [
                    | inl bound ↦ inl (ground arith, valid, ground arith)
                    | inr unbound ↦ inr (ground arith, (invalid_binding, ground arith))
                  ]
          ]
        ]
      ]

  reserve_bound-refused :
      (d : TraversalDescriptorV1) (input : ReserveInput) (problem : TraversalRefusal)
      → validate serialized_len d ≡ ok tt
      → reserve_bound serialized_len d input ≡ refused problem
      → (problem ≡ not_yet_valid) ⊎ (problem ≡ expired)
  unfolding reserve_bound can_start validate_at
  reserve_bound-refused d input problem valid h = ground arith

  -- An outcome of a grant that passes the structural admission.
  abbrev pub IsAdmitted : ReserveOutcome → Type 0
  IsAdmitted absent = ⊥
  IsAdmitted (refused problem) = (problem ≡ not_yet_valid) ⊎ (problem ≡ expired)
  IsAdmitted (reserved r) = Unit
  IsAdmitted skipped_budget = Unit

  reserve_bound-IsAdmitted :
      (d : TraversalDescriptorV1) (input : ReserveInput) (o : ReserveOutcome)
      → validate serialized_len d ≡ ok tt
      → reserve_bound serialized_len d input ≡ o
      → IsAdmitted o
  unfolding reserve_bound
  reserve_bound-IsAdmitted d input absent valid h = ground arith
  reserve_bound-IsAdmitted d input (refused problem) valid h =
      reserve_bound-refused d input problem valid h
  reserve_bound-IsAdmitted d input (reserved r) valid h = tt
  reserve_bound-IsAdmitted d input skipped_budget valid h = tt

  -- The structural admission and the reservation agree: a grant that fails the admission is
  -- refused; a grant that passes it is refused only if it is not in force yet, or has expired, and
  -- else its experiment is skipped or a time is reserved for it.
  pub reserve_traversal-agrees :
      (capability : TraversalCapabilityV1) (input : ReserveInput)
      → input.grant ≡ some capability
      → ((grant_structure_ok serialized_len capability input.artifact_digest input.helper ≡ true)
          × IsAdmitted (reserve_traversal serialized_len input))
        ⊎ ((grant_structure_ok serialized_len capability input.artifact_digest input.helper ≡ false)
            × ((problem : TraversalRefusal) × (reserve_traversal serialized_len input
                  ≡ refused problem)))
  unfolding reserve_traversal Binds
  reserve_traversal-agrees capability input given = elim (bound_cases capability input) [
    | inr (fails, (problem, refusal)) ↦ inr (fails, (problem, ground arith))
    | inl (binds, valid, same) ↦ inl (
      binds,
      reserve_bound-IsAdmitted capability.descriptor input (reserve_traversal serialized_len input)
          valid (ground arith),
    )
  ]
