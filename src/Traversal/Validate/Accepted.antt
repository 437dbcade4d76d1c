-- ===== src/Traversal/Validate/Accepted.antt =====
-- What an accepted descriptor promises (src/network_traversal/descriptor.rs).
use liskov_runtime_cargo.Prelude.{
  ℕ, ◌+◌, ◌≤◌, ◌<◌, ◌≡◌, ◌≢◌, ◌↔◌, refl, inl, inr, true, Option, none, some, [], arith, u64_max,
  all,
}
use liskov_runtime_cargo.Prelude.Result.{
  always-ensures, Ensures, ensures-ok, bind-ensures, ok, Result-cases,
}
use liskov_runtime_cargo.Traversal.Texts.{traversal_block_max_bytes}
use liskov_runtime_cargo.Traversal.Descriptor.{
  TraversalDescriptorV1, TraversalBudgets, TraversalMode, observe, TraversalMappingConsent,
  mapping_mode, pair_mode,
}
use liskov_runtime_cargo.Traversal.Validate.{
  validate_budgets, allowed, validate_mapping, validate_consent, validate_pair, validate,
  validate_at, can_start, validate_identity, validate_deadline, validate_operations, validate_relay,
  bounded,
}

-- The budgets of an accepted descriptor: what is set aside for cleanup lies within what is granted.
abbrev pub IsWithinCeilings : TraversalBudgets → Type 0
IsWithinCeilings b =
    (0 < b.cleanup_reserve_ms)
    × (b.cleanup_reserve_ms < b.experiment_ms)
    × (b.cleanup_reserve_ms ≤ 5_000)
    × (b.experiment_ms ≤ 30_000)
    × (b.outbound_datagrams ≤ 64)
    × (b.control_requests ≤ 12)
    × (b.external_dialbacks ≤ 4)
    × (b.concurrent_mapping_leases ≤ 2)
    × (b.cleanup_datagrams ≤ b.outbound_datagrams)
    × (b.cleanup_control_requests ≤ b.control_requests)

pub validate_budgets-IsWithinCeilings :
    (b : TraversalBudgets) → validate_budgets b ≡ ok tt → IsWithinCeilings b
unfolding validate_budgets
validate_budgets-IsWithinCeilings b h = (
  ground arith,
  ground arith,
  ground arith,
  ground arith,
  ground arith,
  ground arith,
  ground arith,
  ground arith,
  ground arith,
  ground arith,
)

abbrev IsTimed : TraversalDescriptorV1 → Type 0
IsTimed d =
    (d.issued_at_ms < d.deadline_ms)
    × (d.deadline_ms ≤ d.expires_at_ms)
    × (d.expires_at_ms ≤ d.issued_at_ms + 120_000)

validate_deadline-IsTimed : (d : TraversalDescriptorV1) → validate_deadline d ≡ ok tt → IsTimed d
unfolding validate_deadline
validate_deadline-IsTimed d h = (ground arith, ground arith, ground arith)

validate_operations-allowed :
    (d : TraversalDescriptorV1)
    → validate_operations d ≡ ok tt
    → (d.operations ≢ []) × (all (allowed d.mode) d.operations ≡ true)
unfolding validate_operations
validate_operations-allowed d h = (ground arith, ground arith)

-- What is set aside for the cleanup of mappings: outside the mapping mode nothing is mapped, and in
-- it there is a consent, and one datagram and one control request for each lease.
abbrev pub CoversLeases : TraversalDescriptorV1 → TraversalMode → Type 0
CoversLeases d mapping_mode =
    (d.mapping ≢ none)
    × (0 < d.budgets.concurrent_mapping_leases)
    × (d.budgets.concurrent_mapping_leases ≤ d.budgets.cleanup_datagrams)
    × (d.budgets.concurrent_mapping_leases ≤ d.budgets.cleanup_control_requests)
CoversLeases d _ = (d.mapping ≡ none) × (d.budgets.concurrent_mapping_leases ≡ 0)

validate_mapping-CoversLeases :
    (d : TraversalDescriptorV1) (mode : TraversalMode) (mapping : Option TraversalMappingConsent)
    → d.mapping ≡ mapping
    → validate_mapping d mode mapping ≡ ok tt
    → CoversLeases d mode
unfolding validate_mapping validate_consent
validate_mapping-CoversLeases d mapping_mode (some consent) is h =
    (ground arith, ground arith, ground arith, ground arith)
validate_mapping-CoversLeases d mapping_mode none is h = absurd (ground arith)
validate_mapping-CoversLeases d observe (some consent) is h = absurd (ground arith)
validate_mapping-CoversLeases d pair_mode (some consent) is h = absurd (ground arith)
validate_mapping-CoversLeases d observe none is h = (is, ground arith)
validate_mapping-CoversLeases d pair_mode none is h = (is, ground arith)

module _ (serialized_len : TraversalDescriptorV1 → Option ℕ) where
  -- What lets an experiment start: a valid descriptor that is in force, and room for the experiment
  -- before its deadline and for the delivery before the descriptor and the job expire.
  abbrev pub Starts : TraversalDescriptorV1 → ℕ → ℕ → ℕ → Type 0
  Starts d now job reserve =
      (validate serialized_len d ≡ ok tt)
      × (d.issued_at_ms ≤ now)
      × (now < d.expires_at_ms)
      × (now + d.budgets.experiment_ms ≤ d.deadline_ms)
      × (now + d.budgets.experiment_ms + reserve ≤ d.expires_at_ms)
      × (now + d.budgets.experiment_ms + reserve ≤ job)
      × (now + d.budgets.experiment_ms + reserve ≤ u64_max)

  -- An experiment may start exactly when its descriptor is valid and in force, the experiment ends
  -- by the deadline, and the delivery after it ends by the expiry of the descriptor and of the job,
  -- with no overflow of 64 bits.
  pub can_start-eq-ok_iff :
      (d : TraversalDescriptorV1) (now job reserve : ℕ)
      → (can_start serialized_len d now job reserve ≡ ok tt) ↔ Starts d now job reserve
  unfolding can_start validate_at
  can_start-eq-ok_iff d now job reserve = elim (Result-cases (validate serialized_len d)) [
    | inr (problem, refused) ↦ (λ h. absurd (ground arith), λ s. absurd (ground arith))
    | inl (tt, valid) ↦ (
      λ h. (
        valid,
        ground arith,
        ground arith,
        ground arith,
        ground arith,
        ground arith,
        ground arith,
      ),
      λ s. ground arith,
    )
  ]

  -- What a valid descriptor promises.
  abbrev pub IsAccepted : TraversalDescriptorV1 → Type 0
  IsAccepted d =
      IsWithinCeilings d.budgets
      × IsTimed d
      × (d.operations ≢ [])
      × (all (allowed d.mode) d.operations ≡ true)
      × CoversLeases d d.mode

  validate-ensures :
      (d : TraversalDescriptorV1) → Ensures (λ _. IsAccepted d) (validate serialized_len d)
  unfolding validate
  validate-ensures d =
      let P : Unit {0} → Type 0 = λ _. IsAccepted d in
      bind-ensures P (validate_identity d) _ λ _ _.
        bind-ensures P (validate_budgets d.budgets) _ λ _ budgets.
          bind-ensures P (validate_deadline d) _ λ _ timed.
            bind-ensures P (validate_operations d) _ λ _ operations.
              bind-ensures P (validate_mapping d d.mode d.mapping) _ λ _ mapped.
                bind-ensures P (validate_pair d d.mode d.pair d.participant_role) _ λ _ paired.
                  bind-ensures P (validate_relay d) _ λ _ relayed.
                    always-ensures P (bounded serialized_len d traversal_block_max_bytes) λ _. (
                      validate_budgets-IsWithinCeilings d.budgets budgets,
                      validate_deadline-IsTimed d timed,
                      (validate_operations-allowed d operations).0,
                      (validate_operations-allowed d operations).1,
                      validate_mapping-CoversLeases d d.mode d.mapping refl mapped,
                    )

  -- A valid descriptor sets aside for cleanup no more than it grants, and at most 5 of at most 30
  -- seconds; its deadline lies between its issue and its expiry, which are at most 120 seconds
  -- apart; it has operations, all allowed by its mode; a mapping needs a consent, one to two leases,
  -- and a cleanup datagram and control request for each, and no other mode has a lease.
  pub validate-IsAccepted :
      (d : TraversalDescriptorV1) → validate serialized_len d ≡ ok tt → IsAccepted d
  validate-IsAccepted d h =
      ensures-ok (λ _. IsAccepted d) (validate serialized_len d) (validate-ensures d) h
