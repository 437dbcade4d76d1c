-- ===== src/Traversal/Paired.antt =====
-- `validate_traversal_pair` of src/network_traversal/descriptor.rs, with the derived equality of its
-- types.
pub mod Agreed
pub mod Tests
use liskov_runtime_cargo.Prelude.{
  ℕ, ◌≡◌, ◌≢◌, refl, inl, inr, Bool, true, false, not, ◌&&◌, ◌||◌, Option, none, some, List, [],
  ◌∷◌, Bytes, bytes_eq, bytes_eq→eq, ◌==◌, arith,
}
use liskov_runtime_cargo.Prelude.Result.{Result, ok, err, ◌>>=◌, ◌>>◌, refuse_if, Result-cases}
use liskov_runtime_cargo.Traversal.Texts.{TraversalRefusal, invalid_pair}
use liskov_runtime_cargo.Traversal.Descriptor.{
  TraversalMode, pair_mode, TraversalOperation, TraversalRouterProtocol, TraversalParticipantRole,
  first, second, operation_rank, protocol_rank, role_rank, is_mode, TraversalBudgets,
  TraversalMappingConsent, TraversalParticipant, TraversalPair, TraversalDescriptorV1,
}
use liskov_runtime_cargo.Traversal.Validate.{Checked, validate}

-- Derived equality, of options and of lists by a test of their entries.
abbrev pub same_option {ℓ} : {A : Type ℓ} → (A → A → Bool) → Option A → Option A → Bool
same_option eq none none = true
same_option eq (some x) (some y) = eq x y
same_option eq _ _ = false

abbrev pub same_ranks {ℓ} : {A : Type ℓ} → (A → ℕ) → List A → List A → Bool
same_ranks rank [] [] = true
same_ranks rank (x ∷ xs) (y ∷ ys) = rank x == rank y && same_ranks rank xs ys
same_ranks rank _ _ = false

abbrev pub same_bool : Bool → Bool → Bool
same_bool true b = b
same_bool false b = not b

abbrev pub same_role : TraversalParticipantRole → TraversalParticipantRole → Bool
same_role r s = role_rank r == role_rank s

unfoldable pub same_budgets : TraversalBudgets → TraversalBudgets → Bool
same_budgets b c =
    b.experiment_ms == c.experiment_ms
    && b.cleanup_reserve_ms == c.cleanup_reserve_ms
    && b.outbound_datagrams == c.outbound_datagrams
    && b.datagram_bytes == c.datagram_bytes
    && b.control_requests == c.control_requests
    && b.external_dialbacks == c.external_dialbacks
    && b.relay_bytes_per_direction == c.relay_bytes_per_direction
    && b.concurrent_mapping_leases == c.concurrent_mapping_leases
    && b.cleanup_datagrams == c.cleanup_datagrams
    && b.cleanup_control_requests == c.cleanup_control_requests

unfoldable pub same_consent : TraversalMappingConsent → TraversalMappingConsent → Bool
same_consent c d =
    bytes_eq c.consent_reference d.consent_reference
    && bytes_eq c.processor_allowlist_digest d.processor_allowlist_digest
    && bytes_eq c.exclusive_reservation_digest d.exclusive_reservation_digest
    && same_bool c.prior_uncertainty_resolved d.prior_uncertainty_resolved
    && same_bool c.finite_expiry_verified d.finite_expiry_verified
    && c.expires_at_ms == d.expires_at_ms
    && same_ranks protocol_rank c.protocols d.protocols
    && c.requested_lease_sec == d.requested_lease_sec
    && c.maximum_lease_sec == d.maximum_lease_sec

unfoldable pub same_participant : TraversalParticipant → TraversalParticipant → Bool
same_participant p q =
    same_role p.role q.role
    && bytes_eq p.launch_instance_digest q.launch_instance_digest
    && bytes_eq p.claim_authority_digest q.claim_authority_digest
    && bytes_eq p.runtime_signer q.runtime_signer

unfoldable pub same_pair : TraversalPair → TraversalPair → Bool
same_pair p q =
    bytes_eq p.pair_id q.pair_id
    && p.expires_at_ms == q.expires_at_ms
    && same_participant p.a q.a
    && same_participant p.b q.b

unfoldable pub same_descriptor : TraversalDescriptorV1 → TraversalDescriptorV1 → Bool
same_descriptor d e =
    d.version == e.version
    && bytes_eq d.run_id e.run_id
    && is_mode d.mode e.mode
    && bytes_eq d.claim_authority_digest e.claim_authority_digest
    && bytes_eq d.profile_version e.profile_version
    && bytes_eq d.catalog_version e.catalog_version
    && bytes_eq d.artifact_digest e.artifact_digest
    && bytes_eq d.helper_version e.helper_version
    && bytes_eq d.helper_digest e.helper_digest
    && bytes_eq d.endpoint_set_revision e.endpoint_set_revision
    && d.issued_at_ms == e.issued_at_ms
    && d.expires_at_ms == e.expires_at_ms
    && d.deadline_ms == e.deadline_ms
    && same_ranks operation_rank d.operations e.operations
    && same_budgets d.budgets e.budgets
    && same_option same_consent d.mapping e.mapping
    && same_option same_pair d.pair e.pair
    && same_option same_role d.participant_role e.participant_role

-- The counterpart of `d`: `d` with the role and the claim of `e`.
abbrev pub counterpart : TraversalDescriptorV1 → TraversalDescriptorV1 → TraversalDescriptorV1
counterpart d e = record {
  version = d.version;
  run_id = d.run_id;
  mode = d.mode;
  claim_authority_digest = e.claim_authority_digest;
  profile_version = d.profile_version;
  catalog_version = d.catalog_version;
  artifact_digest = d.artifact_digest;
  helper_version = d.helper_version;
  helper_digest = d.helper_digest;
  endpoint_set_revision = d.endpoint_set_revision;
  issued_at_ms = d.issued_at_ms;
  expires_at_ms = d.expires_at_ms;
  deadline_ms = d.deadline_ms;
  operations = d.operations;
  budgets = d.budgets;
  mapping = d.mapping;
  pair = d.pair;
  participant_role = e.participant_role;
}

module _ (serialized_len : TraversalDescriptorV1 → Option ℕ) where
  unfoldable pub validate_traversal_pair : TraversalDescriptorV1 → TraversalDescriptorV1 → Checked
  validate_traversal_pair d e = do
    validate serialized_len d
    validate serialized_len e
    refuse_if
        (not (is_mode d.mode pair_mode)
          || not (same_option same_role d.participant_role (some first))
          || not (same_option same_role e.participant_role (some second)))
        invalid_pair
    refuse_if (not (same_descriptor (counterpart d e) e)) invalid_pair
