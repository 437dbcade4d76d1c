-- ===== src/Traversal/Transcript/Scope.antt =====
-- `validate_scope`, `phase_operation` and `validate_pair_transcripts` of
-- src/network_traversal/proof.rs. The digest of a descriptor's canonical form is a parameter.
use liskov_runtime_cargo.Prelude.{
  ℕ, Bool, false, not, ◌&&◌, ◌||◌, Option, none, some, Bytes, bytes_eq, ◌==◌, ltb,
}
use liskov_runtime_cargo.Prelude.Result.{Result, ok, err, ◌>>=◌, ◌>>◌, refuse_if}
use liskov_runtime_cargo.Traversal.Texts.{
  TraversalRefusal, invalid_binding, invalid_scope, invalid_consent, invalid_proof,
}
use liskov_runtime_cargo.Traversal.Outcomes.{
  TraversalEvidenceAuthority, TraversalStage, TraversalMethod, TraversalTransport, TraversalOutcome,
  authority_rank, transport_rank, family_rank, is_outcome, is_stage,
}
use liskov_runtime_cargo.Traversal.Descriptor.{
  TraversalDescriptorV1, TraversalOperation, TraversalMappingConsent, TraversalPair, has_operation,
}
use liskov_runtime_cargo.Traversal.Validate.{Checked, validate, validate_at}
use liskov_runtime_cargo.Traversal.Paired.{same_option, same_role, validate_traversal_pair}
use liskov_runtime_cargo.Traversal.Transcript.{TraversalTranscriptV1, some_and}
use liskov_runtime_cargo.Traversal.Transcript.Checks.{validate_transcript}

abbrev pub operation : TraversalOperation → Result TraversalRefusal TraversalOperation
operation op = ok op

-- The arms that read the method.
abbrev pub method_operation : TraversalMethod → Result TraversalRefusal TraversalOperation
method_operation TraversalMethod.pcp = operation TraversalOperation.map_pcp
method_operation TraversalMethod.nat_pmp = operation TraversalOperation.map_nat_pmp
method_operation TraversalMethod.upnp_igd = operation TraversalOperation.map_upnp
method_operation _ = err invalid_proof

abbrev pub baseline_operation :
    TraversalMethod → TraversalTransport → Result TraversalRefusal TraversalOperation
baseline_operation method TraversalTransport.tcp = operation TraversalOperation.baseline_tcp
baseline_operation method TraversalTransport.udp = operation TraversalOperation.baseline_udp
baseline_operation method _ = method_operation method

unfoldable pub phase_operation :
    TraversalStage
    → TraversalMethod
    → TraversalTransport
    → Result TraversalRefusal TraversalOperation
phase_operation TraversalStage.mapping_behaviour method transport =
    operation TraversalOperation.observe_mapping
phase_operation TraversalStage.filtering_behaviour method transport =
    operation TraversalOperation.observe_filtering
phase_operation TraversalStage.discovery method transport =
    operation TraversalOperation.discover_gateway
phase_operation TraversalStage.baseline method transport = baseline_operation method transport
phase_operation TraversalStage.endpoint_registration method transport =
    operation TraversalOperation.register_endpoint
phase_operation TraversalStage.direct method transport =
    operation TraversalOperation.pair_direct_udp
phase_operation TraversalStage.relay_control method transport =
    operation TraversalOperation.pair_relay_control
phase_operation _ method transport = method_operation method

abbrev pub pair_id_of : Option TraversalPair → Option Bytes
pair_id_of none = none
pair_id_of (some p) = some p.pair_id

-- The lease passes the consent's maximum.
abbrev pub past_consent : Option ℕ → Option TraversalMappingConsent → Bool
past_consent (some lease) (some consent) = ltb consent.maximum_lease_sec lease
past_consent _ _ = false

module _ (serialized_len : TraversalDescriptorV1 → Option ℕ)
    (descriptor_digest : TraversalDescriptorV1 → Result TraversalRefusal Bytes)
    (transcript_len : TraversalTranscriptV1 → Option ℕ) where
  -- `binding_digest` of the descriptor.
  unfoldable pub binding_digest : TraversalDescriptorV1 → Result TraversalRefusal Bytes
  binding_digest d = do validate serialized_len d; descriptor_digest d

  unfoldable pub validate_scope : TraversalTranscriptV1 → TraversalDescriptorV1 → ℕ → Checked
  validate_scope t d now_ms = do
    validate_transcript transcript_len t
    validate_at serialized_len d now_ms
    bound ← binding_digest d
    refuse_if
        (not (bytes_eq t.descriptor_digest bound)
          || not (bytes_eq t.run_id d.run_id)
          || not (t.expires_at_ms == d.expires_at_ms)
          || not (same_option same_role t.participant_role d.participant_role)
          || not (same_option bytes_eq t.pair_id (pair_id_of d.pair)))
        invalid_binding
    op ← phase_operation t.stage t.method t.transport
    refuse_if
        (past_consent t.granted_lease_sec d.mapping
          && not (is_outcome t.outcome TraversalOutcome.unsupported_finite_lease))
        invalid_consent
    refuse_if (not (has_operation d.operations op) || ltb d.budgets.experiment_ms t.elapsed_ms)
        invalid_scope

  unfoldable pub validate_pair_transcripts :
      TraversalDescriptorV1
      → TraversalDescriptorV1
      → TraversalTranscriptV1
      → TraversalTranscriptV1
      → ℕ
      → Checked
  validate_pair_transcripts d e t u now_ms = do
    validate_traversal_pair serialized_len d e
    validate_scope t d now_ms
    validate_scope u e now_ms
    refuse_if
        (not (
            authority_rank t.authority
            == authority_rank TraversalEvidenceAuthority.helper_observed_peer)
          || not (
              authority_rank u.authority
              == authority_rank TraversalEvidenceAuthority.helper_observed_peer)
          || not (is_stage t.stage u.stage)
          || not (transport_rank t.transport == transport_rank u.transport)
          || not (family_rank t.family == family_rank u.family)
          || not (is_outcome t.outcome TraversalOutcome.succeeded)
          || not (is_outcome u.outcome TraversalOutcome.succeeded)
          || not (some_and t.peer_challenge (λ s. bytes_eq s u.challenge))
          || not (some_and u.peer_challenge (λ s. bytes_eq s t.challenge)))
        invalid_proof
