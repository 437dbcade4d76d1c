-- ===== src/Traversal/Transcript/Checks.antt =====
-- `validate` of `TraversalTranscriptV1`, its checks in their order (src/network_traversal/proof.rs). The
-- length of a serialized transcript is a parameter.
use liskov_runtime_cargo.Prelude.{
  is_some, ℕ, Bool, not, ◌&&◌, ◌||◌, Option, [], ◌∷◌, bytes_eq, ◌==◌, ltb, if◌then◌else◌,
}
use liskov_runtime_cargo.Prelude.Result.{◌>>=◌, ◌>>◌, refuse_if, ok_or}
use liskov_runtime_cargo.Traversal.Texts.{
  malformed, unknown_version, wrong_domain, invalid_binding, invalid_pair, invalid_proof, oversize,
  lower_hex, digest, safe_integer, traversal_block_max_bytes, traversal_experiment_max_ms,
}
use liskov_runtime_cargo.Traversal.Outcomes.{
  TraversalEvidenceAuthority, TraversalStage, TraversalMethod, TraversalOutcome, TraversalCleanup,
  authority_rank, stage_rank, outcome_rank, is_outcome, is_stage, one_of,
}
use liskov_runtime_cargo.Traversal.Validate.{Checked}
use liskov_runtime_cargo.Traversal.Transcript.{
  TraversalTranscriptV1, is_method, proof_domain, some_and,
}

abbrev pub at_cleanup : TraversalTranscriptV1 → Bool
at_cleanup t = is_stage t.stage TraversalStage.mapping_cleanup

abbrev pub creates_or_cleans : TraversalTranscriptV1 → Bool
creates_or_cleans t =
    one_of stage_rank t.stage (TraversalStage.mapping_create ∷ TraversalStage.mapping_cleanup ∷ [])

abbrev pub with_a_peer : TraversalTranscriptV1 → Bool
with_a_peer t =
    one_of stage_rank t.stage (TraversalStage.direct ∷ TraversalStage.relay_control ∷ [])

-- Outcomes that only some stages have.
unfoldable pub validate_outcome : TraversalTranscriptV1 → Checked
validate_outcome t = do
  refuse_if
      (one_of outcome_rank t.outcome (
          TraversalOutcome.endpoint_independent ∷ TraversalOutcome.address_dependent
          ∷ TraversalOutcome.address_and_port_dependent ∷ [])
        && not (
            one_of stage_rank t.stage
              (TraversalStage.mapping_behaviour ∷ TraversalStage.filtering_behaviour ∷ [])))
      invalid_proof
  refuse_if
      ((is_outcome t.outcome TraversalOutcome.creation_outcome_unknown && not (creates_or_cleans t))
        || (is_outcome t.outcome TraversalOutcome.expiry_unknown && not (at_cleanup t))
        || (one_of outcome_rank t.outcome (
              TraversalOutcome.direct_not_established_in_test ∷ TraversalOutcome.one_way_peer
              ∷ TraversalOutcome.peer_absent ∷ TraversalOutcome.wrong_peer
              ∷ TraversalOutcome.late_join ∷ TraversalOutcome.candidate_rebinding ∷ [])
            && not (with_a_peer t)))
      invalid_proof

-- Where a lease and a cleanup may stand.
unfoldable pub validate_lease : TraversalTranscriptV1 → Checked
validate_lease t =
    refuse_if
      ((is_stage t.stage TraversalStage.mapping_create
          && is_outcome t.outcome TraversalOutcome.succeeded
          && not (is_some t.granted_lease_sec))
        || (not (at_cleanup t) && is_some t.cleanup)
        || (not (creates_or_cleans t) && is_some t.granted_lease_sec))
      invalid_proof

unfoldable pub validate_pair_fields : TraversalTranscriptV1 → Checked
validate_pair_fields t =
    if is_method t.method TraversalMethod.pair
    then refuse_if
        (not (some_and t.pair_id (λ s. lower_hex s 16)) || not (is_some t.participant_role))
        invalid_pair
    else refuse_if (is_some t.pair_id || is_some t.participant_role) invalid_pair

abbrev pub by_router : TraversalTranscriptV1 → Bool
by_router t =
    authority_rank t.authority == authority_rank TraversalEvidenceAuthority.device_reported_router

-- What only a router reports, the bounds of a lease, and the error class.
unfoldable pub validate_report : TraversalTranscriptV1 → Checked
validate_report t = do
  refuse_if
      (not (by_router t)
        && (is_some t.granted_lease_sec || is_some t.cleanup || is_some t.protocol_error))
      invalid_proof
  refuse_if
      (some_and t.granted_lease_sec (λ s. s == 0 || ltb 120 s)
        && not (is_outcome t.outcome TraversalOutcome.unsupported_finite_lease))
      invalid_proof
  refuse_if
      ((is_outcome t.outcome TraversalOutcome.succeeded && is_some t.error_class)
        || (is_outcome t.outcome TraversalOutcome.failed && not (is_some t.error_class)))
      invalid_proof
  refuse_if
      (is_stage t.stage TraversalStage.mapping_create
        && is_outcome t.outcome TraversalOutcome.creation_outcome_unknown
        && is_some t.granted_lease_sec)
      invalid_proof

unfoldable pub validate_peer : TraversalTranscriptV1 → Checked
validate_peer t =
    refuse_if
      (some_and t.peer_challenge (λ s. not (lower_hex s 32))
        || (is_some t.peer_challenge && not (with_a_peer t))
        || (with_a_peer t
            && is_outcome t.outcome TraversalOutcome.succeeded
            && not (is_some t.peer_challenge)))
      invalid_proof

-- The outcome that a cleanup goes with.
abbrev pub cleanup_outcome : TraversalCleanup → TraversalOutcome
cleanup_outcome TraversalCleanup.confirmed_deleted = TraversalOutcome.succeeded
cleanup_outcome TraversalCleanup.delete_failed = TraversalOutcome.failed
cleanup_outcome TraversalCleanup.lease_expiry_pending = TraversalOutcome.unknown
cleanup_outcome TraversalCleanup.not_created = TraversalOutcome.not_started
cleanup_outcome TraversalCleanup.creation_outcome_unknown =
    TraversalOutcome.creation_outcome_unknown
cleanup_outcome TraversalCleanup.expiry_unknown = TraversalOutcome.expiry_unknown

unfoldable pub validate_cleanup : TraversalTranscriptV1 → Checked
validate_cleanup t = do
  refuse_if (some_and t.cleanup (λ c. not (is_outcome t.outcome (cleanup_outcome c)))) invalid_proof
  refuse_if (at_cleanup t && not (is_some t.cleanup)) invalid_proof

unfoldable pub validate_binding : TraversalTranscriptV1 → Checked
validate_binding t = do
  refuse_if (not (t.version == 1)) unknown_version
  refuse_if
      (not (digest t.descriptor_digest)
        || not (lower_hex t.run_id 16)
        || not (lower_hex t.challenge 32)
        || ltb safe_integer t.expires_at_ms
        || ltb traversal_experiment_max_ms t.elapsed_ms)
      invalid_binding

unfoldable pub validate_domain : TraversalTranscriptV1 → Checked
validate_domain t = do
  domain ← proof_domain t.authority t.stage t.method t.transport
  refuse_if (not (bytes_eq t.domain domain)) wrong_domain

module _ (transcript_len : TraversalTranscriptV1 → Option ℕ) where
  -- `TraversalTranscriptV1::validate`, its checks in their order.
  unfoldable pub validate_transcript : TraversalTranscriptV1 → Checked
  validate_transcript t = do
    validate_binding t
    validate_domain t
    validate_outcome t
    validate_lease t
    validate_pair_fields t
    validate_report t
    validate_peer t
    validate_cleanup t
    len ← ok_or (transcript_len t) malformed
    refuse_if (ltb traversal_block_max_bytes len) oversize
