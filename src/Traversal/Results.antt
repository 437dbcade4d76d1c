-- ===== src/Traversal/Results.antt =====
-- The result of a traversal experiment: `TraversalPhaseV1` and `NetworkTraversalV1` of
-- src/network_traversal/result.rs. The length of a serialized result and the digest of a proof's
-- canonical form are parameters.
pub mod Supported
pub mod Backed
pub mod Scoped
mod Tests
use liskov_runtime_cargo.Prelude.{
  ℕ, ◌+◌, Bool, true, false, not, is_some, ◌&&◌, ◌||◌, Option, none, some, List, [], ◌∷◌, ◌++◌,
  Bytes, bytes_eq, any, ◌==◌, ltb, if◌then◌else◌, length, checked_add, u64_max,
}
use liskov_runtime_cargo.Prelude.Result.{Result, ok, err, ◌>>=◌, ◌>>◌, refuse_if, ok_or}
use liskov_runtime_cargo.Traversal.Texts.{
  TraversalRefusal, malformed, unknown_version, invalid_binding, invalid_scope, invalid_deadline,
  invalid_proof, oversize, lower_hex, digest, safe_integer, traversal_block_max_bytes,
  traversal_experiment_max_ms,
}
use liskov_runtime_cargo.Traversal.Outcomes.{
  TraversalEvidenceAuthority, TraversalStage, TraversalMethod, TraversalTransport, TraversalFamily,
  TraversalOutcome, TraversalErrorClass, TraversalCleanup, authority_rank, stage_rank, method_rank,
  transport_rank, family_rank, outcome_rank, cleanup_rank, error_class_rank, is_outcome, is_stage,
  one_of,
}
use liskov_runtime_cargo.Traversal.Descriptor.{
  TraversalMode, observe, mapping_mode, pair_mode, TraversalDescriptorV1, has_operation, is_mode,
}
use liskov_runtime_cargo.Traversal.Validate.{Checked, validate_at}
use liskov_runtime_cargo.Traversal.Paired.{same_option}
use liskov_runtime_cargo.Traversal.Transcript.{TraversalTranscriptV1, proof_domain}
use liskov_runtime_cargo.Traversal.Transcript.Scope.{
  binding_digest, phase_operation, validate_scope,
}
use liskov_runtime_cargo.Traversal.Receipts.{
  TraversalReceiptV1, TraversalProofV1, transcript_of, validate_proof,
}

pub record TraversalPhaseV1 : Type 0 where
  pub stage : TraversalStage
  pub method : TraversalMethod
  pub transport : TraversalTransport
  pub family : TraversalFamily
  pub authority : TraversalEvidenceAuthority
  pub outcome : TraversalOutcome
  pub elapsed_ms : ℕ
  pub granted_lease_sec : Option ℕ
  pub cleanup : Option TraversalCleanup
  pub protocol_error : Option ℕ
  pub error_class : Option TraversalErrorClass
  pub proof_digest : Option Bytes

pub record NetworkTraversalV1 : Type 0 where
  pub version : ℕ
  pub descriptor_digest : Bytes
  pub run_id : Bytes
  pub mode : TraversalMode
  pub started_at_ms : ℕ
  pub duration_ms : ℕ
  pub phases : List TraversalPhaseV1
  pub proofs : List TraversalProofV1

-- `TraversalPhaseV1::matches`.
unfoldable pub phase_matches : TraversalPhaseV1 → TraversalTranscriptV1 → Bool
phase_matches p t =
    is_stage p.stage t.stage
    && method_rank p.method == method_rank t.method
    && transport_rank p.transport == transport_rank t.transport
    && family_rank p.family == family_rank t.family
    && authority_rank p.authority == authority_rank t.authority
    && is_outcome p.outcome t.outcome
    && p.elapsed_ms == t.elapsed_ms
    && same_option (λ a b. a == b) p.granted_lease_sec t.granted_lease_sec
    && same_option (λ a b. cleanup_rank a == cleanup_rank b) p.cleanup t.cleanup
    && same_option (λ a b. a == b) p.protocol_error t.protocol_error
    && same_option (λ a b. error_class_rank a == error_class_rank b) p.error_class t.error_class

-- What a phase without a proof may say: that nothing was attempted.
unfoldable pub not_attempted : TraversalPhaseV1 → Bool
not_attempted p =
    one_of outcome_rank p.outcome (
      TraversalOutcome.unsupported_topology ∷ TraversalOutcome.unsupported_runtime_api
      ∷ TraversalOutcome.unsupported_safe_ownership ∷ TraversalOutcome.skipped_budget
      ∷ TraversalOutcome.not_started ∷ [])
    && not (is_some p.granted_lease_sec || is_some p.cleanup || is_some p.protocol_error)

abbrev of_pair : TraversalStage → Bool
of_pair stage = one_of stage_rank stage (
    TraversalStage.direct ∷ TraversalStage.relay_control ∷ TraversalStage.endpoint_registration
    ∷ [])

-- A stage that the mode does not have.
unfoldable pub foreign_stage : TraversalMode → TraversalStage → Bool
foreign_stage observe stage =
    one_of stage_rank stage (
      TraversalStage.mapping_create ∷ TraversalStage.mapping_verify ∷ TraversalStage.mapping_cleanup
      ∷ [])
    || of_pair stage
foreign_stage mapping_mode stage = of_pair stage
foreign_stage pair_mode stage = not (of_pair stage)

abbrev ends_late : Option ℕ → Bool
ends_late none = true
ends_late (some end) = ltb safe_integer end

abbrev no_phases : List TraversalPhaseV1 → Bool
no_phases [] = true
no_phases (p ∷ ps) = false

abbrev is_digest : Bytes → Result TraversalRefusal Bytes → Bool
is_digest reference (ok bytes) = bytes_eq bytes reference
is_digest reference (err refusal) = false

unfoldable pub validate_header : NetworkTraversalV1 → Checked
validate_header r =
    refuse_if
      (not (digest r.descriptor_digest)
        || not (lower_hex r.run_id 16)
        || ltb safe_integer r.started_at_ms
        || ltb traversal_experiment_max_ms r.duration_ms
        || ends_late (checked_add u64_max r.started_at_ms r.duration_ms)
        || no_phases r.phases
        || ltb 16 (length r.phases)
        || ltb 8 (length r.proofs))
      invalid_binding

module _ (transcript_len : TraversalTranscriptV1 → Option ℕ)
    (canonical : TraversalReceiptV1 → Result TraversalRefusal Bytes)
    (proof_digest : TraversalProofV1 → Result TraversalRefusal Bytes)
    (result_len : NetworkTraversalV1 → Option ℕ) where
  -- `find`.
  unfoldable pub find_proof : Bytes → List TraversalProofV1 → Option TraversalProofV1
  find_proof reference [] = none
  find_proof reference (proof ∷ proofs) =
      let rest = find_proof reference proofs in
      if is_digest reference (proof_digest proof) then some proof else rest

  unfoldable pub validate_proofs : NetworkTraversalV1 → List TraversalProofV1 → Checked
  validate_proofs r [] = ok tt
  validate_proofs r (proof ∷ proofs) = do
    validate_proof transcript_len canonical proof
    refuse_if
        (not (bytes_eq (transcript_of proof).descriptor_digest r.descriptor_digest)
          || not (bytes_eq (transcript_of proof).run_id r.run_id))
        invalid_binding
    validate_proofs r proofs

  -- The references that are used, with this phase's.
  unfoldable pub validate_reference :
      NetworkTraversalV1
      → List Bytes
      → TraversalPhaseV1
      → Option Bytes
      → Result TraversalRefusal (List Bytes)
  validate_reference r used phase (some reference) = do
    refuse_if (not (digest reference) || any (bytes_eq reference) used) invalid_proof
    proof ← ok_or (find_proof reference r.proofs) invalid_proof
    refuse_if (not (phase_matches phase (transcript_of proof))) invalid_proof
    ok (used ++ reference ∷ [])
  validate_reference r used phase none = do
    refuse_if (not (not_attempted phase)) invalid_proof
    ok used

  unfoldable pub validate_phase :
      NetworkTraversalV1 → List Bytes → TraversalPhaseV1 → Result TraversalRefusal (List Bytes)
  validate_phase r used phase = do
    domain ← proof_domain phase.authority phase.stage phase.method phase.transport
    refuse_if (ltb r.duration_ms phase.elapsed_ms) invalid_deadline
    now_used ← validate_reference r used phase phase.proof_digest
    refuse_if (foreign_stage r.mode phase.stage) invalid_scope
    ok now_used

  unfoldable pub validate_phases :
      NetworkTraversalV1 → List Bytes → List TraversalPhaseV1 → Result TraversalRefusal (List Bytes)
  validate_phases r used [] = ok used
  validate_phases r used (phase ∷ phases) = do
    now_used ← validate_phase r used phase
    validate_phases r now_used phases

  -- `NetworkTraversalV1::validate`.
  unfoldable pub validate_result : NetworkTraversalV1 → Checked
  validate_result r = do
    refuse_if (not (r.version == 1)) unknown_version
    len ← ok_or (result_len r) malformed
    refuse_if (ltb traversal_block_max_bytes len) oversize
    validate_header r
    validate_proofs r r.proofs
    used ← validate_phases r [] r.phases
    refuse_if (not (length used == length r.proofs)) invalid_proof

  module _ (serialized_len : TraversalDescriptorV1 → Option ℕ)
      (descriptor_digest : TraversalDescriptorV1 → Result TraversalRefusal Bytes) where
    unfoldable pub grant_phases : TraversalDescriptorV1 → List TraversalPhaseV1 → Checked
    grant_phases d [] = ok tt
    grant_phases d (phase ∷ phases) = do
      op ← phase_operation phase.stage phase.method phase.transport
      refuse_if (not (has_operation d.operations op)) invalid_scope
      grant_phases d phases

    unfoldable pub scope_proofs : TraversalDescriptorV1 → ℕ → List TraversalProofV1 → Checked
    scope_proofs d now_ms [] = ok tt
    scope_proofs d now_ms (proof ∷ proofs) = do
      validate_scope serialized_len descriptor_digest transcript_len (transcript_of proof) d now_ms
      scope_proofs d now_ms proofs

    -- `NetworkTraversalV1::validate_scope`.
    unfoldable pub validate_result_scope : NetworkTraversalV1 → TraversalDescriptorV1 → ℕ → Checked
    validate_result_scope r d now_ms = do
      validate_result r
      validate_at serialized_len d now_ms
      bound ← binding_digest serialized_len descriptor_digest transcript_len d
      refuse_if
          (not (bytes_eq r.descriptor_digest bound)
            || not (bytes_eq r.run_id d.run_id)
            || not (is_mode r.mode d.mode))
          invalid_binding
      refuse_if
          (ltb r.started_at_ms d.issued_at_ms
            || ltb now_ms r.started_at_ms
            || ltb now_ms (r.started_at_ms + r.duration_ms)
            || ltb d.deadline_ms (r.started_at_ms + r.duration_ms)
            || ltb d.budgets.experiment_ms r.duration_ms)
          invalid_deadline
      grant_phases d r.phases
      scope_proofs d now_ms r.proofs
