-- ===== src/Traversal/Results/Tests.antt =====
-- The result of a mapping experiment: a baseline that a prober attests, and a creation that was not
-- started.
use liskov_runtime_cargo.Prelude.{
  ℕ, refl, Option, none, some, [], ◌∷◌, ◌++◌, Bytes, codes, bytes_eq, replicate,
}
use liskov_runtime_cargo.Prelude.Result.{Result, ok}
use liskov_runtime_cargo.Traversal.Texts.{TraversalRefusal, text, lower_hex, digest, strip_prefix}
use liskov_runtime_cargo.Traversal.Outcomes.{
  TraversalEvidenceAuthority, TraversalStage, TraversalMethod, TraversalTransport, TraversalFamily,
  TraversalOutcome,
}
use liskov_runtime_cargo.Traversal.Descriptor.{mapping_mode, out_of_order}
use liskov_runtime_cargo.Traversal.Validate.{
  validate_budgets, allowed, validate_consent, validate_mapping, validate_pair, bounded,
  validate_identity, validate_deadline, validate_operations, validate_relay, validate, validate_at,
}
use liskov_runtime_cargo.Traversal.Transcript.{proof_domain}
use liskov_runtime_cargo.Traversal.Transcript.Checks.{
  validate_transcript, validate_binding, validate_domain, validate_outcome, validate_lease,
  validate_pair_fields, validate_report, validate_peer, validate_cleanup,
}
use liskov_runtime_cargo.Traversal.Transcript.Scope.{
  binding_digest, phase_operation, validate_scope,
}
use liskov_runtime_cargo.Traversal.Receipts.{
  TraversalReceiptV1, TraversalProofV1, prober_receipt, authority_domain, receipt_domain,
  traversal_receipt_message, validate_proof,
}
use liskov_runtime_cargo.Traversal.Results.{
  TraversalPhaseV1, NetworkTraversalV1, phase_matches, not_attempted, foreign_stage,
  validate_header, find_proof, validate_proofs, validate_reference, validate_phase, validate_phases,
  validate_result, grant_phases, scope_proofs, validate_result_scope,
}
use liskov_runtime_cargo.Traversal.Results.Backed.{IsBackedResult, validate_result-IsBackedResult}
use liskov_runtime_cargo.Traversal.Results.Scoped.{
  IsOfDescriptor, validate_result_scope-IsOfDescriptor,
}
use liskov_runtime_cargo.Traversal.Tests.{serialized_len}
use liskov_runtime_cargo.Traversal.Run.Tests.{
  mapped_descriptor, descriptor_digest, transcript_len, baseline,
}

abbrev canonical : TraversalReceiptV1 → Result TraversalRefusal Bytes
canonical receipt = ok (codes "receipt")

abbrev reference : Bytes
reference = codes "sha256:" ++ replicate 64 b'4'

abbrev proof_digest : TraversalProofV1 → Result TraversalRefusal Bytes
proof_digest proof = ok reference

abbrev result_len : NetworkTraversalV1 → Option ℕ
result_len r = some 2_000

abbrev receipt : TraversalReceiptV1
receipt = record {
  version = 1;
  transcript = baseline;
  device_signature = codes "0x" ++ replicate 128 b'6';
  mac = replicate 64 b'7';
}

abbrev measured_phase : TraversalPhaseV1
measured_phase = record {
  stage = TraversalStage.baseline;
  method = TraversalMethod.unassisted;
  transport = TraversalTransport.udp;
  family = TraversalFamily.v4;
  authority = TraversalEvidenceAuthority.external_path;
  outcome = TraversalOutcome.succeeded;
  elapsed_ms = 900;
  granted_lease_sec = none;
  cleanup = none;
  protocol_error = none;
  error_class = none;
  proof_digest = some reference;
}

abbrev idle_phase : TraversalPhaseV1
idle_phase = record {
  stage = TraversalStage.mapping_create;
  method = TraversalMethod.pcp;
  transport = TraversalTransport.router_control;
  family = TraversalFamily.v4;
  authority = TraversalEvidenceAuthority.device_reported_router;
  outcome = TraversalOutcome.not_started;
  elapsed_ms = 0;
  granted_lease_sec = none;
  cleanup = none;
  protocol_error = none;
  error_class = none;
  proof_digest = none;
}

abbrev result : NetworkTraversalV1
result = record {
  version = 1;
  descriptor_digest = baseline.descriptor_digest;
  run_id = mapped_descriptor.run_id;
  mode = mapping_mode;
  started_at_ms = 110_000;
  duration_ms = 2_000;
  phases = measured_phase ∷ idle_phase ∷ [];
  proofs = prober_receipt receipt ∷ [];
}

validate_result-IsBackedResult_example :
    IsBackedResult transcript_len canonical proof_digest result_len result
unfolding text lower_hex strip_prefix digest out_of_order validate_budgets allowed validate_consent
    validate_mapping validate_pair bounded validate_identity validate_deadline validate_operations
    validate_relay validate validate_at bytes_eq validate_scope validate_transcript validate_binding
    validate_domain validate_outcome validate_lease validate_pair_fields validate_report
    validate_peer validate_cleanup binding_digest proof_domain phase_operation authority_domain
    receipt_domain traversal_receipt_message validate_proof phase_matches not_attempted
    foreign_stage validate_header find_proof validate_proofs validate_reference validate_phase
    validate_phases validate_result
validate_result-IsBackedResult_example =
    validate_result-IsBackedResult transcript_len canonical proof_digest result_len result refl

validate_result_scope-IsOfDescriptor_example :
    IsOfDescriptor transcript_len canonical proof_digest result_len serialized_len descriptor_digest
      result mapped_descriptor 113_000
unfolding text lower_hex strip_prefix digest out_of_order validate_budgets allowed validate_consent
    validate_mapping validate_pair bounded validate_identity validate_deadline validate_operations
    validate_relay validate validate_at bytes_eq validate_scope validate_transcript validate_binding
    validate_domain validate_outcome validate_lease validate_pair_fields validate_report
    validate_peer validate_cleanup binding_digest proof_domain phase_operation authority_domain
    receipt_domain traversal_receipt_message validate_proof phase_matches not_attempted
    foreign_stage validate_header find_proof validate_proofs validate_reference validate_phase
    validate_phases validate_result grant_phases scope_proofs validate_result_scope
validate_result_scope-IsOfDescriptor_example =
    validate_result_scope-IsOfDescriptor transcript_len canonical proof_digest result_len
      serialized_len descriptor_digest result mapped_descriptor 113_000 refl
