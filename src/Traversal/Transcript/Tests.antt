-- ===== src/Traversal/Transcript/Tests.antt =====
-- The two halves of a pair's direct experiment.
use liskov_runtime_cargo.Prelude.{ℕ, refl, Option, none, some, Bytes, bytes_eq, replicate}
use liskov_runtime_cargo.Prelude.Result.{Result, ok}
use liskov_runtime_cargo.Traversal.Texts.{TraversalRefusal, text, lower_hex, digest, strip_prefix}
use liskov_runtime_cargo.Traversal.Outcomes.{
  TraversalEvidenceAuthority, TraversalStage, TraversalMethod, TraversalTransport, TraversalFamily,
  TraversalOutcome,
}
use liskov_runtime_cargo.Traversal.Descriptor.{
  TraversalDescriptorV1, TraversalParticipantRole, first, second, out_of_order,
}
use liskov_runtime_cargo.Traversal.Validate.{
  validate_budgets, allowed, validate_mapping, validate_participants, validate_pair, bounded,
  validate_identity, validate_deadline, validate_operations, validate_relay, validate, validate_at,
}
use liskov_runtime_cargo.Traversal.Paired.{
  same_budgets, same_participant, same_pair, same_descriptor, validate_traversal_pair,
}
use liskov_runtime_cargo.Traversal.Paired.Tests.{hash_of, pair, one, two, serialized_len}
use liskov_runtime_cargo.Traversal.Transcript.{
  TraversalTranscriptV1, direct_peer_domain, proof_domain,
}
use liskov_runtime_cargo.Traversal.Transcript.Checks.{
  validate_transcript, validate_binding, validate_domain, validate_outcome, validate_lease,
  validate_pair_fields, validate_report, validate_peer, validate_cleanup,
}
use liskov_runtime_cargo.Traversal.Transcript.Scope.{
  binding_digest, phase_operation, validate_scope, validate_pair_transcripts,
}
use liskov_runtime_cargo.Traversal.Transcript.Corroborated.{
  IsCorroborated, validate_pair_transcripts-IsCorroborated,
}

abbrev descriptor_digest : TraversalDescriptorV1 → Result TraversalRefusal Bytes
descriptor_digest d = ok (hash_of b'5')

abbrev transcript_len : TraversalTranscriptV1 → Option ℕ
transcript_len t = some 900

abbrev half : TraversalParticipantRole → ℕ → ℕ → TraversalTranscriptV1
half role own peer = record {
  version = 1;
  domain = direct_peer_domain;
  descriptor_digest = hash_of b'5';
  run_id = replicate 32 b'a';
  pair_id = some pair.pair_id;
  participant_role = some role;
  authority = TraversalEvidenceAuthority.helper_observed_peer;
  stage = TraversalStage.direct;
  method = TraversalMethod.pair;
  transport = TraversalTransport.udp;
  family = TraversalFamily.v4;
  challenge = replicate 64 own;
  peer_challenge = some (replicate 64 peer);
  expires_at_ms = 200_000;
  outcome = TraversalOutcome.succeeded;
  elapsed_ms = 700;
  granted_lease_sec = none;
  cleanup = none;
  protocol_error = none;
  error_class = none;
}

validate_pair_transcripts-IsCorroborated_example :
    IsCorroborated serialized_len descriptor_digest transcript_len one two
      (half first b'7' b'8')
      (half second b'8' b'7')
      110_000
unfolding text lower_hex digest strip_prefix out_of_order validate_budgets allowed validate_mapping
    validate_participants validate_pair bounded validate_identity validate_deadline
    validate_operations validate_relay validate validate_at same_budgets same_participant same_pair
    same_descriptor validate_traversal_pair bytes_eq validate_transcript validate_binding
    validate_domain validate_outcome validate_lease validate_pair_fields validate_report
    validate_peer validate_cleanup proof_domain binding_digest phase_operation validate_scope
    validate_pair_transcripts
validate_pair_transcripts-IsCorroborated_example =
    validate_pair_transcripts-IsCorroborated serialized_len descriptor_digest transcript_len one two
      (half first b'7' b'8') (half second b'8' b'7') 110_000 refl
