-- ===== src/Traversal/Run/Tests.antt =====
-- A session that maps a UDP port by PCP: the baseline and the mapping are checked from outside, and
-- the mapping is deleted.
use liskov_runtime_cargo.Prelude.{
  ℕ, ◌+◌, ◌≡◌, refl, true, Option, none, some, [], ◌∷◌, Bytes, bytes_eq, replicate, length,
}
use liskov_runtime_cargo.Prelude.Result.{Result, ok}
use liskov_runtime_cargo.Gateway.Control.{pcp}
use liskov_runtime_cargo.Traversal.Texts.{TraversalRefusal, text, lower_hex, strip_prefix, digest}
use liskov_runtime_cargo.Traversal.Validate.{
  validate_budgets, allowed, validate_consent, validate_mapping, validate_pair, bounded,
  validate_identity, validate_deadline, validate_operations, validate_relay, validate, validate_at,
}
use liskov_runtime_cargo.Traversal.Outcomes.{
  TraversalEvidenceAuthority, TraversalStage, TraversalMethod, TraversalTransport, TraversalFamily,
  TraversalOutcome,
}
use liskov_runtime_cargo.Traversal.Descriptor.{
  TraversalDescriptorV1, out_of_order, baseline_udp, discover_gateway, map_pcp,
}
use liskov_runtime_cargo.Traversal.Transcript.{
  TraversalTranscriptV1, proof_domain, external_path_domain,
}
use liskov_runtime_cargo.Traversal.Transcript.Scope.{
  validate_scope, binding_digest, phase_operation,
}
use liskov_runtime_cargo.Traversal.Transcript.Checks.{
  validate_transcript, validate_binding, validate_domain, validate_outcome, validate_lease,
  validate_pair_fields, validate_report, validate_peer, validate_cleanup,
}
use liskov_runtime_cargo.Traversal.Lifecycle.{
  MappingSession, MappingMethodPlan, Accounting, new_accounting, charge,
}
use liskov_runtime_cargo.Traversal.Control.{
  Moment, Control, MappingPathEvidence, PathRun, path, path_charged, path_matches, ordinary,
}
use liskov_runtime_cargo.Traversal.Control.Proved.{IsProof, path-IsProof}
use liskov_runtime_cargo.Mapping.Packets.Replies.{pcp_reply}
use liskov_runtime_cargo.Mapping.Tests.{router, client, public_address, nonce, grant, no_url}
use liskov_runtime_cargo.Traversal.Run.Reports.{MappingGateway, MethodRun, MappingRunReport}
use liskov_runtime_cargo.Traversal.Run.Passes.{baseline_check}
use liskov_runtime_cargo.Traversal.Run.Whole.{run_mapping_lifecycle}
use liskov_runtime_cargo.Traversal.Run.Spends.{IsFrugal, run_mapping_lifecycle-IsFrugal}
use liskov_runtime_cargo.Traversal.Run.Ordered.{IsOrderly}
use liskov_runtime_cargo.Traversal.Run.Reported.{run_mapping_lifecycle-IsOrderly}
use liskov_runtime_cargo.Traversal.Tests.{hash, descriptor, budgets, serialized_len, reservation}

abbrev pub mapped_descriptor : TraversalDescriptorV1
mapped_descriptor = record descriptor {
  operations = discover_gateway ∷ baseline_udp ∷ map_pcp ∷ [];
  budgets = record budgets { control_requests = 12; external_dialbacks = 4 };
}

abbrev pub descriptor_digest : TraversalDescriptorV1 → Result TraversalRefusal Bytes
descriptor_digest d = ok hash

abbrev pub transcript_len : TraversalTranscriptV1 → Option ℕ
transcript_len t = some 900

-- An encoding of bytes below ten.
abbrev hex_encode : Bytes → Bytes
hex_encode [] = []
hex_encode (b ∷ bs) = b'0' ∷ (48 + b) ∷ hex_encode bs

abbrev challenge : Bytes
challenge = replicate 32 7

abbrev transcript : TraversalStage → TraversalMethod → TraversalTranscriptV1
transcript stage method = record {
  version = 1;
  domain = external_path_domain;
  descriptor_digest = hash;
  run_id = descriptor.run_id;
  pair_id = none;
  participant_role = none;
  authority = TraversalEvidenceAuthority.external_path;
  stage = stage;
  method = method;
  transport = TraversalTransport.udp;
  family = TraversalFamily.v4;
  challenge = hex_encode challenge;
  peer_challenge = none;
  expires_at_ms = 200_000;
  outcome = TraversalOutcome.succeeded;
  elapsed_ms = 900;
  granted_lease_sec = none;
  cleanup = none;
  protocol_error = none;
  error_class = none;
}

abbrev pub baseline : TraversalTranscriptV1
baseline = transcript TraversalStage.baseline TraversalMethod.unassisted

abbrev at : ℕ → Moment
at now_ms = record { stop = none; now_ms = now_ms }

abbrev checked : TraversalTranscriptV1 → PathRun
checked t = record {
  before = at 111_000;
  evidence = ok (record { transcript = t; echoed_challenge = some challenge });
  between = at 111_500;
  scope_ms = 111_500;
  attested = ok tt;
  after = at 112_000;
}

abbrev plan : MappingMethodPlan
plan = record { protocol = pcp; is_udp = true }

abbrev accounting : Accounting
accounting = new_accounting mapped_descriptor.budgets

path-IsProof_example :
    (evidence : MappingPathEvidence) × ((checked baseline).evidence ≡ ok evidence)
    × IsProof serialized_len descriptor_digest transcript_len hex_encode mapped_descriptor
        (baseline_check plan 40_000)
        evidence
        111_500
    × (TraversalOutcome.succeeded ≡ evidence.transcript.outcome)
    × ((checked baseline).attested ≡ ok tt)
unfolding text lower_hex strip_prefix digest out_of_order validate_budgets allowed validate_consent
    validate_mapping validate_pair bounded validate_identity validate_deadline validate_operations
    validate_relay validate validate_at bytes_eq validate_scope validate_transcript validate_binding
    validate_domain validate_outcome validate_lease validate_pair_fields validate_report
    validate_peer validate_cleanup binding_digest proof_domain phase_operation path path_charged
    path_matches ordinary charge new_accounting
path-IsProof_example =
    path-IsProof serialized_len descriptor_digest transcript_len hex_encode accounting
      mapped_descriptor (baseline_check plan 40_000) (checked baseline) 126_000
      {summary = record {
        stage = TraversalStage.baseline;
        outcome = TraversalOutcome.succeeded;
        error = none;
      }}
      refl

-- The router answers the creation with a lease of 60 s, and the deletion with one of 0 s.
abbrev control : ℕ → Control
control lifetime =
    let bytes = pcp_reply (grant lifetime) nonce in
    record {
      before = at 112_500;
      router = λ destination request room. ok (length bytes, bytes);
      after_ms = 113_000;
    }

abbrev method : MappingMethodPlan → MethodRun
method planned = record {
  start = at 110_500;
  bound = ok 40_000;
  baseline = checked baseline;
  ready = at 112_000;
  create_ms = 112_000;
  nonce = ok nonce;
  creating = control 60;
  deleting = control 0;
  observed_address = public_address;
  verify = checked (transcript TraversalStage.mapping_verify TraversalMethod.pcp);
  cleaning = control 0;
}

abbrev gateway : MappingGateway
gateway = record {
  gateway = router;
  reservation = record { gateway = router.gateway; digest = replicate 32 0 };
  local_address = client;
  external_address = none;
  igd = none;
  discovery_datagrams = 0;
  discovery_control_requests = 0;
}

abbrev session : MappingSession
session = record { descriptor = mapped_descriptor; reservation = reservation }

run_mapping_lifecycle-IsFrugal_example :
    (report : MappingRunReport) × (run_mapping_lifecycle serialized_len descriptor_digest
        transcript_len hex_encode no_url session
        (plan ∷ [])
        gateway
        110_000
        110_100
        method
      ≡ some report)
    × IsFrugal mapped_descriptor.budgets report
run_mapping_lifecycle-IsFrugal_example =
    run_mapping_lifecycle-IsFrugal serialized_len descriptor_digest transcript_len hex_encode no_url
      session (plan ∷ []) gateway 110_000 110_100 method refl

run_mapping_lifecycle-IsOrderly_example :
    (report : MappingRunReport) × (run_mapping_lifecycle serialized_len descriptor_digest
        transcript_len hex_encode no_url session
        (plan ∷ [])
        gateway
        110_000
        110_100
        method
      ≡ some report)
    × IsOrderly report.methods report.stopped
run_mapping_lifecycle-IsOrderly_example =
    run_mapping_lifecycle-IsOrderly serialized_len descriptor_digest transcript_len hex_encode
      no_url session (plan ∷ []) gateway 110_000 110_100 method refl
