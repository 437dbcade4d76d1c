-- ===== src/Traversal/Run/Passes.antt =====
-- One pass through the loop of `run_mapping_lifecycle`, of src/network_traversal/lifecycle.rs.
use liskov_runtime_cargo.Prelude.{
  ℕ, Bool, not, ◌||◌, Option, none, some, [], ◌∷◌, Bytes, ◌==◌, ltb, leb, if◌then◌else◌,
  saturating_add, u64_max,
}
use liskov_runtime_cargo.Prelude.Result.{Result, ok, err}
use liskov_runtime_cargo.Gateway.Control.{RouterProtocol, pcp, Url}
use liskov_runtime_cargo.Traversal.Texts.{TraversalRefusal}
use liskov_runtime_cargo.Traversal.Outcomes.{
  TraversalStage, TraversalMethod, TraversalFamily, TraversalOutcome, outcome_rank, is_outcome,
  one_of,
}
use liskov_runtime_cargo.Traversal.Descriptor.{TraversalDescriptorV1}
use liskov_runtime_cargo.Traversal.Transcript.{TraversalTranscriptV1}
use liskov_runtime_cargo.Traversal.Lifecycle.{
  MappingStop, MappingMethodPlan, Accounting, udp_router, one_if,
}
use liskov_runtime_cargo.Traversal.Control.{ordinary, MappingPathCheck, MappingPathSummary, path}
use liskov_runtime_cargo.Mapping.Effects.{OwnedMappingHandle, MappingEffect}
use liskov_runtime_cargo.Traversal.Run.Reports.{
  MappingGateway, MethodRun, MappingMethodReport, Pass, after_deletion, begun_row, finish, leave,
  leave_early, path_method, path_transport, pending, port_ok,
}
use liskov_runtime_cargo.Traversal.Run.Creation.{Context, create_mapping, delete_mapping}

abbrev pub unverifiable : MappingPathSummary
unverifiable = record {
  stage = TraversalStage.mapping_verify;
  outcome = TraversalOutcome.unverifiable_endpoint;
  error = none;
}

abbrev pub mapped_address : RouterProtocol → OwnedMappingHandle → MappingGateway → Option ℕ
mapped_address pcp h g = h.external_address
mapped_address _ h g = g.external_address

abbrev pub baseline_check : MappingMethodPlan → ℕ → MappingPathCheck
baseline_check plan port = record {
  stage = TraversalStage.baseline;
  method = TraversalMethod.unassisted;
  transport = path_transport plan;
  family = TraversalFamily.v4;
  port = port;
}

abbrev pub verify_check : MappingMethodPlan → ℕ → MappingPathCheck
verify_check plan port = record {
  stage = TraversalStage.mapping_verify;
  method = path_method plan.protocol;
  transport = path_transport plan;
  family = TraversalFamily.v4;
  port = port;
}

-- A measured baseline: a success, or a dialback that failed.
abbrev pub measured : TraversalOutcome → Bool
measured outcome =
    one_of outcome_rank outcome (TraversalOutcome.succeeded ∷ TraversalOutcome.failed ∷ [])

module _ (serialized_len : TraversalDescriptorV1 → Option ℕ)
    (descriptor_digest : TraversalDescriptorV1 → Result TraversalRefusal Bytes)
    (transcript_len : TraversalTranscriptV1 → Option ℕ) (hex_encode : Bytes → Bytes)
    (parse_url : Bytes → Option Url) where
  -- The check of a mapping that was created, from outside.
  unfoldable pub verified :
      Context
      → MappingMethodPlan
      → OwnedMappingHandle
      → MappingMethodReport
      → Accounting
      → MethodRun
      → MappingMethodReport × Accounting
  verified x plan h row a run = elim (mapped_address plan.protocol h x.gateway) [
    | none ↦ (record row { verification = some unverifiable }, a)
    | some address ↦
        if not (port_ok h.external_port)
        then (record row { stopped = some MappingStop.invalid_binding }, a)
        else (if not (address == run.observed_address)
            then (record row { verification = some unverifiable }, a)
            else (let (result, paid) =
                  path serialized_len descriptor_digest transcript_len hex_encode a x.descriptor
                    (verify_check plan h.external_port) run.verify x.active_end in
                elim result [
                  | ok summary ↦ (record row { verification = some summary }, paid)
                  | err stop ↦ (record row { stopped = some stop }, paid)
                ]))
  ]

  -- What follows a creation: verification of a success, and always the deletion of a pending lease.
  unfoldable pub after_creation :
      Context
      → MappingMethodPlan
      → MappingMethodReport
      → MappingEffect
      → Accounting
      → MethodRun
      → Pass
  after_creation x plan row effect a run =
      let named = record row {
        create = some effect.outcome;
        granted_lease_sec = effect.granted_lifetime_sec;
        cleanup = effect.cleanup;
      } in
      elim (pending effect.cleanup effect.handle) [
        | none ↦ finish named a
        | some h ↦
            let (checked, paid) =
              if is_outcome effect.outcome TraversalOutcome.succeeded
              then verified x plan h named a run
              else (named, a) in
            let (deletion, left) = delete_mapping parse_url x plan h effect.epoch paid run in
            finish
              (after_deletion checked deletion.cleanup
                (left.control_requests == paid.control_requests))
              left
      ]

  -- What follows a measured baseline.
  unfoldable pub after_baseline :
      Context → MappingMethodPlan → ℕ → MappingMethodReport → Accounting → MethodRun → Pass
  after_baseline x plan port row a run = elim (ordinary run.ready x.active_end) [
    | err stop ↦ leave row stop a
    | ok ready ↦
        if a.cleanup_control == 0
          || ltb a.cleanup_datagrams (one_if (udp_router plan.protocol))
          || leb x.active_end (saturating_add u64_max run.create_ms 1_000)
        then leave row MappingStop.budget a
        else elim (create_mapping parse_url plan.protocol x plan port a run) [
          | err stop ↦ leave row stop a
          | ok (effect, left) ↦ after_creation x plan row effect left run
        ]
  ]

  -- One pass through the loop.
  unfoldable pub run_method : Context → Accounting → MappingMethodPlan → MethodRun → Pass
  run_method x a plan run = elim (ordinary run.start x.active_end) [
    | err stop ↦ leave_early stop a
    | ok started ↦ elim run.bound [
      | err stop ↦ leave_early stop a
      | ok port ↦
          if not (port_ok port)
          then leave_early MappingStop.invalid_binding a
          else (let (result, paid) =
                path serialized_len descriptor_digest transcript_len hex_encode a x.descriptor
                  (baseline_check plan port) run.baseline x.active_end in
              elim result [
                | err stop ↦ leave (begun_row plan) stop paid
                | ok summary ↦
                    let row = record (begun_row plan) { baseline = some summary } in
                    if not (measured summary.outcome)
                    then leave row MappingStop.unsupported paid
                    else after_baseline x plan port row paid run
              ])
    ]
  ]
