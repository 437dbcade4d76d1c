-- ===== src/Behaviour/Collect.antt =====
-- `collect_udp_behaviour` of src/network_traversal/behaviour.rs. The sockets that it binds, and the
-- readings of the clock, are inputs in their order.
use liskov_runtime_cargo.Prelude.{
  ℕ, ◌-◌, Bool, true, false, not, ◌&&◌, ◌||◌, Option, none, some, [], Bytes, bytes_eq, ◌==◌, ltb,
  leb, if◌then◌else◌, saturating_add, u64_max,
}
use liskov_runtime_cargo.Prelude.Result.{Result, ok, err, ◌>>◌, is_ok}
use liskov_runtime_cargo.Traversal.Texts.{TraversalRefusal}
use liskov_runtime_cargo.Traversal.Descriptor.{
  TraversalDescriptorV1, observe_mapping, observe_filtering, has_operation,
}
use liskov_runtime_cargo.Traversal.Validate.{validate_at}
use liskov_runtime_cargo.Traversal.Reserve.{Reservation, reservation_fits}
use liskov_runtime_cargo.Traversal.Transcript.{TraversalTranscriptV1}
use liskov_runtime_cargo.Traversal.Transcript.Scope.{binding_digest}
use liskov_runtime_cargo.Behaviour.Exchange.{
  BehaviourFailure, Instant, Experiment, check, response_bytes,
}
use liskov_runtime_cargo.Behaviour.Topology.{
  BehaviourTopology, BehaviourSession, MappingComparison, UdpBehaviourReport, unknown, endpoint_v4,
  alternate, unavailable, Outcome,
}
use liskov_runtime_cargo.Behaviour.Filtering.{FilteringRun, filtering}
use liskov_runtime_cargo.Behaviour.Mapping.{MappingRun, mapping}

-- What a collection meets, in the order of the code.
pub record Collection : Type 0 where
  pub first_ms : ℕ
  pub second_ms : ℕ
  pub start : Instant
  pub filter_socket : Result BehaviourFailure (Unit {0})
  pub filtering_run : FilteringRun
  pub between : Instant
  pub mapping_socket : Result BehaviourFailure (Unit {0})
  pub mapping_run : MappingRun

-- The slot of an alternate before the experiments.
unfoldable pub slot_before :
    {A : Type 0} → BehaviourTopology → Bool → Bool → Result BehaviourFailure A
slot_before topology ip_change for_filtering = elim (alternate topology ip_change for_filtering) [
  | none ↦ err BehaviourFailure.unsupported_topology
  | some other ↦ err BehaviourFailure.not_started
]

-- The filtering experiment, where it is qualified and granted.
unfoldable pub filtering_part :
    TraversalDescriptorV1 → BehaviourTopology → Collection → Experiment → Outcome (Unit {0})
filtering_part d topology run x =
    let aq = slot_before topology false true in
    let bp = slot_before topology true true in
    let skipped : BehaviourFailure → Outcome (Unit {0}) =
      λ failure. record { summary = unknown failure; aq = aq; bp = bp; experiment = x } in
    if not topology.ap.filtering_qualified
    then skipped BehaviourFailure.unsupported_topology
    else (if has_operation d.operations observe_filtering
        then elim run.filter_socket [
          | err failure ↦ skipped failure
          | ok bound ↦ filtering topology run.filtering_run aq bp x
        ]
        else skipped BehaviourFailure.not_authorized)

unfoldable pub mapping_part :
    BehaviourTopology → Collection → Experiment → Outcome MappingComparison
mapping_part topology run x =
    let aq = slot_before topology false false in
    let bp = slot_before topology true false in
    elim (check x run.between >> run.mapping_socket) [
      | err failure ↦ record { summary = unknown failure; aq = aq; bp = bp; experiment = x }
      | ok bound ↦ mapping topology run.mapping_run aq bp x
    ]

unfoldable pub begin_experiment :
    TraversalDescriptorV1 → Reservation → BehaviourSession → Experiment
begin_experiment d reservation session = record {
  session = session.id;
  end_ms = reservation.collector_end_ms - reservation.cleanup_reserve_ms;
  remaining = d.budgets.outbound_datagrams - d.budgets.cleanup_datagrams;
  sent = 0;
  transactions = [];
}

unfoldable pub run_experiments :
    TraversalDescriptorV1 → BehaviourTopology → Collection → Experiment → UdpBehaviourReport
run_experiments d topology run x =
    let by_filter = filtering_part d topology run x in
    let by_mapping = mapping_part topology run by_filter.experiment in
    record {
      mapping = by_mapping.summary;
      filtering = by_filter.summary;
      mapping_aq = by_mapping.aq;
      mapping_bp = by_mapping.bp;
      filtering_aq = by_filter.aq;
      filtering_bp = by_filter.bp;
      sent_datagrams = by_mapping.experiment.sent;
    }

abbrev pub is_digest_of : Bytes → Result TraversalRefusal Bytes → Bool
is_digest_of digest (ok bound) = bytes_eq bound digest
is_digest_of digest (err refusal) = false

module _ (serialized_len : TraversalDescriptorV1 → Option ℕ)
    (descriptor_digest : TraversalDescriptorV1 → Result TraversalRefusal Bytes)
    (transcript_len : TraversalTranscriptV1 → Option ℕ) where
  unfoldable pub authorized :
      TraversalDescriptorV1 → Reservation → BehaviourSession → Collection → Bool
  authorized d reservation session run =
      is_ok (validate_at serialized_len d run.first_ms)
      && is_digest_of session.descriptor_digest
          (binding_digest serialized_len descriptor_digest transcript_len d)
      && reservation_fits d reservation
      && reservation.experiment_ms == d.budgets.experiment_ms
      && reservation.cleanup_reserve_ms == d.budgets.cleanup_reserve_ms
      && leb reservation.collector_end_ms
          (saturating_add u64_max run.second_ms d.budgets.experiment_ms)

  unfoldable pub collect_udp_behaviour :
      TraversalDescriptorV1
      → Reservation
      → BehaviourSession
      → BehaviourTopology
      → Collection
      → UdpBehaviourReport
  collect_udp_behaviour d reservation session topology run =
      let x = begin_experiment d reservation session in
      if not (authorized d reservation session run)
      then unavailable BehaviourFailure.not_authorized
      else (if not (bytes_eq topology.revision d.endpoint_set_revision)
            || not (endpoint_v4 topology.ap)
            || not topology.ap.mapping_qualified
          then unavailable BehaviourFailure.unsupported_topology
          else (if not (has_operation d.operations observe_mapping)
              then unavailable BehaviourFailure.not_authorized
              else (if ltb d.budgets.datagram_bytes response_bytes
                  then unavailable BehaviourFailure.budget_exhausted
                  else elim (check x run.start) [
                    | err failure ↦ unavailable failure
                    | ok started ↦ run_experiments d topology run x
                  ])))
