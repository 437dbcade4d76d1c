-- ===== src/Behaviour/Mapping.antt =====
-- `mapping` of src/network_traversal/behaviour.rs.
use liskov_runtime_cargo.Prelude.{
  ℕ, Bool, true, false, not, ◌||◌, Option, none, some, if◌then◌else◌,
}
use liskov_runtime_cargo.Prelude.Result.{Result, ok, err}
use liskov_runtime_cargo.Gateway.Control.{SocketAddr}
use liskov_runtime_cargo.Traversal.Outcomes.{TraversalOutcome}
use liskov_runtime_cargo.Behaviour.Exchange.{BehaviourFailure, Experiment, Observation, observe}
use liskov_runtime_cargo.Behaviour.Topology.{
  BehaviourEndpoint, BehaviourTopology, BehaviourSummary, MappingComparison, unknown, classified_as,
  alternate, same_address, rebound, identity, Outcome, concluded,
}

-- What the six observations of the mapping experiment meet.
pub record MappingRun : Type 0 where
  pub initial : Observation
  pub at_aq : Observation
  pub again_aq : Observation
  pub at_bp : Observation
  pub again_bp : Observation
  pub final : Observation

unfoldable pub steady :
    SocketAddr → Result BehaviourFailure SocketAddr → Result BehaviourFailure SocketAddr
steady seen (err failure) = err failure
steady seen (ok again) = if same_address seen again then ok seen else err BehaviourFailure.rebinding

-- Two observations at one endpoint.
unfoldable pub sample_at :
    BehaviourEndpoint
    → ℕ
    → Observation
    → Observation
    → Experiment
    → Result BehaviourFailure SocketAddr × Experiment
sample_at other ingress o again x =
    let (first, y) = observe x o other.address other.address ingress 0 in
    elim first [
      | err failure ↦ (err failure, y)
      | ok seen ↦
          let (second, z) = observe y again other.address other.address ingress 0 in
          (steady seen second, z)
    ]

unfoldable pub compared :
    SocketAddr
    → Option (Result BehaviourFailure SocketAddr)
    → Result BehaviourFailure MappingComparison
    → Result BehaviourFailure MappingComparison
compared initial none slot = slot
compared initial (some (err failure)) slot = err failure
compared initial (some (ok seen)) slot =
    ok
      (if same_address seen initial then MappingComparison.unchanged else MappingComparison.changed)

unfoldable pub sample :
    BehaviourTopology
    → Bool
    → Observation
    → Observation
    → Experiment
    → Option (Result BehaviourFailure SocketAddr) × Experiment
sample topology ip_change o again x = elim (alternate topology ip_change false) [
  | none ↦ (none, x)
  | some other ↦ let (pair, y) = sample_at other (identity ip_change) o again x in (some pair, y)
]

-- The samples at A:q and at B:p.
unfoldable pub mapping_summary :
    SocketAddr
    → Option (Result BehaviourFailure SocketAddr)
    → Option (Result BehaviourFailure SocketAddr)
    → BehaviourSummary
mapping_summary initial (some (err failure)) bp = unknown failure
mapping_summary initial none (some (err failure)) = unknown failure
mapping_summary initial none _ = unknown BehaviourFailure.unsupported_topology
mapping_summary initial (some (ok q)) none =
    if not (same_address q initial)
    then classified_as TraversalOutcome.address_and_port_dependent
    else unknown BehaviourFailure.unsupported_topology
mapping_summary initial (some (ok q)) (some (err failure)) =
    if not (same_address q initial)
    then classified_as TraversalOutcome.address_and_port_dependent
    else unknown failure
mapping_summary initial (some (ok q)) (some (ok b)) =
    if not (same_address q initial)
    then classified_as TraversalOutcome.address_and_port_dependent
    else (if not (same_address b initial)
        then classified_as TraversalOutcome.address_dependent
        else classified_as TraversalOutcome.endpoint_independent)

unfoldable pub mapping :
    BehaviourTopology
    → MappingRun
    → Result BehaviourFailure MappingComparison
    → Result BehaviourFailure MappingComparison
    → Experiment
    → Outcome MappingComparison
mapping topology run aq bp x =
    let ap = topology.ap.address in
    let (first, y) = observe x run.initial ap ap 0 0 in
    elim first [
      | err failure ↦ record { summary = unknown failure; aq = aq; bp = bp; experiment = y }
      | ok initial ↦
          let (at_aq, z) = sample topology false run.at_aq run.again_aq y in
          let (at_bp, u) = sample topology true run.at_bp run.again_bp z in
          let (final, v) = observe u run.final ap ap 0 0 in
          let slot_aq = compared initial at_aq aq in
          let slot_bp = compared initial at_bp bp in
          record {
            summary =
                concluded initial final (rebound slot_aq || rebound slot_bp)
                  (mapping_summary initial at_aq at_bp);
            aq = slot_aq;
            bp = slot_bp;
            experiment = v;
          }
    ]
