-- ===== src/Behaviour/Filtering.antt =====
-- `filtering` of src/network_traversal/behaviour.rs.
use liskov_runtime_cargo.Prelude.{Bool, true, false, ◌||◌, none, some, if◌then◌else◌}
use liskov_runtime_cargo.Prelude.Result.{Result, ok, err}
use liskov_runtime_cargo.Gateway.Control.{SocketAddr}
use liskov_runtime_cargo.Traversal.Outcomes.{TraversalOutcome}
use liskov_runtime_cargo.Behaviour.Exchange.{BehaviourFailure, Experiment, Observation, observe}
use liskov_runtime_cargo.Behaviour.Topology.{
  BehaviourTopology, BehaviourSummary, unknown, classified_as, alternate, same_address, rebound,
  identity, Outcome, concluded,
}

-- What the four observations of the filtering experiment meet.
pub record FilteringRun : Type 0 where
  pub initial : Observation
  pub at_bp : Observation
  pub at_aq : Observation
  pub final : Observation

unfoldable pub not_rebound :
    SocketAddr → Result BehaviourFailure SocketAddr → Result BehaviourFailure (Unit {0})
not_rebound initial (err failure) = err failure
not_rebound initial (ok observed) =
    if same_address observed initial then ok tt else err BehaviourFailure.rebinding

-- One test of the filtering experiment.
unfoldable pub test :
    BehaviourTopology
    → SocketAddr
    → Bool
    → Observation
    → Result BehaviourFailure (Unit {0})
    → Experiment
    → Result BehaviourFailure (Unit {0}) × Experiment
test topology initial ip_change o slot x = elim (alternate topology ip_change true) [
  | none ↦ (slot, x)
  | some other ↦
      let (observed, y) = observe x o topology.ap.address other.address 0 (identity ip_change) in
      (not_rebound initial observed, y)
]

-- The results at B:p and at A:q.
unfoldable pub filtering_summary :
    Result BehaviourFailure (Unit {0}) → Result BehaviourFailure (Unit {0}) → BehaviourSummary
filtering_summary (ok u) aq = classified_as TraversalOutcome.endpoint_independent
filtering_summary (err BehaviourFailure.timeout) (ok u) =
    classified_as TraversalOutcome.address_dependent
filtering_summary (err BehaviourFailure.timeout) (err BehaviourFailure.timeout) =
    classified_as TraversalOutcome.address_and_port_dependent
filtering_summary (err BehaviourFailure.timeout) (err failure) = unknown failure
filtering_summary (err failure) aq = unknown failure

unfoldable pub filtering :
    BehaviourTopology
    → FilteringRun
    → Result BehaviourFailure (Unit {0})
    → Result BehaviourFailure (Unit {0})
    → Experiment
    → Outcome (Unit {0})
filtering topology run aq bp x =
    let ap = topology.ap.address in
    let (first, y) = observe x run.initial ap ap 0 0 in
    elim first [
      | err failure ↦ record { summary = unknown failure; aq = aq; bp = bp; experiment = y }
      | ok initial ↦
          let (at_bp, z) = test topology initial true run.at_bp bp y in
          let (at_aq, u) = test topology initial false run.at_aq aq z in
          let (final, v) = observe u run.final ap ap 0 0 in
          record {
            summary =
                concluded initial final (rebound at_aq || rebound at_bp)
                  (filtering_summary at_bp at_aq);
            aq = at_aq;
            bp = at_bp;
            experiment = v;
          }
    ]
