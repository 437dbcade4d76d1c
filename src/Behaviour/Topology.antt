-- ===== src/Behaviour/Topology.antt =====
-- The endpoints of a behaviour experiment, and what it reports (src/network_traversal/behaviour.rs).
use liskov_runtime_cargo.Prelude.{
  ℕ, Bool, true, false, not, ◌&&◌, ◌||◌, Option, none, some, Bytes, ◌==◌, leb, if◌then◌else◌,
}
use liskov_runtime_cargo.Prelude.Result.{Result, ok, err}
use liskov_runtime_cargo.Gateway.Control.{SocketAddr}
use liskov_runtime_cargo.Traversal.Outcomes.{TraversalOutcome}
use liskov_runtime_cargo.Behaviour.Exchange.{BehaviourFailure, Experiment}

pub record BehaviourEndpoint : Type 0 where
  pub is_ipv4 : Bool
  pub address : SocketAddr
  pub mapping_qualified : Bool
  pub filtering_qualified : Bool

pub record BehaviourTopology : Type 0 where
  pub revision : Bytes
  pub ap : BehaviourEndpoint
  pub aq : Option BehaviourEndpoint
  pub bp : Option BehaviourEndpoint

pub record BehaviourSession : Type 0 where
  pub id : Bytes
  pub descriptor_digest : Bytes

pub record BehaviourSummary : Type 0 where
  pub outcome : TraversalOutcome
  pub reason : Option BehaviourFailure

pub data MappingComparison : Type 0 where
  unchanged changed : MappingComparison

pub record UdpBehaviourReport : Type 0 where
  pub mapping : BehaviourSummary
  pub filtering : BehaviourSummary
  pub mapping_aq : Result BehaviourFailure MappingComparison
  pub mapping_bp : Result BehaviourFailure MappingComparison
  pub filtering_aq : Result BehaviourFailure (Unit {0})
  pub filtering_bp : Result BehaviourFailure (Unit {0})
  pub sent_datagrams : ℕ

-- `BehaviourSummary::unknown`.
unfoldable pub unknown_outcome : BehaviourFailure → TraversalOutcome
unknown_outcome BehaviourFailure.unsupported_topology = TraversalOutcome.unsupported_topology
unknown_outcome _ = TraversalOutcome.unknown

abbrev pub unknown : BehaviourFailure → BehaviourSummary
unknown reason = record { outcome = unknown_outcome reason; reason = some reason }

abbrev pub classified_as : TraversalOutcome → BehaviourSummary
classified_as outcome = record { outcome = outcome; reason = none }

abbrev pub multicast : ℕ → Bool
multicast a = leb 3_758_096_384 a && leb a 4_026_531_839

unfoldable pub endpoint_v4 : BehaviourEndpoint → Bool
endpoint_v4 e =
    e.is_ipv4
    && not (e.address.port == 0)
    && not (e.address.address == 0)
    && not (multicast e.address.address)

-- The endpoint is qualified, and differs from A:p in what it should.
unfoldable pub alternates : SocketAddr → Bool → Bool → BehaviourEndpoint → Bool
alternates ap ip_change for_filtering other =
    endpoint_v4 other
    && (if for_filtering then other.filtering_qualified else other.mapping_qualified)
    && (if ip_change
        then not (other.address.address == ap.address) && other.address.port == ap.port
        else other.address.address == ap.address && not (other.address.port == ap.port))

unfoldable pub alternate : BehaviourTopology → Bool → Bool → Option BehaviourEndpoint
alternate topology ip_change for_filtering = elim (if ip_change then topology.bp else topology.aq) [
  | none ↦ none
  | some other ↦
      if alternates topology.ap.address ip_change for_filtering other then some other else none
]

abbrev pub unavailable : BehaviourFailure → UdpBehaviourReport
unavailable reason = record {
  mapping = unknown reason;
  filtering = unknown reason;
  mapping_aq = err reason;
  mapping_bp = err reason;
  filtering_aq = err reason;
  filtering_bp = err reason;
  sent_datagrams = 0;
}

abbrev pub same_address : SocketAddr → SocketAddr → Bool
same_address a b = a.address == b.address && a.port == b.port

abbrev pub rebound {ℓ} : {A : Type ℓ} → Result BehaviourFailure A → Bool
rebound (err BehaviourFailure.rebinding) = true
rebound _ = false

abbrev pub identity : Bool → ℕ
identity ip_change = if ip_change then 2 else 1

-- The summary of an experiment, its two slots, and the experiment after it.
pub record Outcome {ℓ} (A : Type ℓ) : Type ℓ where
  pub summary : BehaviourSummary
  pub aq : Result BehaviourFailure A
  pub bp : Result BehaviourFailure A
  pub experiment : Experiment

-- The summary after the last observation.
unfoldable pub concluded :
    SocketAddr → Result BehaviourFailure SocketAddr → Bool → BehaviourSummary → BehaviourSummary
concluded initial (err failure) moved summary = unknown failure
concluded initial (ok final) moved summary =
    if not (same_address final initial) || moved
    then unknown BehaviourFailure.rebinding
    else summary
