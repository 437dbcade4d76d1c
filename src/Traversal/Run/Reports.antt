-- ===== src/Traversal/Run/Reports.antt =====
-- The rows and the report of a mapping session's run, and what a method of it meets
-- (src/network_traversal/lifecycle.rs, and the ports of src/inbound_reachability_contract.rs).
use liskov_runtime_cargo.Prelude.{
  is_some, ℕ, Bool, true, false, not, ◌&&◌, ◌||◌, Option, none, some, List, [], Bytes, leb,
  if◌then◌else◌,
}
use liskov_runtime_cargo.Prelude.Result.{Result}
use liskov_runtime_cargo.Gateway.Routes.{SelectedGateway}
use liskov_runtime_cargo.Gateway.Control.{RouterProtocol, pcp, nat_pmp, upnp_igd}
use liskov_runtime_cargo.Traversal.Outcomes.{
  TraversalMethod, TraversalTransport, TraversalOutcome, TraversalCleanup,
}
use liskov_runtime_cargo.Traversal.Lifecycle.{MappingStop, MappingMethodPlan, Accounting}
use liskov_runtime_cargo.Traversal.Control.{Moment, Control, MappingPathSummary, PathRun}
use liskov_runtime_cargo.Mapping.Packets.{MappedPortProtocol, tcp, udp}
use liskov_runtime_cargo.Mapping.Effects.{OwnedMappingHandle, ExclusiveReservation, MappingEffect}

abbrev pub inbound_port_min : ℕ
inbound_port_min = 20_000

abbrev pub inbound_port_max : ℕ
inbound_port_max = 60_000

-- What the UPnP calls report, and for each of their exchanges whether it is for cleanup.
pub record Upnp : Type 0 where
  pub create : Accounting → ℕ → MappingEffect × List Bool
  pub delete : Accounting → OwnedMappingHandle → MappingEffect × List Bool

pub record MappingGateway : Type 0 where
  pub gateway : SelectedGateway
  pub reservation : ExclusiveReservation
  pub local_address : ℕ
  pub external_address : Option ℕ
  pub igd : Option Upnp
  pub discovery_datagrams : ℕ
  pub discovery_control_requests : ℕ

-- What a method meets, in the order of the code. `bound` is the port of the fresh listener.
pub record MethodRun : Type 0 where
  pub start : Moment
  pub bound : Result MappingStop ℕ
  pub baseline : PathRun
  pub ready : Moment
  pub create_ms : ℕ
  pub nonce : Result MappingStop Bytes
  pub creating : Control
  pub deleting : Control
  pub observed_address : ℕ
  pub verify : PathRun
  pub cleaning : Control

pub record MappingMethodReport : Type 0 where
  pub plan : MappingMethodPlan
  pub baseline : Option MappingPathSummary
  pub create : Option TraversalOutcome
  pub granted_lease_sec : Option ℕ
  pub verification : Option MappingPathSummary
  pub cleanup : TraversalCleanup
  pub expiry_unknown : Bool
  pub stopped : Option MappingStop

pub record MappingRunReport : Type 0 where
  pub discovery : TraversalOutcome
  pub methods : List MappingMethodReport
  pub deferred_methods : ℕ
  pub stopped : Option MappingStop
  pub sent_datagrams : ℕ
  pub control_requests : ℕ
  pub external_dialbacks : ℕ

-- The end of a pass through the loop: the row that is pushed, why the loop stops, and the accounting.
pub record Pass : Type 0 where
  pub row : Option MappingMethodReport
  pub stopped : Option MappingStop
  pub accounting : Accounting

abbrev pub port_protocol : MappingMethodPlan → MappedPortProtocol
port_protocol plan = if plan.is_udp then udp else tcp

abbrev pub path_transport : MappingMethodPlan → TraversalTransport
path_transport plan = if plan.is_udp then TraversalTransport.udp else TraversalTransport.tcp

abbrev pub path_method : RouterProtocol → TraversalMethod
path_method pcp = TraversalMethod.pcp
path_method nat_pmp = TraversalMethod.nat_pmp
path_method upnp_igd = TraversalMethod.upnp_igd

abbrev pub begun_row : MappingMethodPlan → MappingMethodReport
begun_row plan = record {
  plan = plan;
  baseline = none;
  create = none;
  granted_lease_sec = none;
  verification = none;
  cleanup = TraversalCleanup.not_created;
  expiry_unknown = false;
  stopped = none;
}

-- `row.stopped` and `report.stopped` are set, the row is pushed, and the loop is left.
abbrev pub leave : MappingMethodReport → MappingStop → Accounting → Pass
leave row stop a = record {
  row = some (record row { stopped = some stop });
  stopped = some stop;
  accounting = a;
}

-- The loop is left before a row is pushed.
abbrev pub leave_early : MappingStop → Accounting → Pass
leave_early stop a = record { row = none; stopped = some stop; accounting = a }

abbrev pub port_ok : ℕ → Bool
port_ok port = leb inbound_port_min port && leb port inbound_port_max

abbrev pub is_cleaned : TraversalCleanup → Bool
is_cleaned TraversalCleanup.not_created = true
is_cleaned TraversalCleanup.confirmed_deleted = true
is_cleaned _ = false

abbrev pub expiry_unknown_after : TraversalCleanup → Bool
expiry_unknown_after TraversalCleanup.creation_outcome_unknown = true
expiry_unknown_after TraversalCleanup.expiry_unknown = true
expiry_unknown_after _ = false

abbrev pub is_expiry_unknown : TraversalCleanup → Bool
is_expiry_unknown TraversalCleanup.expiry_unknown = true
is_expiry_unknown _ = false

-- The handle whose lease is pending.
abbrev pub pending : TraversalCleanup → Option OwnedMappingHandle → Option OwnedMappingHandle
pending TraversalCleanup.lease_expiry_pending handle = handle
pending _ handle = none

abbrev pub stop_or_uncertain : Option MappingStop → MappingStop
stop_or_uncertain none = MappingStop.cleanup_uncertain
stop_or_uncertain (some stop) = stop

-- The end of a pass that comes to its end: an uncertain mapping, or a stop, leaves the loop.
unfoldable pub finish : MappingMethodReport → Accounting → Pass
finish row a =
    let last = record row {
      expiry_unknown = row.expiry_unknown || expiry_unknown_after row.cleanup;
    } in
    record {
      row = some last;
      stopped =
          if not (is_cleaned row.cleanup) || is_some row.stopped
          then some (stop_or_uncertain row.stopped)
          else none;
      accounting = a;
    }

-- The cleanup of a row after its explicit deletion.
unfoldable pub after_deletion : MappingMethodReport → TraversalCleanup → Bool → MappingMethodReport
after_deletion row TraversalCleanup.confirmed_deleted unsent = record row {
  cleanup = TraversalCleanup.confirmed_deleted;
}
after_deletion row delete_mapping true = record row {
  cleanup = TraversalCleanup.lease_expiry_pending;
}
after_deletion row delete_mapping false = record row {
  expiry_unknown = is_expiry_unknown delete_mapping;
  cleanup = TraversalCleanup.delete_failed;
}

-- A report of a run that stopped before its discovery was counted.
abbrev pub stopped_report : MappingStop → MappingRunReport
stopped_report stop = record {
  discovery = TraversalOutcome.not_started;
  methods = [];
  deferred_methods = 0;
  stopped = some stop;
  sent_datagrams = 0;
  control_requests = 0;
  external_dialbacks = 0;
}
