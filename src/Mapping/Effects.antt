-- ===== src/Mapping/Effects.antt =====
-- What a mapping call reports, and what it keeps of a mapping, in src/network_traversal/mapping.rs.
use liskov_runtime_cargo.Prelude.{
  ℕ, Bool, false, not, ◌&&◌, Option, none, some, List, Bytes, bytes_eq, ◌==◌, ltb, leb,
  if◌then◌else◌, map, replicate,
}
use liskov_runtime_cargo.Prelude.Result.{Result}
use liskov_runtime_cargo.Gateway.Routes.{SelectedGateway}
use liskov_runtime_cargo.Gateway.Control.{
  RouterProtocol, ControlRefusal, SocketAddr, Url, Reply, Cancelled, exchange_with_gateway,
}
use liskov_runtime_cargo.Traversal.Outcomes.{
  TraversalOutcome, TraversalErrorClass, TraversalCleanup,
}
use liskov_runtime_cargo.Mapping.Packets.{
  MappedPortProtocol, DecodeFault, usable_ipv4, mapping_requested_lease_sec,
  mapping_maximum_lease_sec,
}

pub data MappingRefusal : Type 0 where
  low_port bad_client_address bad_lifetime_ceiling trivial_nonce missing_reservation
        reservation_gateway_mismatch ambiguous_ownership denied protocol_unsupported conflict
        rebooted truncated replay_or_mismatch overlong_or_zero_grant lost_response cancelled
        malformed :
      MappingRefusal

pub record OwnedMappingHandle : Type 0 where
  pub protocol : RouterProtocol
  pub port_protocol : MappedPortProtocol
  pub internal_port : ℕ
  pub external_port : ℕ
  pub client : ℕ
  pub granted_lifetime_sec : ℕ
  pub epoch : ℕ
  pub nonce : Option Bytes
  pub reservation_digest : Option Bytes
  pub cleanup_authorized : Bool
  pub external_address : Option ℕ

pub record ExclusiveReservation : Type 0 where
  pub gateway : ℕ
  pub digest : Bytes

-- `ExclusiveReservation::new`, of a digest of 32 bytes.
unfoldable pub new_reservation : ℕ → Bytes → Option ExclusiveReservation
new_reservation gateway digest =
    if not (usable_ipv4 gateway)
    then none
    else (if bytes_eq digest (replicate 32 0)
        then none
        else some (record { gateway = gateway; digest = digest }))

abbrev pub authorizes : ExclusiveReservation → SelectedGateway → Bool
authorizes reservation gateway = reservation.gateway == gateway.gateway

pub record MappingEffect : Type 0 where
  pub protocol : RouterProtocol
  pub outcome : TraversalOutcome
  pub cleanup : TraversalCleanup
  pub error : Option TraversalErrorClass
  pub refusal : Option MappingRefusal
  pub handle : Option OwnedMappingHandle
  pub granted_lifetime_sec : Option ℕ
  pub epoch : Option ℕ
  pub assigned_port : Option ℕ
  pub port_changed : Bool
  pub lease_clamped : Bool
  pub gateway_rebooted : Bool
  pub requests_sent : ℕ

abbrev pub blank : RouterProtocol → MappingEffect
blank protocol = record {
  protocol = protocol;
  outcome = TraversalOutcome.failed;
  cleanup = TraversalCleanup.not_created;
  error = none;
  refusal = none;
  handle = none;
  granted_lifetime_sec = none;
  epoch = none;
  assigned_port = none;
  port_changed = false;
  lease_clamped = false;
  gateway_rebooted = false;
  requests_sent = 0;
}

unfoldable pub local_outcome : MappingRefusal → TraversalOutcome
local_outcome MappingRefusal.missing_reservation = TraversalOutcome.unsupported_safe_ownership
local_outcome MappingRefusal.reservation_gateway_mismatch =
    TraversalOutcome.unsupported_safe_ownership
local_outcome MappingRefusal.ambiguous_ownership = TraversalOutcome.unsupported_safe_ownership
local_outcome MappingRefusal.low_port = TraversalOutcome.unsupported_safe_ownership
local_outcome MappingRefusal.bad_lifetime_ceiling = TraversalOutcome.unsupported_finite_lease
local_outcome _ = TraversalOutcome.failed

abbrev pub local_refusal : RouterProtocol → MappingRefusal → MappingEffect
local_refusal protocol refusal = record (blank protocol) {
  refusal = some refusal;
  outcome = local_outcome refusal;
  cleanup = TraversalCleanup.not_created;
}

abbrev pub lost : RouterProtocol → ℕ → MappingRefusal → TraversalErrorClass → MappingEffect
lost protocol sent refusal error = record (blank protocol) {
  outcome = TraversalOutcome.creation_outcome_unknown;
  cleanup = TraversalCleanup.expiry_unknown;
  refusal = some refusal;
  error = some error;
  requests_sent = sent;
}

abbrev pub explicit : MappingEffect → MappingRefusal → TraversalErrorClass → MappingEffect
explicit effect refusal error = record effect {
  outcome = TraversalOutcome.failed;
  cleanup = TraversalCleanup.not_created;
  refusal = some refusal;
  error = some error;
  handle = none;
}

unfoldable pub lease_ceiling : ℕ → Option ℕ
lease_ceiling maximum =
    if leb mapping_requested_lease_sec maximum && leb maximum mapping_maximum_lease_sec
    then some maximum
    else none

abbrev pub has_rebooted : Option ℕ → ℕ → Bool
has_rebooted none epoch = false
has_rebooted (some previous) epoch = ltb epoch previous

unfoldable pub transport_refusal : ControlRefusal → MappingRefusal
transport_refusal ControlRefusal.cancelled = MappingRefusal.cancelled
transport_refusal ControlRefusal.oversize = MappingRefusal.malformed
transport_refusal ControlRefusal.bounded = MappingRefusal.malformed
transport_refusal ControlRefusal.unsupported = MappingRefusal.lost_response
transport_refusal ControlRefusal.wrong_target = MappingRefusal.lost_response

unfoldable pub transport_error : ControlRefusal → TraversalErrorClass
transport_error ControlRefusal.cancelled = TraversalErrorClass.timeout
transport_error ControlRefusal.bounded = TraversalErrorClass.timeout
transport_error _ = TraversalErrorClass.invalid_response

-- What a fault of the decoder is reported as.
unfoldable pub fault_refusal : DecodeFault → MappingRefusal
fault_refusal DecodeFault.truncated = MappingRefusal.truncated
fault_refusal _ = MappingRefusal.malformed

-- What one exchange meets: the answer of the caller's own check of `cancelled`, those within the
-- exchange, and the transport.
pub record Turn : Type 0 where
  pub stopped : Bool
  pub cancelled : Cancelled
  pub transport : SocketAddr → Bytes → ℕ → Reply

-- A request that was handed to the transport, and where to.
abbrev pub Sent : Type 0
Sent = SocketAddr × Bytes

module _ (parse_url : Bytes → Option Url) where
  -- `exchange_with_gateway` with no location, and what it sends.
  unfoldable pub exchange :
      SelectedGateway → RouterProtocol → Bytes → Turn → Result ControlRefusal Bytes × List Sent
  exchange gateway protocol request turn =
      let (result, sent) =
        exchange_with_gateway parse_url turn.transport gateway protocol none request
          turn.cancelled in
      (result, map (λ destination. (destination, request)) sent)
