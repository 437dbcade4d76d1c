-- ===== src/Mapping/Create.antt =====
-- The creation of a mapping: `map_pcp`, `map_nat_pmp`, `exchange_create` and `adopt_or_refuse` of
-- src/network_traversal/mapping.rs. A creation makes at most two exchanges: its own, and a deletion.
pub mod Leases
pub mod Succeeded
pub mod Sends
pub mod Overlong
use liskov_runtime_cargo.Prelude.{
  ℕ, Bool, true, false, not, ◌&&◌, ◌||◌, Option, none, some, List, [], ◌++◌, Bytes, bytes_eq, ◌==◌,
  ltb, leb, if◌then◌else◌, replicate,
}
use liskov_runtime_cargo.Prelude.Result.{Result, ok, err}
use liskov_runtime_cargo.Gateway.Routes.{SelectedGateway}
use liskov_runtime_cargo.Gateway.Control.{RouterProtocol, pcp, nat_pmp, Url}
use liskov_runtime_cargo.Traversal.Outcomes.{
  TraversalOutcome, TraversalErrorClass, TraversalCleanup,
}
use liskov_runtime_cargo.Mapping.Packets.{
  MappedPortProtocol, pcp_number, natpmp_opcode, DecodeFault, ServerClass, success, denied,
  unsupported, conflict, failed, Parsed, encode_pcp, encode_natpmp, decode_pcp, decode_natpmp,
  pcp_class, natpmp_class, mapping_requested_lease_sec, mapping_high_port_min, usable_ipv4,
}
use liskov_runtime_cargo.Mapping.Effects.{
  MappingRefusal, OwnedMappingHandle, ExclusiveReservation, authorizes, MappingEffect, blank,
  local_refusal, lost, explicit, lease_ceiling, has_rebooted, transport_refusal, transport_error,
  fault_refusal, Turn, Sent, exchange,
}
use liskov_runtime_cargo.Mapping.Delete.{same_nonce, delete_packet, send_delete}

pub record MapParts : Type 0 where
  pub protocol : RouterProtocol
  pub port_protocol : MappedPortProtocol
  pub internal_port : ℕ
  pub client : ℕ
  pub previous_epoch : Option ℕ
  pub ceiling : ℕ
  pub reservation_authorizes_delete : Bool
  pub nonce : Option Bytes
  pub digest : Option Bytes

pub record PcpMap : Type 0 where
  pub local_address : ℕ
  pub internal_port : ℕ
  pub protocol : MappedPortProtocol
  pub nonce : Bytes
  pub maximum_lease_sec : ℕ
  pub previous_epoch : Option ℕ
  pub exclusive_reservation : Option ExclusiveReservation

pub record NatPmpMap : Type 0 where
  pub internal_port : ℕ
  pub protocol : MappedPortProtocol
  pub maximum_lease_sec : ℕ
  pub previous_epoch : Option ℕ
  pub exclusive_reservation : Option ExclusiveReservation

abbrev pub correlated_handle : MapParts → ℕ → ℕ → ℕ → Bool → OwnedMappingHandle
correlated_handle parts external_port lifetime epoch cleanup_authorized = record {
  protocol = parts.protocol;
  port_protocol = parts.port_protocol;
  internal_port = parts.internal_port;
  external_port = external_port;
  client = parts.client;
  granted_lifetime_sec = lifetime;
  epoch = epoch;
  nonce = parts.nonce;
  reservation_digest = parts.digest;
  cleanup_authorized = cleanup_authorized;
  external_address = none;
}

-- `(1..=parts.ceiling).contains(&parsed.lifetime)`.
abbrev pub within : ℕ → ℕ → Bool
within ceiling lifetime = leb 1 lifetime && leb lifetime ceiling

abbrev pub lacks_address : RouterProtocol → Option ℕ → Bool
lacks_address pcp none = true
lacks_address _ _ = false

abbrev creation_unknown : MappingEffect → MappingEffect
creation_unknown effect = record effect {
  outcome = TraversalOutcome.creation_outcome_unknown;
  cleanup = TraversalCleanup.expiry_unknown;
  refusal = some MappingRefusal.malformed;
  error = some TraversalErrorClass.invalid_response;
}

-- The effect of a reply to the creation, before it is classified.
abbrev pub answered : MapParts → Parsed → MappingEffect
answered parts parsed = record (blank parts.protocol) {
  requests_sent = 1;
  epoch = some parsed.epoch;
  granted_lifetime_sec = some parsed.lifetime;
  assigned_port = some parsed.assigned_port;
}

-- A grant within the ceiling, adopted.
abbrev pub adopted : MapParts → Parsed → MappingEffect → MappingEffect
adopted parts parsed effect =
    let h = correlated_handle parts parsed.assigned_port parsed.lifetime parsed.epoch true in
    record effect {
      outcome = TraversalOutcome.succeeded;
      cleanup = TraversalCleanup.lease_expiry_pending;
      refusal = none;
      error = none;
      handle = some (record h { external_address = parsed.assigned_ip });
      port_changed = not (parsed.assigned_port == parts.internal_port);
      lease_clamped = ltb parsed.lifetime mapping_requested_lease_sec;
    }

abbrev adoption_refused : OwnedMappingHandle → MappingEffect → MappingEffect
adoption_refused h effect = record effect {
  handle = some h;
  outcome = TraversalOutcome.unsupported_safe_ownership;
  cleanup = TraversalCleanup.expiry_unknown;
  refusal = some MappingRefusal.ambiguous_ownership;
  error = some TraversalErrorClass.lease_refused;
}

-- The effects of a reply that is no response of this protocol, or a refusal.
unfoldable pub not_a_response : MappingEffect → Parsed → Bool → MappingEffect
not_a_response effect parsed moved =
    let refused = record effect {
      refusal = some MappingRefusal.protocol_unsupported;
      error = some TraversalErrorClass.invalid_response;
      gateway_rebooted = moved;
    } in
    if parsed.result == 0
    then record refused {
      outcome = TraversalOutcome.creation_outcome_unknown;
      cleanup = TraversalCleanup.expiry_unknown;
    }
    else record refused {
      outcome = TraversalOutcome.failed;
      cleanup = TraversalCleanup.not_created;
    }

abbrev marked : Bool → MappingEffect → MappingEffect
marked moved effect = record effect { gateway_rebooted = moved }

abbrev not_adopted : MapParts → Parsed → MappingEffect → MappingEffect
not_adopted parts parsed effect = record effect {
  gateway_rebooted = true;
  outcome = TraversalOutcome.expiry_unknown;
  cleanup = TraversalCleanup.expiry_unknown;
  refusal = some MappingRefusal.rebooted;
  handle = some (correlated_handle parts parsed.assigned_port parsed.lifetime parsed.epoch false);
}

abbrev pub is_zero_nonce : Bytes → Bool
is_zero_nonce nonce = bytes_eq nonce (replicate 12 0)

abbrev pub reservation_ok : Option ExclusiveReservation → SelectedGateway → Bool
reservation_ok none gateway = false
reservation_ok (some reservation) gateway = authorizes reservation gateway

abbrev reservation_digest : Option ExclusiveReservation → SelectedGateway → Option Bytes
reservation_digest none gateway = none
reservation_digest (some reservation) gateway =
    if authorizes reservation gateway then some reservation.digest else none

abbrev pub pcp_parts : PcpMap → SelectedGateway → ℕ → MapParts
pcp_parts input gateway ceiling = record {
  protocol = pcp;
  port_protocol = input.protocol;
  internal_port = input.internal_port;
  client = input.local_address;
  previous_epoch = input.previous_epoch;
  ceiling = ceiling;
  reservation_authorizes_delete = reservation_ok input.exclusive_reservation gateway;
  nonce = some input.nonce;
  digest = reservation_digest input.exclusive_reservation gateway;
}

abbrev pub pcp_request : PcpMap → Bytes
pcp_request input =
    encode_pcp input.local_address (pcp_number input.protocol) input.internal_port
      input.internal_port input.nonce mapping_requested_lease_sec

abbrev pub pcp_matches : PcpMap → Parsed → Bool
pcp_matches input parsed =
    same_nonce parsed.nonce (some input.nonce)
    && parsed.protocol == pcp_number input.protocol
    && parsed.internal_port == input.internal_port

abbrev pub natpmp_parts : NatPmpMap → ExclusiveReservation → ℕ → MapParts
natpmp_parts input reservation ceiling = record {
  protocol = nat_pmp;
  port_protocol = input.protocol;
  internal_port = input.internal_port;
  client = 0;
  previous_epoch = input.previous_epoch;
  ceiling = ceiling;
  reservation_authorizes_delete = true;
  nonce = none;
  digest = some reservation.digest;
}

abbrev pub natpmp_request : NatPmpMap → Bytes
natpmp_request input =
    encode_natpmp (natpmp_opcode input.protocol) input.internal_port input.internal_port
      mapping_requested_lease_sec

abbrev pub natpmp_matches : NatPmpMap → Parsed → Bool
natpmp_matches input parsed =
    parsed.protocol == natpmp_opcode input.protocol && parsed.internal_port == input.internal_port

module _ (parse_url : Bytes → Option Url) where
  unfoldable pub adopt_or_refuse :
      MappingEffect → MapParts → Parsed → SelectedGateway → Turn → MappingEffect × List Sent
  adopt_or_refuse effect parts parsed gateway turn =
      let finite = within parts.ceiling parsed.lifetime in
      let authorized = parts.reservation_authorizes_delete in
      let h =
        correlated_handle parts parsed.assigned_port parsed.lifetime parsed.epoch authorized in
      if lacks_address parts.protocol parsed.assigned_ip
      then (creation_unknown effect, [])
      else (if parsed.assigned_port == 0 && finite
          then (record (creation_unknown effect) { handle = none }, [])
          else (if not finite
              then (if not authorized
                  then (adoption_refused h effect, [])
                  else send_delete parse_url h gateway (delete_packet h) (some parsed.epoch) turn
                      effect.requests_sent)
              else (adopted parts parsed effect, [])))

  -- What a response of the given class comes to.
  unfoldable pub classified :
      ServerClass → MapParts → Parsed → SelectedGateway → Turn → MappingEffect × List Sent
  classified denied parts parsed gateway turn =
      let moved = has_rebooted parts.previous_epoch parsed.epoch in
      (
        marked moved (
            explicit (answered parts parsed) MappingRefusal.denied
              TraversalErrorClass.token_refused),
        [],
      )
  classified unsupported parts parsed gateway turn =
      let moved = has_rebooted parts.previous_epoch parsed.epoch in
      (
        marked moved (
            explicit (answered parts parsed) MappingRefusal.protocol_unsupported
              TraversalErrorClass.invalid_response),
        [],
      )
  classified conflict parts parsed gateway turn =
      let moved = has_rebooted parts.previous_epoch parsed.epoch in
      (
        marked moved (
            explicit (answered parts parsed) MappingRefusal.conflict
              TraversalErrorClass.mapping_conflict),
        [],
      )
  classified failed parts parsed gateway turn =
      let moved = has_rebooted parts.previous_epoch parsed.epoch in
      (
        marked moved (
            explicit (answered parts parsed) MappingRefusal.denied
              TraversalErrorClass.invalid_response),
        [],
      )
  classified success parts parsed gateway turn =
      let moved = has_rebooted parts.previous_epoch parsed.epoch in
      let (effect, sent) = adopt_or_refuse (answered parts parsed) parts parsed gateway turn in
      if moved && within parts.ceiling parsed.lifetime && not (parsed.assigned_port == 0)
      then (not_adopted parts parsed (answered parts parsed), [])
      else (marked (effect.gateway_rebooted || moved) effect, sent)

  -- What a reply that was decoded comes to; `matches` is whether it correlates with the request.
  unfoldable pub create_answered :
      MapParts
      → SelectedGateway
      → Turn
      → (ℕ → ServerClass)
      → Parsed
      → Bool
      → MappingEffect × List Sent
  create_answered parts gateway turn class parsed matches =
      let moved = has_rebooted parts.previous_epoch parsed.epoch in
      if not matches
      then (
        lost parts.protocol 1 MappingRefusal.replay_or_mismatch
            TraversalErrorClass.invalid_response,
        [],
      )
      else (if not parsed.version_ok || not parsed.opcode_ok
          then (not_a_response (answered parts parsed) parsed moved, [])
          else classified (class parsed.result) parts parsed gateway turn)

  -- The two turns are those of the creation and of the deletion.
  unfoldable pub exchange_create :
      MapParts
      → SelectedGateway
      → Bytes
      → Turn
      → Turn
      → (Bytes → Result DecodeFault Parsed)
      → (Parsed → Bool)
      → (ℕ → ServerClass)
      → MappingEffect × List Sent
  exchange_create parts gateway request creating deleting decode matches class =
      let (result, sent) = exchange parse_url gateway parts.protocol request creating in
      if creating.stopped
      then (local_refusal parts.protocol MappingRefusal.cancelled, [])
      else elim result [
        | err error ↦
            (lost parts.protocol 1 (transport_refusal error) (transport_error error), sent)
        | ok body ↦ elim (decode body) [
          | err fault ↦ (
            lost parts.protocol 1 (fault_refusal fault) TraversalErrorClass.invalid_response,
            sent,
          )
          | ok parsed ↦
              let (effect, more) =
                create_answered parts gateway deleting class parsed (matches parsed) in
              (effect, sent ++ more)
        ]
      ]

  unfoldable pub map_pcp : SelectedGateway → PcpMap → Turn → Turn → MappingEffect × List Sent
  map_pcp gateway input creating deleting = elim (lease_ceiling input.maximum_lease_sec) [
    | none ↦ (local_refusal pcp MappingRefusal.bad_lifetime_ceiling, [])
    | some ceiling ↦
        if ltb input.internal_port mapping_high_port_min
        then (local_refusal pcp MappingRefusal.low_port, [])
        else (if not (usable_ipv4 input.local_address)
            then (local_refusal pcp MappingRefusal.bad_client_address, [])
            else (if is_zero_nonce input.nonce
                then (local_refusal pcp MappingRefusal.trivial_nonce, [])
                else exchange_create (pcp_parts input gateway ceiling) gateway (pcp_request input)
                    creating deleting decode_pcp (pcp_matches input) pcp_class))
  ]

  unfoldable pub map_nat_pmp : SelectedGateway → NatPmpMap → Turn → Turn → MappingEffect × List Sent
  map_nat_pmp gateway input creating deleting = elim (lease_ceiling input.maximum_lease_sec) [
    | none ↦ (local_refusal nat_pmp MappingRefusal.bad_lifetime_ceiling, [])
    | some ceiling ↦
        if ltb input.internal_port mapping_high_port_min
        then (local_refusal nat_pmp MappingRefusal.low_port, [])
        else elim input.exclusive_reservation [
          | none ↦ (local_refusal nat_pmp MappingRefusal.missing_reservation, [])
          | some reservation ↦
              if not (authorizes reservation gateway)
              then (local_refusal nat_pmp MappingRefusal.reservation_gateway_mismatch, [])
              else exchange_create (natpmp_parts input reservation ceiling) gateway
                  (natpmp_request input) creating deleting decode_natpmp (natpmp_matches input)
                  natpmp_class
        ]
  ]
