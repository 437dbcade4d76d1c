-- ===== src/Mapping/Delete.antt =====
-- The deletion of a mapping: `send_delete`, `delete_packet`, `delete_allowed` and
-- `delete_owned_mapping` of src/network_traversal/mapping.rs. The deletion by UPnP is a parameter.
pub mod Confirmed
pub mod Owned
pub mod Reported
use liskov_runtime_cargo.Prelude.{
  is_some, ℕ, Bool, true, false, not, ◌&&◌, ◌||◌, Option, none, some, List, [], Bytes, bytes_eq,
  ◌==◌, ltb, leb, if◌then◌else◌, replicate, saturating_add, u8_max,
}
use liskov_runtime_cargo.Prelude.Result.{Result, ok, err}
use liskov_runtime_cargo.Gateway.Routes.{SelectedGateway}
use liskov_runtime_cargo.Gateway.Control.{RouterProtocol, pcp, nat_pmp, upnp_igd, Url}
use liskov_runtime_cargo.Traversal.Outcomes.{
  TraversalOutcome, TraversalErrorClass, TraversalCleanup,
}
use liskov_runtime_cargo.Mapping.Packets.{
  MappedPortProtocol, tcp, udp, pcp_number, natpmp_opcode, from_natpmp, DecodeFault, ServerClass,
  success, failed, Parsed, encode_pcp, encode_natpmp, decode_pcp, decode_natpmp, pcp_class,
  natpmp_class, mapping_maximum_lease_sec,
}
use liskov_runtime_cargo.Mapping.Effects.{
  MappingRefusal, OwnedMappingHandle, ExclusiveReservation, authorizes, MappingEffect, blank,
  has_rebooted, transport_refusal, Turn, Sent, exchange,
}

abbrev same_port_protocol : MappedPortProtocol → MappedPortProtocol → Bool
same_port_protocol tcp tcp = true
same_port_protocol udp udp = true
same_port_protocol _ _ = false

abbrev pub same_protocol : Option MappedPortProtocol → MappedPortProtocol → Bool
same_protocol none p = false
same_protocol (some q) p = same_port_protocol q p

abbrev pub same_nonce : Option Bytes → Option Bytes → Bool
same_nonce none none = true
same_nonce (some a) (some b) = bytes_eq a b
same_nonce _ _ = false

abbrev pub nonce_or_zero : Option Bytes → Bytes
nonce_or_zero none = replicate 12 0
nonce_or_zero (some nonce) = nonce

-- The packet of `delete_packet` for a protocol; UPnP has none here.
unfoldable pub delete_packet_for : RouterProtocol → OwnedMappingHandle → Bytes
delete_packet_for pcp h =
    encode_pcp h.client (pcp_number h.port_protocol) h.internal_port h.external_port
      (nonce_or_zero h.nonce) 0
delete_packet_for nat_pmp h = encode_natpmp (natpmp_opcode h.port_protocol) h.internal_port 0 0
delete_packet_for upnp_igd h = []

abbrev pub delete_packet : OwnedMappingHandle → Bytes
delete_packet h = delete_packet_for h.protocol h

unfoldable pub decode_for : RouterProtocol → Bytes → Result DecodeFault Parsed
decode_for pcp body = decode_pcp body
decode_for nat_pmp body = decode_natpmp body
decode_for upnp_igd body = err DecodeFault.malformed

-- `matches`: the reply answers a MAP request for this mapping.
unfoldable pub answers : RouterProtocol → OwnedMappingHandle → Parsed → Bool
answers pcp h parsed =
    parsed.version_ok
    && parsed.opcode_ok
    && same_nonce parsed.nonce h.nonce
    && parsed.internal_port == h.internal_port
    && parsed.protocol == pcp_number h.port_protocol
answers nat_pmp h parsed =
    parsed.version_ok
    && parsed.opcode_ok
    && parsed.internal_port == h.internal_port
    && same_protocol (from_natpmp parsed.protocol) h.port_protocol
answers upnp_igd h parsed = false

unfoldable pub class_for : RouterProtocol → ℕ → ServerClass
class_for pcp code = pcp_class code
class_for nat_pmp code = natpmp_class code
class_for upnp_igd code = failed

abbrev pub is_success : ServerClass → Bool
is_success success = true
is_success _ = false

abbrev pub is_finite : ℕ → Bool
is_finite lifetime = leb 1 lifetime && leb lifetime mapping_maximum_lease_sec

-- The effect before the request: what is known of the grant, refused if it is zero or overlong.
unfoldable pub delete_begun : OwnedMappingHandle → ℕ → MappingEffect
delete_begun h already_sent =
    let effect = record (blank h.protocol) {
      handle = some h;
      requests_sent = already_sent;
      granted_lifetime_sec = some h.granted_lifetime_sec;
      assigned_port = some h.external_port;
      epoch = some h.epoch;
    } in
    if h.granted_lifetime_sec == 0 || ltb mapping_maximum_lease_sec h.granted_lifetime_sec
    then record effect {
      outcome = TraversalOutcome.unsupported_finite_lease;
      refusal = some MappingRefusal.overlong_or_zero_grant;
      error = some TraversalErrorClass.lease_refused;
    }
    else effect

abbrev unconfirmed : MappingEffect → MappingRefusal → MappingEffect
unconfirmed effect refusal = record effect {
  outcome = TraversalOutcome.expiry_unknown;
  cleanup = TraversalCleanup.expiry_unknown;
  refusal = some refusal;
  error = some TraversalErrorClass.cleanup_failed;
}

-- No refusal yet: the deletion is the whole result.
abbrev confirmed_outcome : Option MappingRefusal → TraversalOutcome → TraversalOutcome
confirmed_outcome none outcome = TraversalOutcome.succeeded
confirmed_outcome (some refusal) outcome = outcome

-- The effect of a reply that was decoded.
unfoldable pub delete_answered :
    OwnedMappingHandle → Option ℕ → MappingEffect → Parsed → MappingEffect
delete_answered h previous_epoch effect parsed =
    let moved = has_rebooted previous_epoch parsed.epoch in
    let known = record effect { epoch = some parsed.epoch } in
    if not (answers h.protocol h parsed) || moved
    then record (unconfirmed known
        (if moved then MappingRefusal.rebooted else MappingRefusal.ambiguous_ownership)) {
          gateway_rebooted = moved;
        }
    else (if is_success (class_for h.protocol parsed.result) && parsed.lifetime == 0
        then record known {
          cleanup = TraversalCleanup.confirmed_deleted;
          outcome = confirmed_outcome known.refusal known.outcome;
          error = none;
        }
        else record known {
          cleanup = TraversalCleanup.delete_failed;
          refusal = some MappingRefusal.denied;
          error = some TraversalErrorClass.cleanup_failed;
        })

abbrev delete_cancelled : OwnedMappingHandle → ℕ → MappingEffect → MappingEffect
delete_cancelled h already_sent effect =
    if already_sent == 0 && is_finite h.granted_lifetime_sec
    then record effect {
      outcome = TraversalOutcome.failed;
      cleanup = TraversalCleanup.lease_expiry_pending;
      refusal = some MappingRefusal.cancelled;
    }
    else record effect {
      outcome = TraversalOutcome.expiry_unknown;
      cleanup = TraversalCleanup.expiry_unknown;
      refusal = some MappingRefusal.cancelled;
    }

-- What the body of a reply, or its loss, makes of the effect.
unfoldable pub delete_ended :
    OwnedMappingHandle → Option ℕ → MappingEffect → Result MappingRefusal Bytes → MappingEffect
delete_ended h previous_epoch effect (err refusal) = unconfirmed effect refusal
delete_ended h previous_epoch effect (ok body) = elim (decode_for h.protocol body) [
  | err fault ↦ unconfirmed effect MappingRefusal.truncated
  | ok parsed ↦ delete_answered h previous_epoch effect parsed
]

-- `reservation.is_some_and(…)` for a digest that the handle holds.
abbrev pub holds : SelectedGateway → Option ExclusiveReservation → Bytes → Bool
holds gateway none digest = false
holds gateway (some reservation) digest =
    authorizes reservation gateway && bytes_eq reservation.digest digest

unfoldable pub delete_allowed_for :
    RouterProtocol → Option Bytes → SelectedGateway → Option ExclusiveReservation → Bool
delete_allowed_for pcp none gateway reservation = true
delete_allowed_for _ (some digest) gateway reservation = holds gateway reservation digest
delete_allowed_for _ none gateway reservation = false

unfoldable pub delete_allowed :
    OwnedMappingHandle → SelectedGateway → Option ExclusiveReservation → Bool
delete_allowed h gateway reservation =
    if not h.cleanup_authorized
    then false
    else delete_allowed_for h.protocol h.reservation_digest gateway reservation

abbrev pub delete_refused : OwnedMappingHandle → MappingEffect
delete_refused h = record (blank h.protocol) {
  outcome = TraversalOutcome.unsupported_safe_ownership;
  cleanup = TraversalCleanup.expiry_unknown;
  refusal = some MappingRefusal.ambiguous_ownership;
  handle = some h;
}

abbrev pub is_upnp : RouterProtocol → Bool
is_upnp upnp_igd = true
is_upnp _ = false

module _ (parse_url : Bytes → Option Url) where
  unfoldable pub send_delete :
      OwnedMappingHandle → SelectedGateway → Bytes → Option ℕ → Turn → ℕ → MappingEffect × List Sent
  send_delete h gateway request previous_epoch turn already_sent =
      let begun = delete_begun h already_sent in
      let sending = record begun { requests_sent = saturating_add u8_max already_sent 1 } in
      if turn.stopped
      then (delete_cancelled h already_sent begun, [])
      else (let (result, sent) = exchange parse_url gateway h.protocol request turn in
          elim result [
            | err error ↦
                (delete_ended h previous_epoch sending (err (transport_refusal error)), sent)
            | ok body ↦ (delete_ended h previous_epoch sending (ok body), sent)
          ])

  unfoldable pub delete_owned_mapping :
      (OwnedMappingHandle → MappingEffect × List Sent)
      → SelectedGateway
      → OwnedMappingHandle
      → Option ExclusiveReservation
      → Option ℕ
      → Turn
      → MappingEffect × List Sent
  delete_owned_mapping upnp_delete gateway h reservation previous_epoch turn =
      if not (delete_allowed h gateway reservation)
      then (delete_refused h, [])
      else (if is_upnp h.protocol
          then upnp_delete h
          else send_delete h gateway (delete_packet h) previous_epoch turn 0)
