-- ===== src/Mapping/Tests.antt =====
-- Mappings asked of a gateway at 192.0.2.1, for port 40000 of the client at 192.0.2.10.
use liskov_runtime_cargo.Prelude.{
  ℕ, ◌≤◌, ◌≡◌, ◌⊎◌, refl, arith, true, false, Option, none, some, List, [], ◌∷◌, Bytes, codes,
  replicate, length, bytes_eq, to_be_bytes, from_be_bytes,
}
use liskov_runtime_cargo.Prelude.Result.{ok}
use liskov_runtime_cargo.Gateway.Routes.{SelectedGateway}
use liskov_runtime_cargo.Gateway.Control.{pcp, Url, control_destination, exchange_with_gateway}
use liskov_runtime_cargo.Traversal.Outcomes.{TraversalOutcome, TraversalCleanup}
use liskov_runtime_cargo.Mapping.Packets.{
  udp, Parsed, decode_pcp, decode_natpmp, pcp_class, natpmp_class, encode_pcp, encode_natpmp,
  parse_pcp, parse_natpmp, mapped_ipv4, usable_ipv4,
}
use liskov_runtime_cargo.Mapping.Packets.Replies.{
  Reply, pcp_reply, natpmp_reply, pcp_read, echoed, decode_pcp-encode_pcp, decode_pcp-pcp_reply,
}
use liskov_runtime_cargo.Mapping.Effects.{
  OwnedMappingHandle, ExclusiveReservation, MappingEffect, Turn, Sent, exchange, lease_ceiling,
  blank,
}
use liskov_runtime_cargo.Mapping.Delete.{
  delete_packet_for, delete_packet, decode_for, answers, class_for, delete_begun, delete_answered,
  delete_ended, send_delete, delete_owned_mapping,
}
use liskov_runtime_cargo.Mapping.Delete.Confirmed.{control_port}
use liskov_runtime_cargo.Mapping.Delete.Owned.{IsDeletable, delete_owned_mapping-Sends}
use liskov_runtime_cargo.Mapping.Delete.Reported.{IsPlainSuccess}
use liskov_runtime_cargo.Mapping.Create.{
  PcpMap, NatPmpMap, pcp_parts, pcp_request, pcp_matches, natpmp_parts, natpmp_request,
  natpmp_matches, answered, adopt_or_refuse, classified, create_answered, exchange_create,
  map_nat_pmp,
}
use liskov_runtime_cargo.Mapping.Create.Leases.{IsCreated}
use liskov_runtime_cargo.Mapping.Create.Succeeded.{IsNatPmpRequest, map_nat_pmp-IsCreated}
use liskov_runtime_cargo.Mapping.Create.Sends.{IsSequence, exchange_create-IsSequence}
use liskov_runtime_cargo.Mapping.Create.Overlong.{adopt_or_refuse-overlong}

abbrev pub no_url : Bytes → Option Url
no_url location = none

abbrev pub router : SelectedGateway
router = record { gateway = 3221225985; interface_index = 2; interface_name = codes "wlan0" }

abbrev pub client : ℕ
client = 3221225994

abbrev pub public_address : ℕ
public_address = 3325256705

abbrev pub nonce : Bytes
nonce = codes "nonce-bytes!"

abbrev reservation : ExclusiveReservation
reservation = record { gateway = 3221225985; digest = replicate 32 9 }

abbrev pub grant : ℕ → Reply
grant lifetime = record {
  result = 0;
  lifetime = lifetime;
  epoch = 77;
  port_protocol = udp;
  internal_port = 40_000;
  external_port = 41_000;
  external_address = public_address;
}

-- A turn in which the transport answers with the bytes, and nobody cancels.
abbrev answering : Bytes → Turn
answering bytes = record {
  stopped = false;
  cancelled = record { before = false; after = false };
  transport = λ destination request room. ok (length bytes, bytes);
}

abbrev pcp_turn : ℕ → Turn
pcp_turn lifetime = answering (pcp_reply (grant lifetime) nonce)

abbrev natpmp_turn : ℕ → Turn
natpmp_turn lifetime = answering (natpmp_reply (grant lifetime))

abbrev pcp_input : ℕ → PcpMap
pcp_input maximum = record {
  local_address = client;
  internal_port = 40_000;
  protocol = udp;
  nonce = nonce;
  maximum_lease_sec = maximum;
  previous_epoch = some 70;
  exclusive_reservation = some reservation;
}

abbrev natpmp_input : NatPmpMap
natpmp_input = record {
  internal_port = 40_000;
  protocol = udp;
  maximum_lease_sec = 120;
  previous_epoch = some 70;
  exclusive_reservation = some reservation;
}

decode_pcp-pcp_reply_example :
    decode_pcp (pcp_reply (grant 60) nonce) ≡ ok (pcp_read (grant 60) nonce)
decode_pcp-pcp_reply_example = decode_pcp-pcp_reply (grant 60) nonce (omega arith) refl

decode_pcp-encode_pcp_example :
    decode_pcp (encode_pcp client 17 40_000 40_000 nonce 60) ≡ ok (echoed 17 40_000 40_000 nonce 60)
decode_pcp-encode_pcp_example =
    decode_pcp-encode_pcp client 17 40_000 40_000 nonce 60 (omega arith) (omega arith) (omega arith)
      refl

mapped_natpmp :
    (map_nat_pmp no_url router natpmp_input (natpmp_turn 60) (natpmp_turn 0)).0.outcome
    ≡ TraversalOutcome.succeeded
unfolding map_nat_pmp exchange_create create_answered classified adopt_or_refuse exchange
    exchange_with_gateway control_destination decode_natpmp encode_natpmp parse_natpmp natpmp_class
    lease_ceiling to_be_bytes from_be_bytes
mapped_natpmp = refl

map_nat_pmp-IsCreated_example :
    (r : ExclusiveReservation) × IsNatPmpRequest no_url router natpmp_input r
    × IsCreated no_url router
        (natpmp_parts natpmp_input r 120)
        (natpmp_request natpmp_input)
        (natpmp_turn 60)
        decode_natpmp
        (natpmp_matches natpmp_input)
        natpmp_class
        (map_nat_pmp no_url router natpmp_input (natpmp_turn 60) (natpmp_turn 0)).0
map_nat_pmp-IsCreated_example =
    map_nat_pmp-IsCreated no_url router natpmp_input (natpmp_turn 60) (natpmp_turn 0) mapped_natpmp

exchange_create-IsSequence_example :
    let (effect, sent) =
      exchange_create no_url
        (pcp_parts (pcp_input 60) router 60)
        router
        (pcp_request (pcp_input 60))
        (pcp_turn 100)
        (pcp_turn 0)
        decode_pcp
        (pcp_matches (pcp_input 60))
        pcp_class in
    IsSequence no_url router
      (pcp_parts (pcp_input 60) router 60)
      refl
      (pcp_request (pcp_input 60))
      sent
    × (length sent ≤ effect.requests_sent)
    × (effect.requests_sent ≤ 2)
exchange_create-IsSequence_example =
    exchange_create-IsSequence no_url router (pcp_parts (pcp_input 60) router 60) refl
      (pcp_request (pcp_input 60)) (pcp_turn 100) (pcp_turn 0) decode_pcp
      (pcp_matches (pcp_input 60)) pcp_class

abbrev handle : OwnedMappingHandle
handle = record {
  protocol = pcp;
  port_protocol = udp;
  internal_port = 40_000;
  external_port = 41_000;
  client = client;
  granted_lifetime_sec = 60;
  epoch = 77;
  nonce = some nonce;
  reservation_digest = some (replicate 32 9);
  cleanup_authorized = true;
  external_address = some public_address;
}

abbrev no_upnp : OwnedMappingHandle → MappingEffect × List Sent
no_upnp h = (blank h.protocol, [])

abbrev deletion : MappingEffect × List Sent
deletion =
    delete_owned_mapping no_url no_upnp router handle (some reservation) (some 77) (pcp_turn 0)

delete_owned_mapping-Sends_example :
    ((deletion.1 ≡ [])
      ⊎ ((deletion.1 ≡ (control_port router, delete_packet handle) ∷ [])
          × IsDeletable handle router (some reservation)))
    × (length deletion.1 ≤ deletion.0.requests_sent)
    × (deletion.0.requests_sent ≤ 1)
delete_owned_mapping-Sends_example =
    delete_owned_mapping-Sends no_url no_upnp router handle (some reservation) (some 77)
      (pcp_turn 0) refl

-- A grant of 100 seconds under a ceiling of 60.
abbrev overlong : Parsed
overlong = pcp_read (grant 100) nonce

given_back :
    (adopt_or_refuse no_url
      (answered (pcp_parts (pcp_input 60) router 60) overlong)
      (pcp_parts (pcp_input 60) router 60)
      overlong
      router
      (pcp_turn 0)).0.cleanup
    ≡ TraversalCleanup.confirmed_deleted
unfolding adopt_or_refuse send_delete delete_begun delete_ended delete_answered answers class_for
    decode_for delete_packet_for exchange exchange_with_gateway control_destination decode_pcp
    encode_pcp parse_pcp mapped_ipv4 usable_ipv4 pcp_class bytes_eq to_be_bytes from_be_bytes
given_back = refl

adopt_or_refuse-overlong_example :
    IsPlainSuccess
      (adopt_or_refuse no_url
        (answered (pcp_parts (pcp_input 60) router 60) overlong)
        (pcp_parts (pcp_input 60) router 60)
        overlong
        router
        (pcp_turn 0)).0
unfolding usable_ipv4
adopt_or_refuse-overlong_example =
    adopt_or_refuse-overlong no_url router (pcp_parts (pcp_input 60) router 60) overlong
      (pcp_turn 0) refl refl (omega arith) (omega arith) given_back
