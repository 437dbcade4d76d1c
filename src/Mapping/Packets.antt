-- ===== src/Mapping/Packets.antt =====
-- The PCP and NAT-PMP packets of src/network_traversal/mapping.rs: what is sent, and what is read. A
-- packet is its bytes; a nonce is its 12 bytes.
pub mod Replies
use Prim.Native.Nat.{bit_and}
use liskov_runtime_cargo.Prelude.{
  is_some, ℕ, ◌/◌, ◌^◌, ◌+◌, Bool, true, false, not, ◌&&◌, ◌||◌, Option, none, some, List, [], ◌∷◌,
  ◌++◌, Bytes, bytes_eq, ◌==◌, ltb, leb, if◌then◌else◌, length, get_or, take, drop, replicate,
  u32_max, to_be_bytes, from_be_bytes,
}
use liskov_runtime_cargo.Prelude.Result.{Result, ok, err}

abbrev pub mapping_requested_lease_sec : ℕ
mapping_requested_lease_sec = 60

abbrev pub mapping_maximum_lease_sec : ℕ
mapping_maximum_lease_sec = 120

abbrev pub mapping_high_port_min : ℕ
mapping_high_port_min = 1024

abbrev pub pcp_map_packet_bytes : ℕ
pcp_map_packet_bytes = 60

abbrev pub natpmp_map_request_bytes : ℕ
natpmp_map_request_bytes = 12

abbrev pub natpmp_map_response_bytes : ℕ
natpmp_map_response_bytes = 16

abbrev pub pcp_version : ℕ
pcp_version = 2

abbrev pub pcp_map_opcode : ℕ
pcp_map_opcode = 1

abbrev pub natpmp_version : ℕ
natpmp_version = 0

abbrev pub natpmp_udp : ℕ
natpmp_udp = 1

abbrev pub natpmp_tcp : ℕ
natpmp_tcp = 2

-- The response bit of both protocols, and the bits that it leaves.
abbrev pub response_bit : ℕ
response_bit = 0x80

abbrev pub other_bits : ℕ
other_bits = 0x7f

pub data MappedPortProtocol : Type 0 where
  tcp udp : MappedPortProtocol

-- `MappedPortProtocol::pcp`, the protocol's IP number.
abbrev pub pcp_number : MappedPortProtocol → ℕ
pcp_number tcp = 6
pcp_number udp = 17

-- `MappedPortProtocol::natpmp`.
abbrev pub natpmp_opcode : MappedPortProtocol → ℕ
natpmp_opcode tcp = natpmp_tcp
natpmp_opcode udp = natpmp_udp

abbrev pub from_natpmp : ℕ → Option MappedPortProtocol
from_natpmp value =
    if value == natpmp_tcp then some tcp else (if value == natpmp_udp then some udp else none)

pub data DecodeFault : Type 0 where
  truncated oversize malformed : DecodeFault

pub data ServerClass : Type 0 where
  success denied unsupported conflict failed : ServerClass

pub record Parsed : Type 0 where
  pub version_ok : Bool
  pub opcode_ok : Bool
  pub result : ℕ
  pub lifetime : ℕ
  pub epoch : ℕ
  pub protocol : ℕ
  pub internal_port : ℕ
  pub assigned_port : ℕ
  pub nonce : Option Bytes
  pub assigned_ip : Option ℕ

unfoldable pub usable_ipv4 : ℕ → Bool
usable_ipv4 addr =
    not (addr == 0)
    && not (addr == u32_max)
    && not (leb 224 (addr / 2 ^ 24) && leb (addr / 2 ^ 24) 239)
    && ltb (addr / 2 ^ 24) 240

abbrev pub ipv4_mapped : ℕ → Bytes
ipv4_mapped addr = replicate 10 0 ++ (0xff ∷ (0xff ∷ to_be_bytes 4 addr))

unfoldable pub mapped_ipv4 : Bytes → Option ℕ
mapped_ipv4 bytes =
    if not (length bytes == 16)
      || not (bytes_eq (take 10 bytes) (replicate 10 0))
      || not (bytes_eq (take 2 (drop 10 bytes)) (0xff ∷ 0xff ∷ []))
    then none
    else (let addr = from_be_bytes 0 (take 4 (drop 12 bytes)) in
        if usable_ipv4 addr then some addr else none)

abbrev pub byte_at : Bytes → ℕ → ℕ
byte_at bytes offset = get_or bytes offset 0

abbrev pub u16_at : Bytes → ℕ → ℕ
u16_at bytes offset = from_be_bytes 0 (byte_at bytes offset ∷ byte_at bytes (offset + 1) ∷ [])

abbrev pub u32_at : Bytes → ℕ → ℕ
u32_at bytes offset = from_be_bytes 0 (
    byte_at bytes offset
    ∷ byte_at bytes (offset + 1)
    ∷ byte_at bytes (offset + 2)
    ∷ byte_at bytes (offset + 3)
    ∷ [])

-- Bytes 0 to 3, the lifetime, the client's address, the nonce, the protocol and three zeros, the
-- ports, and 16 zeros.
unfoldable pub encode_pcp : ℕ → ℕ → ℕ → ℕ → Bytes → ℕ → Bytes
encode_pcp local protocol internal_port external_port nonce lifetime =
    (pcp_version ∷ pcp_map_opcode ∷ 0 ∷ 0 ∷ [])
    ++ (to_be_bytes 4 lifetime
        ++ (ipv4_mapped local
            ++ (nonce
                ++ ((protocol ∷ 0 ∷ 0 ∷ 0 ∷ [])
                    ++ (to_be_bytes 2 internal_port
                        ++ (to_be_bytes 2 external_port ++ replicate 16 0))))))

unfoldable pub encode_natpmp : ℕ → ℕ → ℕ → ℕ → Bytes
encode_natpmp opcode internal_port external_port lifetime =
    (natpmp_version ∷ opcode ∷ 0 ∷ 0 ∷ [])
    ++ (to_be_bytes 2 internal_port ++ (to_be_bytes 2 external_port ++ to_be_bytes 4 lifetime))

unfoldable pub parse_pcp : Bytes → Parsed
parse_pcp bytes = record {
  version_ok = byte_at bytes 0 == pcp_version;
  opcode_ok = byte_at bytes 1 == pcp_map_opcode + response_bit;
  result = byte_at bytes 3;
  lifetime = u32_at bytes 4;
  epoch = u32_at bytes 8;
  protocol = byte_at bytes 36;
  internal_port = u16_at bytes 40;
  assigned_port = u16_at bytes 42;
  nonce = some (take 12 (drop 24 bytes));
  assigned_ip = mapped_ipv4 (take 16 (drop 44 bytes));
}

unfoldable pub decode_pcp : Bytes → Result DecodeFault Parsed
decode_pcp bytes =
    if ltb (length bytes) pcp_map_packet_bytes
    then err truncated
    else (if ltb pcp_map_packet_bytes (length bytes) then err oversize else ok (parse_pcp bytes))

unfoldable pub parse_natpmp : Bytes → Parsed
parse_natpmp bytes =
    let opcode = byte_at bytes 1 in
    record {
      version_ok = byte_at bytes 0 == natpmp_version;
      opcode_ok =
          bit_and opcode response_bit == response_bit
          && is_some (from_natpmp (bit_and opcode other_bits));
      result = u16_at bytes 2;
      lifetime = u32_at bytes 12;
      epoch = u32_at bytes 4;
      protocol = bit_and opcode other_bits;
      internal_port = u16_at bytes 8;
      assigned_port = u16_at bytes 10;
      nonce = none;
      assigned_ip = none;
    }

unfoldable pub decode_natpmp : Bytes → Result DecodeFault Parsed
decode_natpmp bytes =
    if ltb (length bytes) natpmp_map_response_bytes
    then err truncated
    else (if ltb natpmp_map_response_bytes (length bytes)
        then err oversize
        else ok (parse_natpmp bytes))

unfoldable pub pcp_class : ℕ → ServerClass
pcp_class code =
    if code == 0
    then success
    else (if code == 2
        then denied
        else (if code == 1 || code == 4 || code == 5 || code == 9
            then unsupported
            else (if code == 11 then conflict else failed)))

unfoldable pub natpmp_class : ℕ → ServerClass
natpmp_class code =
    if code == 0
    then success
    else (if code == 2
        then denied
        else (if code == 1 || code == 5
            then unsupported
            else (if code == 4 then conflict else failed)))
