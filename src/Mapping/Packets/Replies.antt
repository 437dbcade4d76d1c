-- ===== src/Mapping/Packets/Replies.antt =====
-- What is read of a packet (src/network_traversal/mapping.rs).
use Prim.Native.Nat.{bit_and}
use liskov_runtime_cargo.Prelude.{
  is_some, ℕ, ◌/◌, ◌^◌, ◌%◌, ◌+◌, ◌<◌, ◌≡◌, refl, true, false, none, some, [], ◌∷◌, ◌++◌, Bytes,
  length, get_or, drop, replicate, to_be_bytes, from_be_bytes, arith, bytes_eq, subst,
  if◌then◌else◌, zero, suc,
}
use liskov_runtime_cargo.Prelude.Result.{ok}
use liskov_runtime_cargo.Mapping.Packets.{
  MappedPortProtocol, tcp, udp, natpmp_opcode, pcp_number, Parsed, encode_pcp, parse_pcp,
  decode_pcp, parse_natpmp, decode_natpmp, mapped_ipv4, usable_ipv4, response_bit, other_bits,
  from_natpmp,
}

-- The first `k` entries, one by one.
abbrev listed : ℕ → Bytes → Bytes
listed zero xs = []
listed (suc k) xs = get_or xs 0 0 ∷ listed k (drop 1 xs)

listed_lem : (k : ℕ) (xs : Bytes) → length xs ≡ k → listed k xs ≡ xs
listed_lem zero [] h = refl
listed_lem zero (x ∷ xs) h = absurd (omega arith)
listed_lem (suc k) [] h = absurd (omega arith)
listed_lem (suc k) (x ∷ xs) h = ground (arith, listed_lem k xs)

u16_bytes : (n : ℕ) → n < 2 ^ 16 → from_be_bytes 0 (n / 256 % 256 ∷ n % 256 ∷ []) ≡ n
unfolding from_be_bytes
u16_bytes n h = omega arith

u32_bytes :
    (n : ℕ)
    → n < 2 ^ 32
    → from_be_bytes 0
        (n / 256 / 256 / 256 % 256 ∷ n / 256 / 256 % 256 ∷ n / 256 % 256 ∷ n % 256 ∷ [])
      ≡ n
unfolding from_be_bytes
u32_bytes n h = omega arith

-- The echo of a request, as it is read.
abbrev pub echoed : ℕ → ℕ → ℕ → Bytes → ℕ → Parsed
echoed protocol internal_port external_port nonce lifetime = record {
  version_ok = true;
  opcode_ok = false;
  result = 0;
  lifetime = lifetime;
  epoch = 0;
  protocol = protocol;
  internal_port = internal_port;
  assigned_port = external_port;
  nonce = some nonce;
  assigned_ip = none;
}

echo_listed :
    (local protocol internal_port external_port lifetime : ℕ) (n : Bytes)
    → internal_port < 2 ^ 16
    → external_port < 2 ^ 16
    → lifetime < 2 ^ 32
    → decode_pcp (encode_pcp local protocol internal_port external_port (listed 12 n) lifetime)
      ≡ ok (echoed protocol internal_port external_port (listed 12 n) lifetime)
unfolding decode_pcp encode_pcp parse_pcp to_be_bytes mapped_ipv4 bytes_eq
echo_listed local protocol internal_port external_port lifetime n ip ep lt =
    rw (u32_bytes lifetime lt, u16_bytes internal_port ip, u16_bytes external_port ep)
      (unfold from_be_bytes in refl)

-- A request that comes back is read with its own lifetime, protocol, ports and nonce, but never as a
-- response: its opcode has no response bit, and it assigns no address.
pub decode_pcp-encode_pcp :
    (local protocol internal_port external_port : ℕ) (nonce : Bytes) (lifetime : ℕ)
    → internal_port < 2 ^ 16
    → external_port < 2 ^ 16
    → lifetime < 2 ^ 32
    → length nonce ≡ 12
    → decode_pcp (encode_pcp local protocol internal_port external_port nonce lifetime)
      ≡ ok (echoed protocol internal_port external_port nonce lifetime)
decode_pcp-encode_pcp local protocol internal_port external_port nonce lifetime ip ep lt len =
    subst
      (λ n.
        decode_pcp (encode_pcp local protocol internal_port external_port n lifetime)
        ≡ ok (echoed protocol internal_port external_port n lifetime))
      (listed_lem 12 nonce len)
      (echo_listed local protocol internal_port external_port lifetime nonce ip ep lt)

-- The fields of a reply.
pub record Reply : Type 0 where
  pub result : ℕ
  pub lifetime : ℕ
  pub epoch : ℕ
  pub port_protocol : MappedPortProtocol
  pub internal_port : ℕ
  pub external_port : ℕ
  pub external_address : ℕ

-- Each field fits its place.
abbrev pub IsReply : Reply → Type 0
IsReply r =
    (r.lifetime < 2 ^ 32)
    × (r.epoch < 2 ^ 32)
    × (r.internal_port < 2 ^ 16)
    × (r.external_port < 2 ^ 16)
    × (r.external_address < 2 ^ 32)

-- A MAP response as RFC 6887 lays it out.
abbrev pub pcp_reply : Reply → Bytes → Bytes
pcp_reply r nonce =
    (2 ∷ 129 ∷ 0 ∷ r.result ∷ [])
    ++ (to_be_bytes 4 r.lifetime
        ++ (to_be_bytes 4 r.epoch
            ++ (replicate 12 0
                ++ (nonce
                    ++ ((pcp_number r.port_protocol ∷ 0 ∷ 0 ∷ 0 ∷ [])
                        ++ (to_be_bytes 2 r.internal_port
                            ++ (to_be_bytes 2 r.external_port
                                ++ (replicate 10 0
                                    ++ (255 ∷ 255 ∷ to_be_bytes 4 r.external_address)))))))))

-- A mapping response as RFC 6886 lays it out.
abbrev pub natpmp_reply : Reply → Bytes
natpmp_reply r =
    (0 ∷ (128 + natpmp_opcode r.port_protocol) ∷ [])
    ++ (to_be_bytes 2 r.result
        ++ (to_be_bytes 4 r.epoch
            ++ (to_be_bytes 2 r.internal_port
                ++ (to_be_bytes 2 r.external_port ++ to_be_bytes 4 r.lifetime))))

abbrev pub pcp_read : Reply → Bytes → Parsed
pcp_read r nonce = record {
  version_ok = true;
  opcode_ok = true;
  result = r.result;
  lifetime = r.lifetime;
  epoch = r.epoch;
  protocol = pcp_number r.port_protocol;
  internal_port = r.internal_port;
  assigned_port = r.external_port;
  nonce = some nonce;
  assigned_ip = if usable_ipv4 r.external_address then some r.external_address else none;
}

abbrev pub natpmp_read : Reply → Parsed
natpmp_read r = record {
  version_ok = true;
  opcode_ok = true;
  result = r.result;
  lifetime = r.lifetime;
  epoch = r.epoch;
  protocol = natpmp_opcode r.port_protocol;
  internal_port = r.internal_port;
  assigned_port = r.external_port;
  nonce = none;
  assigned_ip = none;
}

reply_listed :
    (r : Reply) (n : Bytes)
    → IsReply r
    → decode_pcp (pcp_reply r (listed 12 n)) ≡ ok (pcp_read r (listed 12 n))
unfolding decode_pcp parse_pcp to_be_bytes mapped_ipv4 bytes_eq
reply_listed r n (lt, ep, ip, xp, xa) =
    rw
      (
        u32_bytes r.lifetime lt,
        u32_bytes r.epoch ep,
        u16_bytes r.internal_port ip,
        u16_bytes r.external_port xp,
        u32_bytes r.external_address xa,
      )
      refl

-- A PCP response is read back field by field, for every nonce of 12 bytes; its address is taken only
-- if it can be used.
pub decode_pcp-pcp_reply :
    (r : Reply) (nonce : Bytes)
    → IsReply r
    → length nonce ≡ 12
    → decode_pcp (pcp_reply r nonce) ≡ ok (pcp_read r nonce)
decode_pcp-pcp_reply r nonce fits len =
    subst (λ n. decode_pcp (pcp_reply r n) ≡ ok (pcp_read r n)) (listed_lem 12 nonce len)
      (reply_listed r nonce fits)

opcode_response :
    (p : MappedPortProtocol) → bit_and (128 + natpmp_opcode p) response_bit ≡ response_bit
opcode_response tcp = refl
opcode_response udp = refl

opcode_protocol :
    (p : MappedPortProtocol) → bit_and (128 + natpmp_opcode p) other_bits ≡ natpmp_opcode p
opcode_protocol tcp = refl
opcode_protocol udp = refl

opcode_known : (p : MappedPortProtocol) → is_some (from_natpmp (natpmp_opcode p)) ≡ true
opcode_known tcp = refl
opcode_known udp = refl

-- A NAT-PMP response is read back field by field, with no nonce and no address.
pub decode_natpmp-natpmp_reply :
    (r : Reply)
    → IsReply r
    → r.result < 2 ^ 16
    → decode_natpmp (natpmp_reply r) ≡ ok (natpmp_read r)
unfolding decode_natpmp parse_natpmp to_be_bytes
decode_natpmp-natpmp_reply r (lt, ep, ip, xp, xa) rs =
    rw
      (
        u32_bytes r.lifetime lt,
        u32_bytes r.epoch ep,
        u16_bytes r.internal_port ip,
        u16_bytes r.external_port xp,
        u16_bytes r.result rs,
        opcode_response r.port_protocol,
        opcode_protocol r.port_protocol,
        opcode_known r.port_protocol,
      )
      refl
