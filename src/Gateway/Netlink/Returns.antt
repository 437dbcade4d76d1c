-- ===== src/Gateway/Netlink/Returns.antt =====
-- The loops over netlink bytes in src/network_traversal/gateway.rs end: the fuel is enough.
use liskov_runtime_cargo.Prelude.{
  Bool-cases, ℕ, zero, suc, ◌-◌, ◌≤◌, ◌<◌, ◌≡◌, ◌≢◌, inl, inr, false, none, Option-cases, List, [],
  Bytes, arith, length, take, drop, length-drop, from_le_bytes,
}
use liskov_runtime_cargo.Gateway.Routes.{RouteRecord}
use liskov_runtime_cargo.Gateway.Netlink.{
  no_attributes, align4, ill_sized, message_length, dump_finished_from, netlink_dump_finished,
  Attributes, take_attribute, attributes_from, parse_route_message, pushed, parse_dump_from,
  parse_netlink_route_dump,
}

-- The bytes that are left after an item of at least `least` bytes, with its padding.
pub rest_shorter :
    (least size : ℕ) (bytes : Bytes) (fuel : ℕ)
    → 0 < least
    → ill_sized least size (length bytes) ≡ false
    → length bytes < suc fuel
    → length (drop (align4 size) bytes) < fuel
unfolding align4
rest_shorter least size bytes fuel h sized enough =
    let big : least ≤ size = ground arith in
    let fits : size ≤ length bytes = ground arith in
    let shorter : length (drop (align4 size) bytes) ≡ length bytes - align4 size =
      length-drop (align4 size) bytes in
    omega (arith, shorter, big, fits)

pub dump_finished_from-Returns :
    (fuel : ℕ) (bytes : Bytes) → length bytes < fuel → dump_finished_from fuel bytes ≢ none
unfolding dump_finished_from
dump_finished_from-Returns zero bytes h = absurd (omega arith)
dump_finished_from-Returns (suc fuel) bytes h =
    elim (Bool-cases (ill_sized 16 (message_length bytes) (length bytes))) [
      | inl bad ↦ ground arith
      | inr sized ↦
          let later =
            dump_finished_from-Returns fuel (drop (align4 (message_length bytes)) bytes)
              (rest_shorter 16 (message_length bytes) bytes fuel (omega arith) sized h) in
          ground (arith, later)
    ]

pub attributes_from-Returns :
    (fuel : ℕ) (a : Attributes) (bytes : Bytes)
    → length bytes < fuel
    → attributes_from fuel a bytes ≢ none
unfolding attributes_from
attributes_from-Returns zero a bytes h = absurd (omega arith)
attributes_from-Returns (suc fuel) a bytes h =
    let attr_len = from_le_bytes (take 2 bytes) in
    elim (Bool-cases (ill_sized 4 attr_len (length bytes))) [
      | inl bad ↦ ground arith
      | inr sized ↦
          let later =
            attributes_from-Returns fuel
              (take_attribute a (from_le_bytes (take 2 (drop 2 bytes)))
                (drop 4 (take attr_len bytes)))
              (drop (align4 attr_len) bytes)
              (rest_shorter 4 attr_len bytes fuel (omega arith) sized h) in
          ground (arith, later)
    ]

pub parse_route_message-Returns : (body : Bytes) → parse_route_message body ≢ none
unfolding parse_route_message
parse_route_message-Returns body =
    let attributes =
      attributes_from-Returns (suc (length body)) no_attributes (drop 12 body)
        (omega (arith, length-drop 12 body)) in
    ground (arith, attributes)

parse_dump_from-Returns :
    (fuel : ℕ) (routes : List RouteRecord) (bytes : Bytes)
    → length bytes < fuel
    → parse_dump_from fuel routes bytes ≢ none
unfolding parse_dump_from
parse_dump_from-Returns zero routes bytes h = absurd (omega arith)
parse_dump_from-Returns (suc fuel) routes bytes h =
    elim (Bool-cases (ill_sized 16 (message_length bytes) (length bytes))) [
      | inl bad ↦ ground arith
      | inr sized ↦
          let later = λ (more : List RouteRecord).
            parse_dump_from-Returns fuel more (drop (align4 (message_length bytes)) bytes)
              (rest_shorter 16 (message_length bytes) bytes fuel (omega arith) sized h) in
          let body = drop 16 (take (message_length bytes) bytes) in
          elim (Option-cases (parse_route_message body)) [
            | inl never ↦ absurd (parse_route_message-Returns body never)
            | inr (route, read) ↦ ground (arith, later routes, later (pushed routes route))
          ]
    ]

-- Whatever bytes the kernel sends, both loops over the dump, and the loop over the attributes of
-- each of its routes, end with a result.
pub parse_netlink_route_dump-Returns :
    (bytes : Bytes) → (parse_netlink_route_dump bytes ≢ none) × (netlink_dump_finished bytes ≢ none)
unfolding parse_netlink_route_dump netlink_dump_finished
parse_netlink_route_dump-Returns bytes =
    let parsed = parse_dump_from-Returns (suc (length bytes)) [] bytes (omega arith) in
    (ground (arith, parsed), dump_finished_from-Returns (suc (length bytes)) bytes (omega arith))
