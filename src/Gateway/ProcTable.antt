-- ===== src/Gateway/ProcTable.antt =====
-- The text of `/proc/net/route`: `parse_proc_net_route` and its helpers in
-- src/network_traversal/gateway.rs.
pub mod Prefix
pub mod Rows
use liskov_runtime_cargo.Prelude.{
  ℕ, suc, ◌+◌, ◌-◌, ◌*◌, ◌%◌, ◌^◌, bit_and, Bool, true, false, not, ◌&&◌, ◌||◌, Option, none, some,
  List, [], ◌∷◌, ◌++◌, Bytes, codes, ◌==◌, ltb, leb, if◌then◌else◌, all, any, length, u32_max,
  to_be_bytes, from_le_bytes,
}
use liskov_runtime_cargo.Prelude.Result.{Result, ok, err, ◌>>=◌, ◌>>◌, refuse_if, ok_or}
use liskov_runtime_cargo.Gateway.Routes.{
  RouteRecord, RouteReadError, unavailable, bounded, cancelled, malformed, route_table_max_bytes,
  route_table_max_records,
}
use liskov_runtime_cargo.Gateway.Numerals.{
  Text, byte_len, no_text, split_whitespace, lines, starts_with, u32_from_str_radix, leading_ones,
}

abbrev pub interface_name_max : ℕ
interface_name_max = 15

abbrev pub rtf_gateway : ℕ
rtf_gateway = 2

unfoldable pub parse_proc_hex : Text → Result RouteReadError ℕ
parse_proc_hex text = ok_or (u32_from_str_radix 16 text) malformed

-- The word's bytes in reverse order are the octets of the address.
unfoldable pub parse_proc_address : Text → Result RouteReadError ℕ
parse_proc_address text = do
  refuse_if (not (byte_len text == 8)) malformed
  word ← parse_proc_hex text
  ok (from_le_bytes (to_be_bytes 4 word))

unfoldable pub prefix_len : ℕ → Option ℕ
prefix_len mask =
    let ones = leading_ones 32 mask in
    let expected = if ones == 0 then 0 else u32_max * 2 ^ (32 - ones) % 2 ^ 32 in
    if mask == expected then some ones else none

abbrev is_name_byte : ℕ → Bool
is_name_byte c =
    (leb b'0' c && leb c b'9')
    || (leb b'A' c && leb c b'Z')
    || (leb b'a' c && leb c b'z')
    || any (λ p. p == c) (b'.' ∷ b'_' ∷ b'-' ∷ b':' ∷ [])

-- The length of an interface name, with the name: its characters are bytes where it is accepted.
unfoldable pub interface_name_bytes : Text → Result RouteReadError Bytes
interface_name_bytes name =
    if no_text name || ltb interface_name_max (byte_len name) || not (all is_name_byte name)
    then err malformed
    else ok name

-- `fields.next().ok_or(..)`.
unfoldable pub next_field : List Text → Result RouteReadError (Text × List Text)
next_field [] = err malformed
next_field (field ∷ fields) = ok (field, fields)

unfoldable pub parse_proc_route_line : Text → Result RouteReadError RouteRecord
parse_proc_route_line line = do
  (interface, fields) ← next_field (split_whitespace line)
  (destination_text, fields) ← next_field fields
  destination ← parse_proc_address destination_text
  (gateway_text, fields) ← next_field fields
  gateway ← parse_proc_address gateway_text
  (flags_text, fields) ← next_field fields
  flags ← parse_proc_hex flags_text
  (_, fields) ← next_field fields
  (_, fields) ← next_field fields
  (metric_text, fields) ← next_field fields
  metric ← ok_or (u32_from_str_radix 10 metric_text) malformed
  (mask_text, fields) ← next_field fields
  mask ← parse_proc_address mask_text
  prefix ← ok_or (prefix_len mask) malformed
  name ← interface_name_bytes interface
  ok (record {
    destination = destination;
    prefix_len = prefix;
    gateway = gateway;
    has_gateway = not (bit_and flags rtf_gateway == 0);
    interface_index = 0;
    interface_name = name;
    metric = metric;
  })

-- The loop over the lines, with the index of the next and the routes so far.
unfoldable pub parse_proc_lines :
    ℕ → List RouteRecord → List Text → Result RouteReadError (List RouteRecord)
parse_proc_lines index routes [] = ok routes
parse_proc_lines index routes (line ∷ rest) =
    let skipped = parse_proc_lines (suc index) routes rest in
    let read = parse_proc_route_line line >>= λ route.
    parse_proc_lines (suc index) (routes ++ route ∷ []) rest in
    if index == 0 && starts_with (codes "Iface") line
    then skipped
    else (if no_text line
        then skipped
        else (if length routes == route_table_max_records then err bounded else read))

unfoldable pub parse_proc_net_route : Text → Result RouteReadError (List RouteRecord)
parse_proc_net_route text =
    if ltb route_table_max_bytes (byte_len text)
    then err bounded
    else parse_proc_lines 0 [] (lines text)
