-- ===== src/Gateway/Netlink.antt =====
-- The netlink dump of the routes: `parse_netlink_route_dump`, `netlink_dump_finished` and
-- `parse_route_message` of src/network_traversal/gateway.rs, for the little-endian targets of the
-- program. A loop over an offset is a loop over the bytes that are left; the outer `none` of a loop
-- is fuel that ran out, which the length of those bytes prevents.
pub mod Returns
pub mod Parsed
use liskov_runtime_cargo.Prelude.{
  ℕ, zero, suc, ◌+◌, ◌-◌, ◌*◌, ◌/◌, ◌^◌, Bool, true, false, not, ◌&&◌, ◌||◌, Option, none, some,
  List, [], ◌∷◌, ◌++◌, Bytes, ◌==◌, ltb, leb, if◌then◌else◌, length, take, drop, get_or,
  from_le_bytes, from_be_bytes, replicate,
}
use liskov_runtime_cargo.Prelude.Maybe.{◌>>=◌, ◌>>◌, guard}
use liskov_runtime_cargo.Prelude.Result.{Result, ok, err}
use liskov_runtime_cargo.Gateway.Routes.{
  RouteRecord, RouteReadError, unavailable, bounded, cancelled, malformed, route_table_max_bytes,
  route_table_max_records, unspecified,
}

-- The numbers of the kernel's interface that `libc` names.
abbrev pub nlmsg_error : ℕ
nlmsg_error = 2

abbrev pub nlmsg_done : ℕ
nlmsg_done = 3

abbrev pub rtm_newroute : ℕ
rtm_newroute = 24

abbrev pub af_inet : ℕ
af_inet = 2

abbrev pub rtn_unicast : ℕ
rtn_unicast = 1

abbrev pub rta_dst : ℕ
rta_dst = 1

abbrev pub rta_oif : ℕ
rta_oif = 4

abbrev pub rta_gateway : ℕ
rta_gateway = 5

abbrev pub rta_priority : ℕ
rta_priority = 6

abbrev pub rta_table : ℕ
rta_table = 15

abbrev pub rt_table_compat : ℕ
rt_table_compat = 252

abbrev pub rt_table_main : ℕ
rt_table_main = 254

unfoldable pub align4 : ℕ → ℕ
align4 value = (value + 3) / 4 * 4

-- The header of a netlink message: its length with the header, and its kind.
abbrev pub message_length : Bytes → ℕ
message_length bytes = from_le_bytes (take 4 bytes)

abbrev pub message_kind : Bytes → ℕ
message_kind bytes = from_le_bytes (take 2 (drop 4 bytes))

-- `length < 16 || offset.saturating_add(length) > bytes.len()`.
abbrev pub ill_sized : ℕ → ℕ → ℕ → Bool
ill_sized least size left = ltb size least || ltb left size

unfoldable pub dump_finished_from : ℕ → Bytes → Option Bool
dump_finished_from zero bytes = none
dump_finished_from (suc fuel) bytes =
    let later = dump_finished_from fuel (drop (align4 (message_length bytes)) bytes) in
    if ltb (length bytes) 16
    then some false
    else (if ill_sized 16 (message_length bytes) (length bytes)
        then some false
        else (if message_kind bytes == nlmsg_done then some true else later))

unfoldable pub netlink_dump_finished : Bytes → Option Bool
netlink_dump_finished bytes = dump_finished_from (suc (length bytes)) bytes

-- The variables of the loop over the attributes of a route.
pub record Attributes : Type 0 where
  pub destination : ℕ
  pub gateway : ℕ
  pub has_gateway : Bool
  pub interface_index : ℕ
  pub metric : ℕ
  pub table_from_attr : Option ℕ

abbrev pub no_attributes : Attributes
no_attributes = record {
  destination = unspecified;
  gateway = unspecified;
  has_gateway = false;
  interface_index = 0;
  metric = 0;
  table_from_attr = none;
}

unfoldable pub take_attribute : Attributes → ℕ → Bytes → Attributes
take_attribute a attr_type data_bytes =
    if not (length data_bytes == 4)
    then a
    else (if attr_type == rta_dst
        then record a { destination = from_be_bytes 0 data_bytes }
        else (if attr_type == rta_gateway
            then record a { gateway = from_be_bytes 0 data_bytes; has_gateway = true }
            else (if attr_type == rta_oif
                then record a { interface_index = from_le_bytes data_bytes }
                else (if attr_type == rta_priority
                    then record a { metric = from_le_bytes data_bytes }
                    else (if attr_type == rta_table
                        then record a { table_from_attr = some (from_le_bytes data_bytes) }
                        else a)))))

-- The loop over the attributes; the inner `none` is the source's.
unfoldable pub attributes_from : ℕ → Attributes → Bytes → Option (Option Attributes)
attributes_from zero a bytes = none
attributes_from (suc fuel) a bytes =
    let attr_len = from_le_bytes (take 2 bytes) in
    let attr_type = from_le_bytes (take 2 (drop 2 bytes)) in
    let later =
      attributes_from fuel (take_attribute a attr_type (drop 4 (take attr_len bytes)))
        (drop (align4 attr_len) bytes) in
    if ltb (length bytes) 4
    then some (some a)
    else (if ill_sized 4 attr_len (length bytes) then some none else later)

-- The table of a route: its attribute if the header says so.
abbrev pub table_of : Bytes → Attributes → Option ℕ
table_of body a =
    if get_or body 4 0 == rt_table_compat then a.table_from_attr else some (get_or body 4 0)

-- What the attributes make of a message: only a route of the main table.
unfoldable pub route_of : Bytes → Attributes → Option RouteRecord
route_of body a = do
  table ← table_of body a
  guard (table == rt_table_main)
  some (record {
    destination = if get_or body 1 0 == 0 then unspecified else a.destination;
    prefix_len = get_or body 1 0;
    gateway = a.gateway;
    has_gateway = a.has_gateway;
    interface_index = a.interface_index;
    interface_name = [];
    metric = a.metric;
  })

unfoldable pub parse_route_message : Bytes → Option (Option RouteRecord)
parse_route_message body =
    let attributes = attributes_from (suc (length body)) no_attributes (drop 12 body) in
    if ltb (length body) 12 || not (get_or body 0 0 == af_inet)
    then some none
    else (if ltb 32 (get_or body 1 0)
        then some none
        else (if not (get_or body 7 0 == rtn_unicast)
            then some none
            else attributes >>= λ parsed. some (parsed >>= route_of body)))

-- The routes with one more, if the message gave one.
abbrev pub pushed : List RouteRecord → Option RouteRecord → List RouteRecord
pushed routes none = routes
pushed routes (some route) = routes ++ route ∷ []

unfoldable pub parse_dump_from :
    ℕ → List RouteRecord → Bytes → Option (Result RouteReadError (List RouteRecord))
parse_dump_from zero routes bytes = none
parse_dump_from (suc fuel) routes bytes =
    let rest = drop (align4 (message_length bytes)) bytes in
    let skipped = parse_dump_from fuel routes rest in
    let read = parse_route_message (drop 16 (take (message_length bytes) bytes)) >>= λ route.
    parse_dump_from fuel (pushed routes route) rest in
    if ltb (length bytes) 16
    then some (err malformed)
    else (if ill_sized 16 (message_length bytes) (length bytes)
        then some (err malformed)
        else (if message_kind bytes == nlmsg_done
            then some (ok routes)
            else (if message_kind bytes == nlmsg_error
                then some (err unavailable)
                else (if message_kind bytes == rtm_newroute
                    then (if length routes == route_table_max_records
                        then some (err bounded)
                        else read)
                    else skipped))))

unfoldable pub parse_netlink_route_dump : Bytes → Option (Result RouteReadError (List RouteRecord))
parse_netlink_route_dump bytes =
    if ltb route_table_max_bytes (length bytes)
    then some (err bounded)
    else parse_dump_from (suc (length bytes)) [] bytes
