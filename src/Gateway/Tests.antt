-- ===== src/Gateway/Tests.antt =====
-- Gateways of small route tables, and exchanges with one.
use liskov_runtime_cargo.Prelude.{
  ℕ, ◌+◌, ◌≤◌, ◌≢◌, refl, Bool, true, false, Option, none, some, List, [], ◌∷◌, ◌++◌, All, Bytes,
  codes, length, to_be_bytes, from_le_bytes,
}
use liskov_runtime_cargo.Prelude.Result.{Result, ok, err}
use liskov_runtime_cargo.Gateway.Routes.{
  RouteRecord, SelectedGateway, RouteReadError, unavailable, CancelCheck, route_table_max_records,
  select_gateway,
}
use liskov_runtime_cargo.Gateway.Selection.{Explains, select_gateway-Explains}
use liskov_runtime_cargo.Gateway.Numerals.{
  byte_len, split_by, split_whitespace, strip_return, lines_from, starts_with, to_digit, u32_digits,
  u32_unsigned, u32_from_str_radix, leading_ones,
}
use liskov_runtime_cargo.Gateway.ProcTable.{
  parse_proc_hex, parse_proc_address, prefix_len, interface_name_bytes, next_field,
  parse_proc_route_line, parse_proc_lines, parse_proc_net_route,
}
use liskov_runtime_cargo.Gateway.ProcTable.Rows.{IsTableRoute, parse_proc_net_route-Holds}
use liskov_runtime_cargo.Gateway.Netlink.{netlink_dump_finished, parse_netlink_route_dump}
use liskov_runtime_cargo.Gateway.Netlink.Returns.{parse_netlink_route_dump-Returns}
use liskov_runtime_cargo.Gateway.Control.{SocketAddr, Url, Reply}

-- 192.168.0.1.
abbrev router : ℕ
router = 3_232_235_521

abbrev default_route : RouteRecord
default_route = record {
  destination = 0;
  prefix_len = 0;
  gateway = router;
  has_gateway = true;
  interface_index = 0;
  interface_name = codes "eth0";
  metric = 100;
}

abbrev routes : List RouteRecord
routes = record default_route { gateway = router + 1; metric = 200 } ∷ default_route ∷ []

abbrev chosen : SelectedGateway
chosen = record { gateway = router; interface_index = 0; interface_name = codes "eth0" }

abbrev table : List ℕ
table =
    codes "Iface\tDestination\tGateway \tFlags\tRefCnt\tUse\tMetric\tMask\n"
    ++ codes "eth0\t00000000\t0100A8C0\t0003\t0\t0\t100\t00000000\t0\t0\t0\n"

-- A dump of one default route of the main table, and its end.
abbrev dump : Bytes
dump =
    (44 ∷ 0 ∷ 0 ∷ 0 ∷ 24 ∷ 0 ∷ 2 ∷ 0 ∷ 1 ∷ 0 ∷ 0 ∷ 0 ∷ 0 ∷ 0 ∷ 0 ∷ 0 ∷ [])
    ++ (2 ∷ 0 ∷ 0 ∷ 0 ∷ 254 ∷ 3 ∷ 0 ∷ 1 ∷ 0 ∷ 0 ∷ 0 ∷ 0 ∷ [])
    ++ (8 ∷ 0 ∷ 5 ∷ 0 ∷ 192 ∷ 168 ∷ 0 ∷ 1 ∷ [])
    ++ (8 ∷ 0 ∷ 4 ∷ 0 ∷ 3 ∷ 0 ∷ 0 ∷ 0 ∷ [])
    ++ (16 ∷ 0 ∷ 0 ∷ 0 ∷ 3 ∷ 0 ∷ 2 ∷ 0 ∷ 1 ∷ 0 ∷ 0 ∷ 0 ∷ 0 ∷ 0 ∷ 0 ∷ 0 ∷ [])

abbrev dumped : RouteRecord
dumped = record default_route { interface_index = 3; interface_name = []; metric = 0 }

abbrev no_table : Result RouteReadError (List RouteRecord)
no_table = err unavailable

abbrev from_netlink : Result RouteReadError (List RouteRecord)
from_netlink = ok routes

abbrev not_cancelled : CancelCheck → Bool
not_cancelled check = false

-- A parser that knows one location, at the router.
abbrev parse_url : Bytes → Option Url
parse_url location = some (record {
  scheme = codes "http";
  username = [];
  has_password = false;
  ipv4_host = some router;
  port = some 5_000;
})

-- A transport that echoes.
abbrev echo : SocketAddr → Bytes → ℕ → Reply
echo destination request room = ok (length request, request)

abbrev location : Bytes
location = codes "http://192.168.0.1:5000/igd"

select_gateway-Explains_example : Explains routes (select_gateway routes)
select_gateway-Explains_example = select_gateway-Explains routes

parse_proc_net_route-Holds_example :
    (length (default_route ∷ []) ≤ route_table_max_records) × All IsTableRoute (default_route ∷ [])
unfolding byte_len split_by split_whitespace strip_return lines_from starts_with to_digit u32_digits
    u32_unsigned u32_from_str_radix leading_ones parse_proc_hex parse_proc_address prefix_len
    interface_name_bytes next_field parse_proc_route_line parse_proc_lines parse_proc_net_route
    to_be_bytes from_le_bytes
parse_proc_net_route-Holds_example = parse_proc_net_route-Holds table (default_route ∷ []) refl

parse_netlink_route_dump-Returns_example :
    (parse_netlink_route_dump dump ≢ none) × (netlink_dump_finished dump ≢ none)
parse_netlink_route_dump-Returns_example = parse_netlink_route_dump-Returns dump
