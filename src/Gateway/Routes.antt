-- ===== src/Gateway/Routes.antt =====
-- Route records and the choice among them: `RouteRecord`, `select_gateway`, `discover_loaded` and
-- `discover_with_sources` of src/network_traversal/gateway.rs. An IPv4 address is its 32-bit number,
-- the first octet highest; an interface name is the bytes in use of its array.
use liskov_runtime_cargo.Prelude.{
  ℕ, ◌*◌, ◌/◌, ◌^◌, Bool, true, false, not, ◌&&◌, ◌||◌, Option, none, some, List, [], ◌∷◌, Bytes,
  ◌==◌, ltb, leb, if◌then◌else◌, length, u32_max,
}
use liskov_runtime_cargo.Prelude.Result.{Result, ok, err}

abbrev pub route_table_max_bytes : ℕ
route_table_max_bytes = 16 * 1024

abbrev pub route_table_max_records : ℕ
route_table_max_records = 128

pub record RouteRecord : Type 0 where
  pub destination : ℕ
  pub prefix_len : ℕ
  pub gateway : ℕ
  pub has_gateway : Bool
  pub interface_index : ℕ
  pub interface_name : Bytes
  pub metric : ℕ

pub record SelectedGateway : Type 0 where
  pub gateway : ℕ
  pub interface_index : ℕ
  pub interface_name : Bytes

abbrev pub from_record : RouteRecord → SelectedGateway
from_record r = record {
  gateway = r.gateway;
  interface_index = r.interface_index;
  interface_name = r.interface_name;
}

pub data RouteReadError : Type 0 where
  unavailable bounded cancelled malformed : RouteReadError

pub data GatewayDiscovery : Type 0 where
  selected : SelectedGateway → GatewayDiscovery
  unsupported invalid_gateway discovery_cancelled discovery_bounded : GatewayDiscovery

-- `Ipv4Addr::UNSPECIFIED`.
abbrev pub unspecified : ℕ
unspecified = 0

abbrev pub first_octet : ℕ → ℕ
first_octet address = address / 2 ^ 24

-- Multicast is 224.0.0.0/4, loopback is 127.0.0.0/8.
unfoldable pub acceptable_gateway : ℕ → Bool
acceptable_gateway gateway =
    if gateway == unspecified
      || gateway == u32_max
      || (leb 224 (first_octet gateway) && leb (first_octet gateway) 239)
      || first_octet gateway == 127
    then false
    else ltb (first_octet gateway) 240

-- The lexicographic order of byte strings.
unfoldable pub bytes_lt : Bytes → Bytes → Bool
bytes_lt [] [] = false
bytes_lt [] (b ∷ bs) = true
bytes_lt (a ∷ xs) [] = false
bytes_lt (a ∷ xs) (b ∷ ys) =
    let rest = bytes_lt xs ys in if ltb a b then true else (if a == b then rest else false)

unfoldable pub interface_before : RouteRecord → RouteRecord → Bool
interface_before candidate current =
    if ltb candidate.interface_index current.interface_index
    then true
    else (if candidate.interface_index == current.interface_index
        then bytes_lt candidate.interface_name current.interface_name
        else false)

-- A default route that has a gateway.
unfoldable pub is_default_route : RouteRecord → Bool
is_default_route route =
    not (
      not (route.destination == unspecified)
      || not (route.prefix_len == 0)
      || not route.has_gateway)

-- The variables of the loop.
pub record Scan : Type 0 where
  pub best : Option RouteRecord
  pub saw_invalid : Bool
  pub ambiguous : Bool

unfoldable pub scan_candidate : Scan → RouteRecord → Scan
scan_candidate s route = elim s.best [
  | none ↦ record s { best = some route }
  | some current ↦
      if ltb route.metric current.metric
      then record s { best = some route; ambiguous = false }
      else (if route.metric == current.metric && not (route.gateway == current.gateway)
          then record s { ambiguous = true }
          else (if route.metric == current.metric
                && route.gateway == current.gateway
                && interface_before route current
              then record s { best = some route }
              else s))
]

unfoldable pub scan_route : Scan → RouteRecord → Scan
scan_route s route =
    if is_default_route route
    then (if acceptable_gateway route.gateway
        then scan_candidate s route
        else record s { saw_invalid = true })
    else s

unfoldable pub scan_routes : Scan → List RouteRecord → Scan
scan_routes s [] = s
scan_routes s (route ∷ routes) = scan_routes (scan_route s route) routes

abbrev pub no_scan : Scan
no_scan = record { best = none; saw_invalid = false; ambiguous = false }

unfoldable pub select_gateway : List RouteRecord → GatewayDiscovery
select_gateway routes =
    let s = scan_routes no_scan routes in
    if s.ambiguous then unsupported else elim s.best [
      | some route ↦ selected (from_record route)
      | none ↦ if s.saw_invalid then invalid_gateway else unsupported
    ]

unfoldable pub discover_loaded : List RouteRecord → Bool → GatewayDiscovery
discover_loaded routes was_cancelled =
    if was_cancelled
    then discovery_cancelled
    else (if ltb route_table_max_records (length routes)
        then discovery_bounded
        else select_gateway routes)

-- The calls of `cancelled` in `discover_with_sources`, in the order of the code.
pub data CancelCheck : Type 0 where
  at_entry before_netlink before_selection : CancelCheck

unfoldable pub discover_routes :
    Result RouteReadError (List RouteRecord) → (CancelCheck → Bool) → GatewayDiscovery
discover_routes (ok routes) is_cancelled = discover_loaded routes (is_cancelled before_selection)
discover_routes (err unavailable) is_cancelled = unsupported
discover_routes (err malformed) is_cancelled = unsupported
discover_routes (err bounded) is_cancelled = discovery_bounded
discover_routes (err cancelled) is_cancelled = discovery_cancelled

-- The netlink dump is the value that the source would give if it were asked; the second component
-- tells whether it is asked.
unfoldable pub discover_with_sources :
    Result RouteReadError (List RouteRecord)
    → Result RouteReadError (List RouteRecord)
    → (CancelCheck → Bool)
    → GatewayDiscovery × Bool
discover_with_sources proc_routes netlink is_cancelled =
    let ask_netlink =
      if is_cancelled before_netlink
      then (discovery_cancelled, false)
      else (discover_routes netlink is_cancelled, true) in
    if is_cancelled at_entry then (discovery_cancelled, false) else elim proc_routes [
      | ok routes ↦ (discover_routes (ok routes) is_cancelled, false)
      | err bounded ↦ (discovery_bounded, false)
      | err cancelled ↦ (discovery_cancelled, false)
      | err unavailable ↦ ask_netlink
      | err malformed ↦ ask_netlink
    ]
