-- ===== src/Gateway/Netlink/Parsed.antt =====
-- What the parsed netlink dump of src/network_traversal/gateway.rs holds.
use liskov_runtime_cargo.Prelude.{
  ℕ, zero, suc, ◌≤◌, ◌≡◌, ◌≢◌, subst, ◌⊎◌, inl, inr, true, false, Option, none, some, Option-cases,
  Bool-cases, List, [], ◌∷◌, Bytes, ◌==◌, arith, length, take, drop, get_or, length-append, ltb,
  All, All-append,
}
use liskov_runtime_cargo.Prelude.Result.{ok}
use liskov_runtime_cargo.Gateway.Routes.{RouteRecord, route_table_max_records, unspecified}
use liskov_runtime_cargo.Gateway.Netlink.{
  no_attributes, align4, ill_sized, message_length, message_kind, dump_finished_from,
  netlink_dump_finished, Attributes, attributes_from, table_of, rt_table_main, route_of,
  parse_route_message, pushed, parse_dump_from, parse_netlink_route_dump, nlmsg_done, rtm_newroute,
}

-- A route as the dump gives it: it has a prefix length of an IPv4 address and no interface name, and
-- the default route has the unspecified destination.
abbrev pub IsDumpedRoute : RouteRecord → Type 0
IsDumpedRoute r =
    (r.prefix_len ≤ 32)
    × (r.interface_name ≡ [])
    × ((r.prefix_len ≢ 0) ⊎ (r.destination ≡ unspecified))

route_of-IsDumpedRoute :
    (body : Bytes) (a : Attributes) (r : RouteRecord)
    → get_or body 1 0 ≤ 32
    → route_of body a ≡ some r
    → IsDumpedRoute r
unfolding route_of
route_of-IsDumpedRoute body a r h e = elim (Option-cases (table_of body a)) [
  | inl nothing ↦ absurd (ground arith)
  | inr (table, is_table) ↦ elim (Bool-cases (table == rt_table_main)) [
    | inr other ↦ absurd (ground arith)
    | inl main ↦ elim (Bool-cases (get_or body 1 0 == 0)) [
      | inl default ↦ (ground arith, ground arith, inr (ground arith))
      | inr specific ↦ (ground arith, ground arith, inl (ground arith))
    ]
  ]
]

parse_route_message-IsDumpedRoute :
    (body : Bytes) (r : RouteRecord) → parse_route_message body ≡ some (some r) → IsDumpedRoute r
unfolding parse_route_message
parse_route_message-IsDumpedRoute body r e =
    elim (Option-cases (attributes_from (suc (length body)) no_attributes (drop 12 body))) [
      | inl out ↦ absurd (ground arith)
      | inr (none, out) ↦ absurd (ground arith)
      | inr (some a, out) ↦ route_of-IsDumpedRoute body a r (ground arith) (ground arith)
    ]

abbrev Holds : List RouteRecord → Type 0
Holds routes = (length routes ≤ route_table_max_records) × All IsDumpedRoute routes

pushed-Holds :
    (routes : List RouteRecord) (body : Bytes) (o : Option RouteRecord)
    → parse_route_message body ≡ some o
    → (length routes == route_table_max_records) ≡ false
    → Holds routes
    → Holds (pushed routes o)
pushed-Holds routes body none e room h = h
pushed-Holds routes body (some r) e room (small, dumped) = (
  ground (arith, length-append routes (r ∷ [])),
  All-append IsDumpedRoute routes (r ∷ []) dumped (parse_route_message-IsDumpedRoute body r e, tt),
)

parse_dump_from-Holds :
    (fuel : ℕ) (acc routes : List RouteRecord) (bytes : Bytes)
    → Holds acc
    → parse_dump_from fuel acc bytes ≡ some (ok routes)
    → (dump_finished_from fuel bytes ≡ some true) × Holds routes
unfolding parse_dump_from dump_finished_from
parse_dump_from-Holds zero acc routes bytes h e = cc
parse_dump_from-Holds (suc fuel) acc routes bytes h e =
    let rest = drop (align4 (message_length bytes)) bytes in
    let body = drop 16 (take (message_length bytes) bytes) in
    elim (Bool-cases (ltb (length bytes) 16)) [
      | inl short ↦ absurd (ground arith)
      | inr long ↦ elim (Bool-cases (ill_sized 16 (message_length bytes) (length bytes))) [
        | inl bad ↦ absurd (ground arith)
        | inr sized ↦ elim (Bool-cases (message_kind bytes == nlmsg_done)) [
          | inl over ↦ let same : acc ≡ routes = ground arith in (ground arith, subst Holds same h)
          | inr more ↦ elim (Bool-cases (message_kind bytes == rtm_newroute)) [
            | inr other ↦
                let (finished, holds) =
                  parse_dump_from-Holds fuel acc routes rest h (ground arith) in
                (ground (arith, finished), holds)
            | inl route ↦ elim (Option-cases (parse_route_message body)) [
              | inl never ↦ absurd (ground arith)
              | inr (o, read) ↦
                  let room : (length acc == route_table_max_records) ≡ false = ground arith in
                  let (finished, holds) =
                    parse_dump_from-Holds fuel (pushed acc o) routes rest
                      (pushed-Holds acc body o read room h) (ground arith) in
                  (ground (arith, finished), holds)
            ]
          ]
        ]
      ]
    ]

-- Routes come only from a dump that the reader of the socket counts as finished; they are at most
-- 128, each with a prefix length of at most 32, and a default route has the unspecified destination.
pub parse_netlink_route_dump-Holds :
    (bytes : Bytes) (routes : List RouteRecord)
    → parse_netlink_route_dump bytes ≡ some (ok routes)
    → (netlink_dump_finished bytes ≡ some true)
      × (length routes ≤ route_table_max_records)
      × All IsDumpedRoute routes
unfolding parse_netlink_route_dump netlink_dump_finished
parse_netlink_route_dump-Holds bytes routes e =
    let (finished, holds) =
      parse_dump_from-Holds (suc (length bytes)) [] routes bytes (omega arith, tt) (ground arith) in
    (finished, holds.0, holds.1)
