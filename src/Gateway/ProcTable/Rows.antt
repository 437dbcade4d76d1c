-- ===== src/Gateway/ProcTable/Rows.antt =====
-- What the parsed `/proc/net/route` of src/network_traversal/gateway.rs holds.
use liskov_runtime_cargo.Prelude.{
  ℕ, suc, ◌+◌, ◌*◌, ◌≤◌, ◌≡◌, ◌≢◌, subst, inl, inr, false, Option, some, Option-cases, Bool-cases,
  List, [], ◌∷◌, ◌++◌, ◌==◌, arith, length, codes, leb, ◌&&◌, length-append, All, All-append,
  u32_max, Bytes,
}
use liskov_runtime_cargo.Prelude.Result.{
  Result-cases, ok, Ensures, ensures-ok, ok-ensures, bind-ensures, ok_or,
}
use liskov_runtime_cargo.Gateway.Routes.{
  RouteRecord, RouteReadError, malformed, route_table_max_records,
}
use liskov_runtime_cargo.Gateway.Numerals.{
  Text, no_text, starts_with, byte_len, split_whitespace, u32_from_str_radix, u32_unsigned,
  u32_digits, to_digit, lines,
}
use liskov_runtime_cargo.Gateway.ProcTable.{
  interface_name_max, parse_proc_hex, parse_proc_address, prefix_len, interface_name_bytes,
  next_field, parse_proc_route_line, parse_proc_lines, parse_proc_net_route,
}
use liskov_runtime_cargo.Gateway.ProcTable.Prefix.{prefix_len-eq-some_iff}

-- A route of the table: its numbers fit their words, and its interface has a name that fits.
abbrev pub IsTableRoute : RouteRecord → Type 0
IsTableRoute r =
    (r.prefix_len ≤ 32)
    × (r.metric ≤ u32_max)
    × (r.interface_name ≢ [])
    × (byte_len r.interface_name ≤ interface_name_max)

ok_or-eq-ok : (o : Option ℕ) {n : ℕ} → ok_or o malformed ≡ ok n → o ≡ some n
ok_or-eq-ok o e = ground arith

u32_digits_le :
    (radix value : ℕ) (cs : Text) (n : ℕ)
    → value ≤ u32_max
    → u32_digits radix value cs ≡ some n
    → n ≤ u32_max
unfolding u32_digits
u32_digits_le radix value [] n h e = ground arith
u32_digits_le radix value (c ∷ cs) n h e = elim (Option-cases (to_digit radix c)) [
  | inl nothing ↦ absurd (ground arith)
  | inr (digit, is_digit) ↦ elim (Bool-cases (leb (value * radix + digit) u32_max)) [
    | inr big ↦ absurd (ground arith)
    | inl fits ↦ u32_digits_le radix (value * radix + digit) cs n (ground arith) (ground arith)
  ]
]

u32_unsigned_le : (radix : ℕ) (cs : Text) (n : ℕ) → u32_unsigned radix cs ≡ some n → n ≤ u32_max
unfolding u32_unsigned
u32_unsigned_le radix [] n e = absurd (ground arith)
u32_unsigned_le radix (c ∷ cs) n e = u32_digits_le radix 0 (c ∷ cs) n (omega arith) e

pub u32_from_str_radix_le :
    (radix : ℕ) (cs : Text) (n : ℕ) → u32_from_str_radix radix cs ≡ some n → n ≤ u32_max
unfolding u32_from_str_radix
u32_from_str_radix_le radix [] n e = absurd (ground arith)
u32_from_str_radix_le radix (c ∷ cs) n e = elim (Bool-cases (c == b'+')) [
  | inl plus ↦ u32_unsigned_le radix cs n (ground arith)
  | inr other ↦ u32_unsigned_le radix (c ∷ cs) n (ground arith)
]

interface_name_bytes-fits :
    (text : Text) (name : Bytes)
    → interface_name_bytes text ≡ ok name
    → (name ≢ []) × (byte_len name ≤ interface_name_max)
unfolding interface_name_bytes
interface_name_bytes-fits [] name e = absurd (ground arith)
interface_name_bytes-fits (c ∷ cs) name e = (ground arith, ground arith)

row_fits :
    (metric_text : Text) (metric mask prefix : ℕ) (interface : Text) (name : Bytes)
    → ok_or (u32_from_str_radix 10 metric_text) malformed ≡ ok metric
    → ok_or (prefix_len mask) malformed ≡ ok prefix
    → interface_name_bytes interface ≡ ok name
    → (prefix ≤ 32) × (metric ≤ u32_max) × (name ≢ []) × (byte_len name ≤ interface_name_max)
row_fits metric_text metric mask prefix interface name m p n =
    let (named, short) = interface_name_bytes-fits interface name n in
    (
      ((prefix_len-eq-some_iff mask prefix).0 (ok_or-eq-ok (prefix_len mask) p)).0,
      u32_from_str_radix_le 10 metric_text metric
          (ok_or-eq-ok (u32_from_str_radix 10 metric_text) m),
      named,
      short,
    )

parse_proc_route_line-ensures : (line : Text) → Ensures IsTableRoute (parse_proc_route_line line)
unfolding parse_proc_route_line
parse_proc_route_line-ensures line =
    let P = IsTableRoute in
    bind-ensures P (next_field (split_whitespace line)) _ λ (interface, fields) _.
      bind-ensures P (next_field fields) _ λ (destination_text, fields) _.
        bind-ensures P (parse_proc_address destination_text) _ λ destination _.
          bind-ensures P (next_field fields) _ λ (gateway_text, fields) _.
            bind-ensures P (parse_proc_address gateway_text) _ λ gateway _.
              bind-ensures P (next_field fields) _ λ (flags_text, fields) _.
                bind-ensures P (parse_proc_hex flags_text) _ λ flags _.
                  bind-ensures P (next_field fields) _ λ (_, fields) _.
                    bind-ensures P (next_field fields) _ λ (_, fields) _.
                      bind-ensures P (next_field fields) _ λ (metric_text, fields) _.
                        bind-ensures P (ok_or (u32_from_str_radix 10 metric_text) malformed) _
                          λ metric is_metric.
                            bind-ensures P (next_field fields) _ λ (mask_text, fields) _.
                              bind-ensures P (parse_proc_address mask_text) _ λ mask _.
                                bind-ensures P (ok_or (prefix_len mask) malformed) _
                                  λ prefix is_prefix.
                                    bind-ensures P (interface_name_bytes interface) _
                                      λ name is_name. ok-ensures RouteReadError P (
                                        row_fits metric_text metric mask prefix interface name
                                          is_metric is_prefix is_name)

abbrev Holds : List RouteRecord → Type 0
Holds routes = (length routes ≤ route_table_max_records) × All IsTableRoute routes

parse_proc_lines-Holds :
    (rest : List Text) (index : ℕ) (acc routes : List RouteRecord)
    → Holds acc
    → parse_proc_lines index acc rest ≡ ok routes
    → Holds routes
unfolding parse_proc_lines
parse_proc_lines-Holds [] index acc routes h e =
    let same : acc ≡ routes = ground arith in subst Holds same h
parse_proc_lines-Holds (line ∷ rest) index acc routes h e =
    elim (Bool-cases (index == 0 && starts_with (codes "Iface") line)) [
      | inl header ↦ parse_proc_lines-Holds rest (suc index) acc routes h (ground arith)
      | inr row ↦ elim (Bool-cases (no_text line)) [
        | inl blank ↦ parse_proc_lines-Holds rest (suc index) acc routes h (ground arith)
        | inr written ↦ elim (Result-cases (parse_proc_route_line line)) [
          | inr (problem, refused) ↦ absurd (ground arith)
          | inl (r, read) ↦
              let fits =
                ensures-ok IsTableRoute (parse_proc_route_line line)
                  (parse_proc_route_line-ensures line) read in
              let room : (length acc == route_table_max_records) ≡ false = ground arith in
              parse_proc_lines-Holds rest (suc index) (acc ++ r ∷ []) routes
                (
                  ground (arith, h.0, room, length-append acc (r ∷ [])),
                  All-append IsTableRoute acc (r ∷ []) h.1 (fits, tt),
                )
                (ground arith)
        ]
      ]
    ]

-- A table that is accepted has at most 128 routes, each with a prefix length of at most 32, a metric
-- that fits 32 bits, and an interface name of one to fifteen bytes.
pub parse_proc_net_route-Holds :
    (text : Text) (routes : List RouteRecord)
    → parse_proc_net_route text ≡ ok routes
    → (length routes ≤ route_table_max_records) × All IsTableRoute routes
unfolding parse_proc_net_route
parse_proc_net_route-Holds text routes e =
    parse_proc_lines-Holds (lines text) 0 [] routes (omega arith, tt) (ground arith)
