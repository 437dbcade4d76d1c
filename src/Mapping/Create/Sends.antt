-- ===== src/Mapping/Create/Sends.antt =====
-- What a creation by PCP or NAT-PMP sends, and what it counts (src/network_traversal/mapping.rs).
use liskov_runtime_cargo.Prelude.{
  ℕ, ◌+◌, ◌≤◌, ◌≡◌, ◌⊎◌, inl, inr, refl, subst, Bool, true, false, not, ◌&&◌, ◌||◌, Option, some,
  List, [], ◌∷◌, Bytes, arith, Bool-cases, length, ◌==◌,
}
use liskov_runtime_cargo.Prelude.Result.{Result, Result-cases}
use liskov_runtime_cargo.Gateway.Routes.{SelectedGateway}
use liskov_runtime_cargo.Gateway.Control.{Url}
use liskov_runtime_cargo.Mapping.Packets.{
  Parsed, DecodeFault, ServerClass, success, denied, unsupported, conflict, failed,
}
use liskov_runtime_cargo.Mapping.Effects.{
  OwnedMappingHandle, MappingEffect, has_rebooted, Turn, Sent, exchange,
}
use liskov_runtime_cargo.Mapping.Delete.{delete_packet, is_upnp}
use liskov_runtime_cargo.Mapping.Delete.Confirmed.{
  control_port, SendsOnce, SendsOnce-length, exchange-SendsOnce, exchange_sent, send_delete-Sends,
}
use liskov_runtime_cargo.Mapping.Create.{
  MapParts, correlated_handle, within, lacks_address, answered, adopt_or_refuse, not_a_response,
  classified, create_answered, exchange_create,
}

-- A handle for what the parts asked for.
abbrev pub Correlates : MapParts → OwnedMappingHandle → Type 0
Correlates parts h =
    (h.protocol ≡ parts.protocol)
    × (h.port_protocol ≡ parts.port_protocol)
    × (h.internal_port ≡ parts.internal_port)
    × (h.nonce ≡ parts.nonce)
    × (h.reservation_digest ≡ parts.digest)

-- A deletion after the creation: at most one, of the correlated mapping, under the reservation.
abbrev DeletesOwn : SelectedGateway → MapParts → List Sent → Type 0
DeletesOwn gateway parts sent =
    (sent ≡ [])
    ⊎ ((h : OwnedMappingHandle) × (sent ≡ (control_port gateway, delete_packet h) ∷ [])
        × Correlates parts h
        × (parts.reservation_authorizes_delete ≡ true))

abbrev Counts : MappingEffect → List Sent → Type 0
Counts effect sent = (1 + length sent ≤ effect.requests_sent) × (effect.requests_sent ≤ 2)

module _ (parse_url : Bytes → Option Url) (gateway : SelectedGateway) (parts : MapParts)
    (datagrams : is_upnp parts.protocol ≡ false) where
  abbrev Follows : MappingEffect × List Sent → Type 0
  Follows r = DeletesOwn gateway parts r.1 × Counts r.0 r.1

  adopt-Follows :
      (parsed : Parsed) (turn : Turn)
      → Follows (adopt_or_refuse parse_url (answered parts parsed) parts parsed gateway turn)
  unfolding adopt_or_refuse
  adopt-Follows parsed turn =
      let h =
        correlated_handle parts parsed.assigned_port parsed.lifetime parsed.epoch
          parts.reservation_authorizes_delete in
      let (once, counted, most) =
        send_delete-Sends parse_url gateway h (delete_packet h) (some parsed.epoch) turn 1 datagrams
          (omega arith) in
      elim (Bool-cases (lacks_address parts.protocol parsed.assigned_ip)) [
        | inl lacks ↦ (inl (ground arith), (ground arith, ground arith))
        | inr has ↦ elim (Bool-cases (within parts.ceiling parsed.lifetime)) [
          | inl finite ↦ (inl (ground arith), (ground arith, ground arith))
          | inr overlong ↦ elim (Bool-cases parts.reservation_authorizes_delete) [
            | inr unauthorized ↦ (inl (ground arith), (ground arith, ground arith))
            | inl authorized ↦ (
              elim once [
                | inl nothing ↦ inl (ground arith)
                | inr one ↦ inr (h, ground arith, (refl, refl, refl, refl, refl), authorized)
              ],
              (ground arith, ground arith),
            )
          ]
        ]
      ]

  classified-Follows :
      (class : ServerClass) (parsed : Parsed) (turn : Turn)
      → Follows (classified parse_url class parts parsed gateway turn)
  unfolding classified
  classified-Follows denied parsed turn = (inl refl, (ground arith, ground arith))
  classified-Follows unsupported parsed turn = (inl refl, (ground arith, ground arith))
  classified-Follows conflict parsed turn = (inl refl, (ground arith, ground arith))
  classified-Follows failed parsed turn = (inl refl, (ground arith, ground arith))
  classified-Follows success parsed turn =
      let (deletes, (least, most)) = adopt-Follows parsed turn in
      elim (Bool-cases (
        has_rebooted parts.previous_epoch parsed.epoch
        && within parts.ceiling parsed.lifetime
        && not (parsed.assigned_port == 0))) [
          | inl moved ↦ (inl (ground arith), (ground arith, ground arith))
          | inr steady ↦ (
            elim deletes [
              | inl nothing ↦ inl (ground arith)
              | inr (h, one, mine, authorized) ↦ inr (h, ground arith, mine, authorized)
            ],
            (ground arith, ground arith),
          )
        ]

  answered_response :
      (turn : Turn) (class : ℕ → ServerClass) (parsed : Parsed)
      → (not parsed.version_ok || not parsed.opcode_ok) ≡ false
      → classified parse_url (class parsed.result) parts parsed gateway turn
        ≡ create_answered parse_url parts gateway turn class parsed true
  unfolding create_answered
  answered_response turn class parsed response = ground arith

  answered-Follows :
      (turn : Turn) (class : ℕ → ServerClass) (parsed : Parsed) (matches : Bool)
      → Follows (create_answered parse_url parts gateway turn class parsed matches)
  unfolding create_answered not_a_response
  answered-Follows turn class parsed false = (inl refl, (ground arith, ground arith))
  answered-Follows turn class parsed true =
      elim (Bool-cases (not parsed.version_ok || not parsed.opcode_ok)) [
        | inl bad ↦ (inl (ground arith), (ground arith, ground arith))
        | inr response ↦
            subst Follows (answered_response turn class parsed response)
              (classified-Follows (class parsed.result) parsed turn)
      ]

  -- All that a creation sends, in order.
  abbrev pub IsSequence : Bytes → List Sent → Type 0
  IsSequence request sent =
      (sent ≡ [])
      ⊎ ((sent ≡ (control_port gateway, request) ∷ [])
          ⊎ ((h : OwnedMappingHandle) × (sent
                ≡ (control_port gateway, request) ∷ (control_port gateway, delete_packet h) ∷ [])
              × Correlates parts h
              × (parts.reservation_authorizes_delete ≡ true)))

  alone :
      (request : Bytes) (sent : List Sent)
      → SendsOnce gateway request sent
      → IsSequence request sent
  alone request sent (inl nothing) = inl nothing
  alone request sent (inr one) = inr (inl one)

  -- Whatever the gateway answers, a creation by PCP or NAT-PMP sends nothing, or its request once to
  -- the gateway's control port, or after it one deletion of the mapping that it asked for, under the
  -- reservation; and it counts at least what it sends, and at most two requests.
  pub exchange_create-IsSequence :
      (request : Bytes) (creating deleting : Turn) (decode : Bytes → Result DecodeFault Parsed)
      (matches : Parsed → Bool) (class : ℕ → ServerClass)
      → let (effect, sent) =
          exchange_create parse_url parts gateway request creating deleting decode matches class in
        IsSequence request sent × (length sent ≤ effect.requests_sent) × (effect.requests_sent ≤ 2)
  unfolding exchange_create
  exchange_create-IsSequence request creating deleting decode matches class =
      let first = exchange parse_url gateway parts.protocol request creating in
      let once = exchange-SendsOnce parse_url gateway parts.protocol request creating datagrams in
      let most = SendsOnce-length gateway request first.1 once in
      elim (Bool-cases creating.stopped) [
        | inl stopped ↦ (inl (ground arith), ground arith, ground arith)
        | inr going ↦ elim (Result-cases first.0) [
          | inr (problem, lost) ↦ (
            subst (IsSequence request) (ground arith) (alone request first.1 once),
            ground arith,
            ground arith,
          )
          | inl (body, got) ↦ elim (Result-cases (decode body)) [
            | inr (fault, bad) ↦ (
              subst (IsSequence request) (ground arith) (alone request first.1 once),
              ground arith,
              ground arith,
            )
            | inl (parsed, is) ↦
                let sent =
                  exchange_sent parse_url gateway parts.protocol request creating body datagrams
                    got in
                let (deletes, (least, bound)) =
                  answered-Follows deleting class parsed (matches parsed) in
                (
                  elim deletes [
                    | inl nothing ↦ inr (inl (ground arith))
                    | inr (h, one, mine, authorized) ↦ inr (inr (h, ground arith, mine, authorized))
                  ],
                  ground arith,
                  ground arith,
                )
          ]
        ]
      ]
