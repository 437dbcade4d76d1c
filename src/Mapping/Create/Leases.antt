-- ===== src/Mapping/Create/Leases.antt =====
-- What a creation that succeeds has obtained (src/network_traversal/mapping.rs).
use liskov_runtime_cargo.Prelude.{
  ℕ, ◌≤◌, ◌<◌, ◌≡◌, ◌≢◌, ◌⊎◌, inl, inr, refl, sym, subst, Bool, true, false, Option, some, Bytes,
  arith, Bool-cases, ◌==◌,
}
use liskov_runtime_cargo.Prelude.Result.{Result, ok, Result-cases}
use liskov_runtime_cargo.Gateway.Routes.{SelectedGateway}
use liskov_runtime_cargo.Gateway.Control.{Url}
use liskov_runtime_cargo.Traversal.Outcomes.{TraversalOutcome, TraversalCleanup}
use liskov_runtime_cargo.Mapping.Packets.{
  Parsed, DecodeFault, ServerClass, success, denied, unsupported, conflict, failed,
}
use liskov_runtime_cargo.Mapping.Effects.{
  OwnedMappingHandle, MappingEffect, has_rebooted, Turn, exchange, local_outcome,
}
use liskov_runtime_cargo.Mapping.Delete.{delete_packet}
use liskov_runtime_cargo.Mapping.Delete.Confirmed.{send_delete-succeeded, send_delete-granted}
use liskov_runtime_cargo.Mapping.Create.{
  MapParts, correlated_handle, within, lacks_address, answered, adopt_or_refuse, not_a_response,
  classified, create_answered, exchange_create,
}

-- The lease that is held: the handle correlates with the request, its grant is positive and within
-- the ceiling, and its port can be used.
abbrev pub IsLease : MapParts → MappingEffect → Type 0
IsLease parts effect =
    (h : OwnedMappingHandle) × (effect.handle ≡ some h)
    × (effect.cleanup ≡ TraversalCleanup.lease_expiry_pending)
    × (h.protocol ≡ parts.protocol)
    × (h.port_protocol ≡ parts.port_protocol)
    × (h.internal_port ≡ parts.internal_port)
    × (h.nonce ≡ parts.nonce)
    × (h.cleanup_authorized ≡ true)
    × (h.external_port ≢ 0)
    × (1 ≤ h.granted_lifetime_sec)
    × (h.granted_lifetime_sec ≤ parts.ceiling)
    × (has_rebooted parts.previous_epoch h.epoch ≡ false)
    × (lacks_address parts.protocol h.external_address ≡ false)

-- A grant past the ceiling that was given back: its deletion is confirmed.
abbrev pub IsReturned : MapParts → MappingEffect → Type 0
IsReturned parts effect =
    (effect.cleanup ≡ TraversalCleanup.confirmed_deleted)
    × (parts.reservation_authorizes_delete ≡ true)
    × ((lifetime : ℕ) × (effect.granted_lifetime_sec ≡ some lifetime)
        × (parts.ceiling < lifetime)
        × (lifetime ≤ 120))

module _ (parse_url : Bytes → Option Url) (gateway : SelectedGateway) where
  returned :
      (parts : MapParts) (parsed : Parsed) (turn : Turn)
      → within parts.ceiling parsed.lifetime ≡ false
      → parts.reservation_authorizes_delete ≡ true
      → (adopt_or_refuse parse_url (answered parts parsed) parts parsed gateway turn).0.outcome
        ≡ TraversalOutcome.succeeded
      → IsReturned parts
          (adopt_or_refuse parse_url (answered parts parsed) parts parsed gateway turn).0
  unfolding adopt_or_refuse
  returned parts parsed turn overlong authorized e =
      let h =
        correlated_handle parts parsed.assigned_port parsed.lifetime parsed.epoch
          parts.reservation_authorizes_delete in
      elim (Bool-cases (lacks_address parts.protocol parsed.assigned_ip)) [
        | inl lacks ↦ absurd (ground arith)
        | inr has ↦
            let (deleted, positive, finite) =
              send_delete-succeeded parse_url gateway h (delete_packet h) (some parsed.epoch) turn 1
                (ground arith) in
            let granted =
              send_delete-granted parse_url gateway h (delete_packet h) (some parsed.epoch) turn
                1 in
            (ground arith, authorized, (parsed.lifetime, ground arith, ground arith, finite))
      ]

  not_returned :
      (parts : MapParts) (parsed : Parsed) (turn : Turn)
      → within parts.ceiling parsed.lifetime ≡ false
      → parts.reservation_authorizes_delete ≡ false
      → (adopt_or_refuse parse_url (answered parts parsed) parts parsed gateway turn).0.outcome
        ≢ TraversalOutcome.succeeded
  unfolding adopt_or_refuse
  not_returned parts parsed turn overlong unauthorized =
      elim (Bool-cases (lacks_address parts.protocol parsed.assigned_ip)) [
        | inl lacks ↦ λ e. ground arith
        | inr has ↦ λ e. ground arith
      ]

  finite_held :
      (parts : MapParts) (parsed : Parsed) (turn : Turn)
      → within parts.ceiling parsed.lifetime ≡ true
      → (classified parse_url success parts parsed gateway turn).0.outcome
        ≡ TraversalOutcome.succeeded
      → IsLease parts (classified parse_url success parts parsed gateway turn).0
  unfolding classified adopt_or_refuse
  finite_held parts parsed turn finite e =
      elim (Bool-cases (lacks_address parts.protocol parsed.assigned_ip)) [
        | inl lacks ↦ absurd (ground arith)
        | inr has ↦ elim (Bool-cases (parsed.assigned_port == 0)) [
          | inl zero_port ↦ absurd (ground arith)
          | inr port ↦ elim (Bool-cases (has_rebooted parts.previous_epoch parsed.epoch)) [
            | inl moved ↦ absurd (ground arith)
            | inr steady ↦ (
              record (correlated_handle parts parsed.assigned_port parsed.lifetime parsed.epoch
                  true) { external_address = parsed.assigned_ip },
              ground arith,
              ground arith,
              refl,
              refl,
              refl,
              refl,
              refl,
              ground arith,
              ground arith,
              ground arith,
              steady,
              has,
            )
          ]
        ]
      ]

  success_held :
      (parts : MapParts) (parsed : Parsed) (turn : Turn)
      → (classified parse_url success parts parsed gateway turn).0.outcome
        ≡ TraversalOutcome.succeeded
      → IsLease parts (classified parse_url success parts parsed gateway turn).0
        ⊎ IsReturned parts (classified parse_url success parts parsed gateway turn).0
  unfolding classified
  success_held parts parsed turn e = elim (Bool-cases (within parts.ceiling parsed.lifetime)) [
    | inl finite ↦ inl (finite_held parts parsed turn finite e)
    | inr overlong ↦ elim (Bool-cases parts.reservation_authorizes_delete) [
      | inl authorized ↦
          let (deleted, mine, (lifetime, granted, past, most)) =
            returned parts parsed turn overlong authorized (ground arith) in
          inr (ground arith, mine, (lifetime, ground arith, past, most))
      | inr unauthorized ↦
          absurd (ground (arith, not_returned parts parsed turn overlong unauthorized))
    ]
  ]

  class_held :
      (class : ServerClass) (parts : MapParts) (parsed : Parsed) (turn : Turn)
      → (classified parse_url class parts parsed gateway turn).0.outcome
        ≡ TraversalOutcome.succeeded
      → (class ≡ success)
        × (IsLease parts (classified parse_url class parts parsed gateway turn).0
            ⊎ IsReturned parts (classified parse_url class parts parsed gateway turn).0)
  unfolding classified
  class_held success parts parsed turn e = (refl, success_held parts parsed turn e)
  class_held denied parts parsed turn e = absurd (ground arith)
  class_held unsupported parts parsed turn e = absurd (ground arith)
  class_held conflict parts parsed turn e = absurd (ground arith)
  class_held failed parts parsed turn e = absurd (ground arith)

  -- A reply that a creation rests on.
  abbrev pub IsGrant : (ℕ → ServerClass) → Parsed → Type 0
  IsGrant class parsed =
      (parsed.version_ok ≡ true) × (parsed.opcode_ok ≡ true) × (class parsed.result ≡ success)

  answered_accepted :
      (parts : MapParts) (turn : Turn) (class : ℕ → ServerClass) (parsed : Parsed)
      → parsed.version_ok ≡ true
      → parsed.opcode_ok ≡ true
      → create_answered parse_url parts gateway turn class parsed true
        ≡ classified parse_url (class parsed.result) parts parsed gateway turn
  unfolding create_answered
  answered_accepted parts turn class parsed version opcode = ground arith

  answered_held :
      (parts : MapParts) (turn : Turn) (class : ℕ → ServerClass) (parsed : Parsed) (matches : Bool)
      → (create_answered parse_url parts gateway turn class parsed matches).0.outcome
        ≡ TraversalOutcome.succeeded
      → (matches ≡ true)
        × IsGrant class parsed
        × (IsLease parts (create_answered parse_url parts gateway turn class parsed matches).0
            ⊎ IsReturned parts
                (create_answered parse_url parts gateway turn class parsed matches).0)
  unfolding create_answered not_a_response
  answered_held parts turn class parsed false e = absurd (ground arith)
  answered_held parts turn class parsed true e = elim (Bool-cases parsed.version_ok) [
    | inr bad ↦ absurd (ground arith)
    | inl version ↦ elim (Bool-cases parsed.opcode_ok) [
      | inr bad ↦ absurd (ground arith)
      | inl opcode ↦
          let (granted, lease) =
            class_held (class parsed.result) parts parsed turn (ground arith) in
          (
            refl,
            (version, opcode, granted),
            subst (λ r. IsLease parts r.0 ⊎ IsReturned parts r.0)
                (sym (answered_accepted parts turn class parsed version opcode)) lease,
          )
    ]
  ]

  -- What a creation that succeeds rests on: the reply to its request is decoded, correlates with it,
  -- is a response of the protocol and version, and grants; and the lease is held, or was given back.
  abbrev pub IsCreated :
      MapParts
      → Bytes
      → Turn
      → (Bytes → Result DecodeFault Parsed)
      → (Parsed → Bool)
      → (ℕ → ServerClass)
      → MappingEffect
      → Type 0
  IsCreated parts request turn decode matches class effect =
      (body : Bytes) × (parsed : Parsed) × ((exchange parse_url gateway parts.protocol request
          turn).0
        ≡ ok body)
      × (decode body ≡ ok parsed)
      × (matches parsed ≡ true)
      × IsGrant class parsed
      × (IsLease parts effect ⊎ IsReturned parts effect)

  pub exchange_create-IsCreated :
      (parts : MapParts) (request : Bytes) (creating deleting : Turn)
      (decode : Bytes → Result DecodeFault Parsed) (matches : Parsed → Bool)
      (class : ℕ → ServerClass)
      → (exchange_create parse_url parts gateway request creating deleting decode matches
          class).0.outcome
        ≡ TraversalOutcome.succeeded
      → IsCreated parts request creating decode matches class
          (exchange_create parse_url parts gateway request creating deleting decode matches class).0
  unfolding exchange_create local_outcome
  exchange_create-IsCreated parts request creating deleting decode matches class e =
      elim (Bool-cases creating.stopped) [
        | inl stopped ↦ absurd (ground arith)
        | inr going ↦
            elim (Result-cases (exchange parse_url gateway parts.protocol request creating).0) [
              | inr (problem, lost) ↦ absurd (ground arith)
              | inl (body, got) ↦ elim (Result-cases (decode body)) [
                | inr (fault, bad) ↦ absurd (ground arith)
                | inl (parsed, is) ↦
                    let (matched, granted, lease) =
                      answered_held parts deleting class parsed (matches parsed) (ground arith) in
                    let same : (create_answered parse_url parts gateway deleting class parsed
                          (matches parsed)).0
                        ≡ (exchange_create parse_url parts gateway request creating deleting decode
                            matches class).0 =
                      ground arith in
                    (
                      body,
                      parsed,
                      got,
                      is,
                      matched,
                      granted,
                      subst (λ effect. IsLease parts effect ⊎ IsReturned parts effect) same lease,
                    )
              ]
            ]
      ]
