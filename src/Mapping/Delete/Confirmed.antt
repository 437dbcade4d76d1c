-- ===== src/Mapping/Delete/Confirmed.antt =====
-- What a deletion may send, and when it is confirmed (src/network_traversal/mapping.rs).
use liskov_runtime_cargo.Prelude.{
  ℕ, ◌+◌, ◌≤◌, ◌<◌, ◌≡◌, ◌≢◌, ◌⊎◌, inl, inr, refl, true, false, Option, none, some, List, [], ◌∷◌,
  Bytes, arith, Bool-cases, length, ltb, ◌||◌, Option-cases, saturating_add, u8_max,
}
use liskov_runtime_cargo.Prelude.Result.{Result, ok, err, Result-cases}
use liskov_runtime_cargo.Gateway.Routes.{SelectedGateway}
use liskov_runtime_cargo.Gateway.Control.{
  RouterProtocol, pcp, nat_pmp, upnp_igd, SocketAddr, Url, router_control_port, control_destination,
  exchange_with_gateway, control_max_bytes, is_empty,
}
use liskov_runtime_cargo.Traversal.Outcomes.{TraversalOutcome, TraversalCleanup}
use liskov_runtime_cargo.Mapping.Packets.{Parsed}
use liskov_runtime_cargo.Mapping.Effects.{
  MappingRefusal, OwnedMappingHandle, MappingEffect, has_rebooted, transport_refusal, Turn, Sent,
  exchange,
}
use liskov_runtime_cargo.Mapping.Delete.{
  answers, class_for, is_success, decode_for, delete_begun, delete_answered, delete_ended,
  send_delete, is_upnp,
}

abbrev pub control_port : SelectedGateway → SocketAddr
control_port gateway = record { address = gateway.gateway; port = router_control_port }

-- A request that is sent once, to the gateway's control port, or nothing.
abbrev pub SendsOnce : SelectedGateway → Bytes → List Sent → Type 0
SendsOnce gateway request sent = (sent ≡ []) ⊎ (sent ≡ (control_port gateway, request) ∷ [])

pub SendsOnce-length :
    (gateway : SelectedGateway) (request : Bytes) (sent : List Sent)
    → SendsOnce gateway request sent
    → length sent ≤ 1
SendsOnce-length gateway request sent (inl e) = ground arith
SendsOnce-length gateway request sent (inr e) = ground arith

module _ (parse_url : Bytes → Option Url) (gateway : SelectedGateway) where
  pub exchange-SendsOnce :
      (protocol : RouterProtocol) (request : Bytes) (turn : Turn)
      → is_upnp protocol ≡ false
      → SendsOnce gateway request (exchange parse_url gateway protocol request turn).1
  unfolding exchange exchange_with_gateway control_destination
  exchange-SendsOnce upnp_igd request turn h = absurd (ground arith)
  exchange-SendsOnce pcp request turn h = elim (Bool-cases turn.cancelled.before) [
    | inl early ↦ inl (ground arith)
    | inr going ↦ elim (Bool-cases (is_empty request || ltb control_max_bytes (length request))) [
      | inl bad ↦ inl (ground arith)
      | inr fine ↦ inr (ground arith)
    ]
  ]
  exchange-SendsOnce nat_pmp request turn h = elim (Bool-cases turn.cancelled.before) [
    | inl early ↦ inl (ground arith)
    | inr going ↦ elim (Bool-cases (is_empty request || ltb control_max_bytes (length request))) [
      | inl bad ↦ inl (ground arith)
      | inr fine ↦ inr (ground arith)
    ]
  ]

  -- An exchange that gives a response has sent its request.
  pub exchange_sent :
      (protocol : RouterProtocol) (request : Bytes) (turn : Turn) (body : Bytes)
      → is_upnp protocol ≡ false
      → (exchange parse_url gateway protocol request turn).0 ≡ ok body
      → (exchange parse_url gateway protocol request turn).1 ≡ (control_port gateway, request) ∷ []
  unfolding exchange exchange_with_gateway control_destination
  exchange_sent upnp_igd request turn body h e = absurd (ground arith)
  exchange_sent pcp request turn body h e = elim (Bool-cases turn.cancelled.before) [
    | inl early ↦ absurd (ground arith)
    | inr going ↦ elim (Bool-cases (is_empty request || ltb control_max_bytes (length request))) [
      | inl bad ↦ absurd (ground arith)
      | inr fine ↦ ground arith
    ]
  ]
  exchange_sent nat_pmp request turn body h e = elim (Bool-cases turn.cancelled.before) [
    | inl early ↦ absurd (ground arith)
    | inr going ↦ elim (Bool-cases (is_empty request || ltb control_max_bytes (length request))) [
      | inl bad ↦ absurd (ground arith)
      | inr fine ↦ ground arith
    ]
  ]

-- A success without a refusal needs a finite grant.
begun_outcome :
    (h : OwnedMappingHandle) (n : ℕ) → (delete_begun h n).outcome ≢ TraversalOutcome.succeeded
unfolding delete_begun
begun_outcome h n = λ e. ground arith

answered_confirmed :
    (h : OwnedMappingHandle) (previous : Option ℕ) (effect : MappingEffect) (parsed : Parsed)
    → effect.cleanup ≢ TraversalCleanup.confirmed_deleted
    → (delete_answered h previous effect parsed).cleanup ≡ TraversalCleanup.confirmed_deleted
    → (answers h.protocol h parsed ≡ true)
      × (has_rebooted previous parsed.epoch ≡ false)
      × (is_success (class_for h.protocol parsed.result) ≡ true)
      × (parsed.lifetime ≡ 0)
unfolding delete_answered
answered_confirmed h previous effect parsed not_yet e =
    (ground arith, ground arith, ground arith, ground arith)

answered_succeeded :
    (h : OwnedMappingHandle) (previous : Option ℕ) (effect : MappingEffect) (parsed : Parsed)
    → effect.outcome ≢ TraversalOutcome.succeeded
    → (delete_answered h previous effect parsed).outcome ≡ TraversalOutcome.succeeded
    → ((delete_answered h previous effect parsed).cleanup ≡ TraversalCleanup.confirmed_deleted)
      × (effect.refusal ≡ none)
unfolding delete_answered
answered_succeeded h previous effect parsed not_yet e = elim (Option-cases effect.refusal) [
  | inl fresh ↦ (ground arith, fresh)
  | inr (refusal, is) ↦ absurd (ground arith)
]

-- What a confirmed deletion rests on: a reply that answers a request for this mapping, with success,
-- a lifetime of zero, and an epoch that did not fall.
abbrev pub IsConfirmation : OwnedMappingHandle → Option ℕ → Parsed → Type 0
IsConfirmation h previous_epoch parsed =
    (answers h.protocol h parsed ≡ true)
    × (has_rebooted previous_epoch parsed.epoch ≡ false)
    × (is_success (class_for h.protocol parsed.result) ≡ true)
    × (parsed.lifetime ≡ 0)

pub begun_cleanup :
    (h : OwnedMappingHandle) (n : ℕ)
    → (delete_begun h n).cleanup ≢ TraversalCleanup.confirmed_deleted
unfolding delete_begun
begun_cleanup h n = λ e. ground arith

begun_refusal :
    (h : OwnedMappingHandle) (n : ℕ)
    → (delete_begun h n).refusal ≡ none
    → (1 ≤ h.granted_lifetime_sec) × (h.granted_lifetime_sec ≤ 120)
unfolding delete_begun
begun_refusal h n e = (ground arith, ground arith)

ended_confirmed :
    (h : OwnedMappingHandle) (previous_epoch : Option ℕ) (effect : MappingEffect) (body : Bytes)
    → effect.cleanup ≢ TraversalCleanup.confirmed_deleted
    → (delete_ended h previous_epoch effect (ok body)).cleanup ≡ TraversalCleanup.confirmed_deleted
    → (parsed : Parsed) × (decode_for h.protocol body ≡ ok parsed)
      × IsConfirmation h previous_epoch parsed
unfolding delete_ended
ended_confirmed h previous_epoch effect body not_yet e =
    elim (Result-cases (decode_for h.protocol body)) [
      | inr (fault, is) ↦ absurd (ground arith)
      | inl (parsed, is) ↦
          (parsed, is, answered_confirmed h previous_epoch effect parsed not_yet (ground arith))
    ]

ended_succeeded :
    (h : OwnedMappingHandle) (previous_epoch : Option ℕ) (effect : MappingEffect) (body : Bytes)
    → effect.outcome ≢ TraversalOutcome.succeeded
    → (delete_ended h previous_epoch effect (ok body)).outcome ≡ TraversalOutcome.succeeded
    → ((delete_ended h previous_epoch effect (ok body)).cleanup
        ≡ TraversalCleanup.confirmed_deleted)
      × (effect.refusal ≡ none)
unfolding delete_ended
ended_succeeded h previous_epoch effect body not_yet e =
    elim (Result-cases (decode_for h.protocol body)) [
      | inr (fault, is) ↦ absurd (ground arith)
      | inl (parsed, is) ↦ ground (arith, answered_succeeded h previous_epoch effect parsed not_yet)
    ]

-- The effect that an exchange starts from.
abbrev pub sending : OwnedMappingHandle → ℕ → MappingEffect
sending h n = record (delete_begun h n) { requests_sent = saturating_add u8_max n 1 }

pub ended_lost :
    (h : OwnedMappingHandle) (previous_epoch : Option ℕ) (n : ℕ) (refusal : MappingRefusal)
    → (delete_ended h previous_epoch (sending h n) (err refusal)).cleanup
      ≢ TraversalCleanup.confirmed_deleted
unfolding delete_ended
ended_lost h previous_epoch n refusal = λ e. ground arith

ended_lost_outcome :
    (h : OwnedMappingHandle) (previous_epoch : Option ℕ) (n : ℕ) (refusal : MappingRefusal)
    → (delete_ended h previous_epoch (sending h n) (err refusal)).outcome
      ≢ TraversalOutcome.succeeded
unfolding delete_ended
ended_lost_outcome h previous_epoch n refusal = λ e. ground arith

ended_requests :
    (h : OwnedMappingHandle) (previous_epoch : Option ℕ) (effect : MappingEffect)
    (end : Result MappingRefusal Bytes)
    → (delete_ended h previous_epoch effect end).requests_sent ≡ effect.requests_sent
unfolding delete_ended delete_answered
ended_requests h previous_epoch effect (err refusal) = refl
ended_requests h previous_epoch effect (ok body) = ground arith

begun_requests : (h : OwnedMappingHandle) (n : ℕ) → (delete_begun h n).requests_sent ≡ n
unfolding delete_begun
begun_requests h n = ground arith

ended_granted :
    (h : OwnedMappingHandle) (previous_epoch : Option ℕ) (effect : MappingEffect)
    (end : Result MappingRefusal Bytes)
    → (delete_ended h previous_epoch effect end).granted_lifetime_sec ≡ effect.granted_lifetime_sec
unfolding delete_ended delete_answered
ended_granted h previous_epoch effect (err refusal) = refl
ended_granted h previous_epoch effect (ok body) = ground arith

begun_granted :
    (h : OwnedMappingHandle) (n : ℕ)
    → (delete_begun h n).granted_lifetime_sec ≡ some h.granted_lifetime_sec
unfolding delete_begun
begun_granted h n = ground arith

module _ (parse_url : Bytes → Option Url) (gateway : SelectedGateway) where
  pub send_delete-granted :
      (h : OwnedMappingHandle) (request : Bytes) (previous_epoch : Option ℕ) (turn : Turn) (n : ℕ)
      → (send_delete parse_url h gateway request previous_epoch turn n).0.granted_lifetime_sec
        ≡ some h.granted_lifetime_sec
  unfolding send_delete
  send_delete-granted h request previous_epoch turn n =
      let kept =
        λ (end : Result MappingRefusal Bytes). ended_granted h previous_epoch (sending h n) end in
      elim (Bool-cases turn.stopped) [
        | inl stopped ↦ ground (arith, begun_granted h n)
        | inr going ↦ elim (Result-cases (exchange parse_url gateway h.protocol request turn).0) [
          | inr (problem, lost) ↦
              ground (arith, begun_granted h n, kept (err (transport_refusal problem)))
          | inl (body, got) ↦ ground (arith, begun_granted h n, kept (ok body))
        ]
      ]

  pub send_delete-confirmed :
      (h : OwnedMappingHandle) (request : Bytes) (previous_epoch : Option ℕ) (turn : Turn) (n : ℕ)
      → (send_delete parse_url h gateway request previous_epoch turn n).0.cleanup
        ≡ TraversalCleanup.confirmed_deleted
      → (body : Bytes) × (parsed : Parsed) × ((exchange parse_url gateway h.protocol request turn).0
          ≡ ok body)
        × (decode_for h.protocol body ≡ ok parsed)
        × IsConfirmation h previous_epoch parsed
        × (turn.stopped ≡ false)
  unfolding send_delete
  send_delete-confirmed h request previous_epoch turn n e = elim (Bool-cases turn.stopped) [
    | inl stopped ↦ absurd (ground (arith, begun_cleanup h n))
    | inr going ↦ elim (Result-cases (exchange parse_url gateway h.protocol request turn).0) [
      | inr (problem, lost) ↦
          absurd (ended_lost h previous_epoch n (transport_refusal problem) (ground arith))
      | inl (body, got) ↦
          let (parsed, is, confirms) =
            ended_confirmed h previous_epoch (sending h n) body (begun_cleanup h n)
              (ground arith) in
          (body, parsed, got, is, confirms, going)
    ]
  ]

  -- A deletion that succeeds is confirmed, of a finite grant.
  pub send_delete-succeeded :
      (h : OwnedMappingHandle) (request : Bytes) (previous_epoch : Option ℕ) (turn : Turn) (n : ℕ)
      → (send_delete parse_url h gateway request previous_epoch turn n).0.outcome
        ≡ TraversalOutcome.succeeded
      → ((send_delete parse_url h gateway request previous_epoch turn n).0.cleanup
          ≡ TraversalCleanup.confirmed_deleted)
        × (1 ≤ h.granted_lifetime_sec)
        × (h.granted_lifetime_sec ≤ 120)
  unfolding send_delete
  send_delete-succeeded h request previous_epoch turn n e = elim (Bool-cases turn.stopped) [
    | inl stopped ↦ absurd (ground (arith, begun_outcome h n))
    | inr going ↦ elim (Result-cases (exchange parse_url gateway h.protocol request turn).0) [
      | inr (problem, lost) ↦
          absurd (ended_lost_outcome h previous_epoch n (transport_refusal problem) (ground arith))
      | inl (body, got) ↦
          let (deleted, fresh) =
            ended_succeeded h previous_epoch (sending h n) body (begun_outcome h n)
              (ground arith) in
          let (positive, finite) = begun_refusal h n fresh in (ground arith, positive, finite)
    ]
  ]

  -- A deletion sends its packet once, or nothing; it counts one more request than before if it came
  -- to the exchange, sent or not.
  pub send_delete-Sends :
      (h : OwnedMappingHandle) (request : Bytes) (previous_epoch : Option ℕ) (turn : Turn) (n : ℕ)
      → is_upnp h.protocol ≡ false
      → n < 255
      → let (effect, sent) = send_delete parse_url h gateway request previous_epoch turn n in
        SendsOnce gateway request sent
        × (n + length sent ≤ effect.requests_sent)
        × (effect.requests_sent ≤ n + 1)
  unfolding send_delete
  send_delete-Sends h request previous_epoch turn n datagrams small =
      let once = exchange-SendsOnce parse_url gateway h.protocol request turn datagrams in
      let most =
        SendsOnce-length gateway request (exchange parse_url gateway h.protocol request turn).1
          once in
      elim (Bool-cases turn.stopped) [
        | inl stopped ↦ (
          inl (ground arith),
          ground (arith, begun_requests h n),
          ground (arith, begun_requests h n),
        )
        | inr going ↦ elim (Result-cases (exchange parse_url gateway h.protocol request turn).0) [
          | inr (problem, lost) ↦ (
            ground (arith, once),
            ground (
              arith,
              most,
              ended_requests h previous_epoch (sending h n) (err (transport_refusal problem)),
            ),
            ground (
              arith,
              most,
              ended_requests h previous_epoch (sending h n) (err (transport_refusal problem)),
            ),
          )
          | inl (body, got) ↦ (
            ground (arith, once),
            ground (arith, most, ended_requests h previous_epoch (sending h n) (ok body)),
            ground (arith, most, ended_requests h previous_epoch (sending h n) (ok body)),
          )
        ]
      ]
