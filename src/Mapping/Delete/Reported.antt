-- ===== src/Mapping/Delete/Reported.antt =====
-- What a confirmed deletion reports (src/network_traversal/mapping.rs).
use liskov_runtime_cargo.Prelude.{
  ℕ, ◌≤◌, ◌≡◌, ◌≢◌, inl, inr, Option, none, Bytes, arith, Bool-cases,
}
use liskov_runtime_cargo.Prelude.Result.{ok, Result-cases}
use liskov_runtime_cargo.Gateway.Routes.{SelectedGateway}
use liskov_runtime_cargo.Gateway.Control.{Url}
use liskov_runtime_cargo.Traversal.Outcomes.{TraversalOutcome, TraversalCleanup}
use liskov_runtime_cargo.Mapping.Packets.{Parsed}
use liskov_runtime_cargo.Mapping.Effects.{
  OwnedMappingHandle, MappingEffect, transport_refusal, Turn, exchange,
}
use liskov_runtime_cargo.Mapping.Delete.{
  decode_for, delete_begun, delete_answered, delete_ended, send_delete,
}
use liskov_runtime_cargo.Mapping.Delete.Confirmed.{sending, begun_cleanup, ended_lost}

-- A success, with no refusal.
abbrev pub IsPlainSuccess : MappingEffect → Type 0
IsPlainSuccess effect = (effect.outcome ≡ TraversalOutcome.succeeded) × (effect.refusal ≡ none)

begun_plain :
    (h : OwnedMappingHandle) (n : ℕ)
    → 1 ≤ h.granted_lifetime_sec
    → h.granted_lifetime_sec ≤ 120
    → (delete_begun h n).refusal ≡ none
unfolding delete_begun
begun_plain h n least most = ground arith

answered_plain :
    (h : OwnedMappingHandle) (previous : Option ℕ) (effect : MappingEffect) (parsed : Parsed)
    → effect.cleanup ≢ TraversalCleanup.confirmed_deleted
    → effect.refusal ≡ none
    → (delete_answered h previous effect parsed).cleanup ≡ TraversalCleanup.confirmed_deleted
    → IsPlainSuccess (delete_answered h previous effect parsed)
unfolding delete_answered
answered_plain h previous effect parsed not_yet fresh e = (ground arith, ground arith)

ended_plain :
    (h : OwnedMappingHandle) (previous : Option ℕ) (effect : MappingEffect) (body : Bytes)
    → effect.cleanup ≢ TraversalCleanup.confirmed_deleted
    → effect.refusal ≡ none
    → (delete_ended h previous effect (ok body)).cleanup ≡ TraversalCleanup.confirmed_deleted
    → IsPlainSuccess (delete_ended h previous effect (ok body))
unfolding delete_ended
ended_plain h previous effect body not_yet fresh e =
    elim (Result-cases (decode_for h.protocol body)) [
      | inr (fault, is) ↦ absurd (ground arith)
      | inl (parsed, is) ↦
          let (done, unrefused) =
            answered_plain h previous effect parsed not_yet fresh (ground arith) in
          (ground arith, ground arith)
    ]

module _ (parse_url : Bytes → Option Url) (gateway : SelectedGateway) where
  -- A confirmed deletion of a finite grant is reported as a success, with no refusal.
  pub send_delete-IsPlainSuccess :
      (h : OwnedMappingHandle) (request : Bytes) (previous : Option ℕ) (turn : Turn) (n : ℕ)
      → 1 ≤ h.granted_lifetime_sec
      → h.granted_lifetime_sec ≤ 120
      → (send_delete parse_url h gateway request previous turn n).0.cleanup
        ≡ TraversalCleanup.confirmed_deleted
      → IsPlainSuccess (send_delete parse_url h gateway request previous turn n).0
  unfolding send_delete
  send_delete-IsPlainSuccess h request previous turn n least most e =
      elim (Bool-cases turn.stopped) [
        | inl stopped ↦ absurd (ground (arith, begun_cleanup h n))
        | inr going ↦ elim (Result-cases (exchange parse_url gateway h.protocol request turn).0) [
          | inr (problem, lost) ↦
              absurd (ended_lost h previous n (transport_refusal problem) (ground arith))
          | inl (body, got) ↦
              let (done, unrefused) =
                ended_plain h previous (sending h n) body (begun_cleanup h n)
                  (begun_plain h n least most) (ground arith) in
              (ground arith, ground arith)
        ]
      ]
