-- ===== src/Traversal/Control.antt =====
-- What one exchange and one path check of the mapping session do: `BoundedControl`, `delete_request`,
-- `ordinary` and `path` of src/network_traversal/lifecycle.rs. What the runtime answers, and what the
-- clock and the stop flag show at each point, are inputs; `hex::encode` is a parameter.
pub mod Proved
use liskov_runtime_cargo.Prelude.{
  is_some, ℕ, ◌+◌, Bool, true, false, not, ◌&&◌, ◌||◌, Option, none, some, List, [], ◌∷◌, ◌++◌,
  Bytes, bytes_eq, codes, ◌==◌, ltb, leb, if◌then◌else◌, length, take, drop, replicate,
}
use liskov_runtime_cargo.Prelude.Result.{Result, ok, err, ◌>>=◌, ◌>>◌, refuse_if, is_ok}
use liskov_runtime_cargo.Gateway.Numerals.{starts_with}
use liskov_runtime_cargo.Gateway.Control.{
  RouterProtocol, pcp, nat_pmp, upnp_igd, ControlRefusal, SocketAddr, Reply, control_max_bytes,
}
use liskov_runtime_cargo.Traversal.Texts.{TraversalRefusal}
use liskov_runtime_cargo.Traversal.Outcomes.{
  TraversalEvidenceAuthority, TraversalStage, TraversalMethod, TraversalTransport, TraversalFamily,
  TraversalOutcome, TraversalErrorClass, authority_rank, method_rank, transport_rank, family_rank,
  outcome_rank, is_outcome, is_stage, one_of,
}
use liskov_runtime_cargo.Traversal.Descriptor.{TraversalDescriptorV1}
use liskov_runtime_cargo.Traversal.Validate.{Checked}
use liskov_runtime_cargo.Traversal.Transcript.{TraversalTranscriptV1, some_and}
use liskov_runtime_cargo.Traversal.Transcript.Scope.{validate_scope}
use liskov_runtime_cargo.Traversal.Lifecycle.{
  MappingStop, Accounting, Charge, charge, udp_router, one_if,
}
use liskov_runtime_cargo.Mapping.Packets.{pcp_map_packet_bytes, natpmp_map_request_bytes}
use liskov_runtime_cargo.Mapping.Effects.{Sent, Turn}

-- What the clock and the stop flag show.
pub record Moment : Type 0 where
  pub stop : Option MappingStop
  pub now_ms : ℕ

unfoldable pub ordinary : Moment → ℕ → Result MappingStop (Unit {0})
ordinary m end = elim m.stop [
  | some stop ↦ err stop
  | none ↦ if leb end m.now_ms then err MappingStop.deadline else ok tt
]

-- `windows(pattern.len()).any(|w| w == pattern)`.
unfoldable pub has_window : Bytes → Bytes → Bool
has_window pattern [] = false
has_window pattern (b ∷ bs) = starts_with pattern (b ∷ bs) || has_window pattern bs

unfoldable pub delete_request : RouterProtocol → Bytes → Bool
delete_request pcp request =
    length request == pcp_map_packet_bytes && bytes_eq (take 4 (drop 4 request)) (replicate 4 0)
delete_request nat_pmp request =
    length request == natpmp_map_request_bytes && bytes_eq (take 4 (drop 8 request)) (replicate 4 0)
delete_request upnp_igd request = has_window (codes "#DeletePortMapping" ++ 34 ∷ []) request

-- The fields of `BoundedControl` that do not change.
pub record BoundedControl : Type 0 where
  pub protocol : RouterProtocol
  pub ordinary_end : ℕ
  pub cleanup_end : ℕ
  pub cleaning : Bool

-- What one exchange meets: the moment before it, the router, and the clock after it.
pub record Control : Type 0 where
  pub before : Moment
  pub router : SocketAddr → Bytes → ℕ → Reply
  pub after_ms : ℕ

-- `BoundedControl::exchange`, with the accounting after it.
unfoldable pub bounded_exchange :
    BoundedControl → Control → Accounting → SocketAddr → Bytes → ℕ → Reply × Accounting
bounded_exchange b c a destination request room =
    let cleanup = b.cleaning || delete_request b.protocol request in
    let end = if cleanup then b.cleanup_end else b.ordinary_end in
    let datagrams = one_if (udp_router b.protocol) in
    if leb end c.before.now_ms || (not cleanup && is_some c.before.stop)
    then (err ControlRefusal.bounded, a)
    else (if not (datagrams == 0) && ltb a.datagram_bytes (length request)
        then (err ControlRefusal.oversize, a)
        else elim (charge a
            (record { datagrams = datagrams; controls = 1; dialbacks = 0; cleanup = cleanup })) [
              | err stop ↦ (err ControlRefusal.bounded, a)
              | ok paid ↦ (
                elim (c.router destination request room) [
                  | err refusal ↦ err refusal
                  | ok (count, response) ↦
                      if ltb room count || (cleanup && leb end c.after_ms)
                      then err ControlRefusal.bounded
                      else ok (count, response)
                ],
                paid,
              )
            ])

-- The exchange as the adapters see it: their own callback never cancels.
abbrev pub turn_of : BoundedControl → Control → Accounting → Turn
turn_of b c a = record {
  stopped = false;
  cancelled = record { before = false; after = false };
  transport = λ destination request room. (bounded_exchange b c a destination request room).0;
}

-- The accounting after what an adapter sent, each request met by its control.
unfoldable pub spent : BoundedControl → Accounting → List Sent → List Control → Accounting
spent b a [] cs = a
spent b a (s ∷ sent) [] = a
spent b a ((destination, request) ∷ sent) (c ∷ cs) =
    spent b (bounded_exchange b c a destination request control_max_bytes).1 sent cs

pub record MappingPathCheck : Type 0 where
  pub stage : TraversalStage
  pub method : TraversalMethod
  pub transport : TraversalTransport
  pub family : TraversalFamily
  pub port : ℕ

pub record MappingPathEvidence : Type 0 where
  pub transcript : TraversalTranscriptV1
  pub echoed_challenge : Option Bytes

pub record MappingPathSummary : Type 0 where
  pub stage : TraversalStage
  pub outcome : TraversalOutcome
  pub error : Option TraversalErrorClass

-- What a path check meets, in the order of the code.
pub record PathRun : Type 0 where
  pub before : Moment
  pub evidence : Result MappingStop MappingPathEvidence
  pub between : Moment
  pub scope_ms : ℕ
  pub attested : Result MappingStop (Unit {0})
  pub after : Moment

abbrev pub path_outcome : TraversalOutcome → Bool
path_outcome outcome = one_of outcome_rank outcome (
    TraversalOutcome.succeeded ∷ TraversalOutcome.failed ∷ TraversalOutcome.unverifiable_endpoint
    ∷ TraversalOutcome.budget_exhausted ∷ TraversalOutcome.prober_no_egress ∷ [])

module _ (serialized_len : TraversalDescriptorV1 → Option ℕ)
    (descriptor_digest : TraversalDescriptorV1 → Result TraversalRefusal Bytes)
    (transcript_len : TraversalTranscriptV1 → Option ℕ) (hex_encode : Bytes → Bytes) where
  -- The transcript answers this check, in scope, and a success echoes its challenge.
  unfoldable pub path_matches :
      TraversalDescriptorV1 → MappingPathCheck → MappingPathEvidence → ℕ → Bool
  path_matches d check evidence now_ms =
      let t = evidence.transcript in
      is_ok (validate_scope serialized_len descriptor_digest transcript_len t d now_ms)
      && authority_rank t.authority == authority_rank TraversalEvidenceAuthority.external_path
      && is_stage t.stage check.stage
      && method_rank t.method == method_rank check.method
      && transport_rank t.transport == transport_rank check.transport
      && family_rank t.family == family_rank check.family
      && path_outcome t.outcome
      && not (
          is_outcome t.outcome TraversalOutcome.succeeded
          && not (some_and evidence.echoed_challenge (λ c. bytes_eq (hex_encode c) t.challenge)))

  -- What follows the charge.
  unfoldable pub path_charged :
      TraversalDescriptorV1 → MappingPathCheck → PathRun → ℕ → Result MappingStop MappingPathSummary
  path_charged d check run end = do
    evidence ← run.evidence
    ordinary run.between end
    refuse_if (not (path_matches d check evidence run.scope_ms)) MappingStop.invalid_binding
    run.attested
    ordinary run.after end
    ok (record {
      stage = check.stage;
      outcome = evidence.transcript.outcome;
      error = evidence.transcript.error_class;
    })

  unfoldable pub path :
      Accounting
      → TraversalDescriptorV1
      → MappingPathCheck
      → PathRun
      → ℕ
      → Result MappingStop MappingPathSummary × Accounting
  path a d check run end = elim (ordinary run.before end) [
    | err stop ↦ (err stop, a)
    | ok started ↦
        let udp = transport_rank check.transport == transport_rank TraversalTransport.udp in
        elim (charge a
          (record { datagrams = one_if udp; controls = 2; dialbacks = 1; cleanup = false })) [
            | err stop ↦ (err stop, a)
            | ok paid ↦ (path_charged d check run end, paid)
          ]
  ]
