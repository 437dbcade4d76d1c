-- ===== src/Traversal/Control/Proved.antt =====
-- What a path check that is reported rests on (`path` of src/network_traversal/lifecycle.rs).
use liskov_runtime_cargo.Prelude.{
  ℕ, ◌≡◌, refl, ◌⊎◌, inl, inr, Bool, true, false, not, ◌&&◌, ◌==◌, Option, none, some, Bytes,
  bytes_eq, Bool-cases, arith, bytes_eq→eq, ==_iff,
}
use liskov_runtime_cargo.Prelude.Result.{Result, ok, err, Result-cases, is_ok}
use liskov_runtime_cargo.Traversal.Texts.{TraversalRefusal}
use liskov_runtime_cargo.Traversal.Outcomes.{
  TraversalEvidenceAuthority, TraversalOutcome, TraversalTransport, authority_rank, stage_rank,
  method_rank, transport_rank, family_rank, is_outcome, is_stage,
}
use liskov_runtime_cargo.Traversal.Descriptor.{TraversalDescriptorV1}
use liskov_runtime_cargo.Traversal.Transcript.{TraversalTranscriptV1, some_and}
use liskov_runtime_cargo.Traversal.Transcript.Scope.{validate_scope}
use liskov_runtime_cargo.Traversal.Transcript.Evidence.{IsInScope, validate_scope-IsInScope}
use liskov_runtime_cargo.Traversal.Lifecycle.{Accounting, Charge, charge, one_if}
use liskov_runtime_cargo.Traversal.Control.{
  MappingPathCheck, MappingPathEvidence, MappingPathSummary, PathRun, ordinary, path, path_charged,
  path_matches, path_outcome,
}

-- The tests that are read, of a conjunction of eight.
conjuncts :
    (a b c d e f g h : Bool)
    → (a && b && c && d && e && f && g && h) ≡ true
    → (a ≡ true) × (b ≡ true) × (c ≡ true) × (d ≡ true) × (e ≡ true) × (h ≡ true)
conjuncts a b c d e f g h all =
    (ground arith, ground arith, ground arith, ground arith, ground arith, ground arith)

echo_matches :
    (success : Bool) (hex_encode : Bytes → Bytes) (challenge : Bytes) (echo : Option Bytes)
    → not (success && not (some_and echo (λ c. bytes_eq (hex_encode c) challenge))) ≡ true
    → (success ≡ false) ⊎ ((c : Bytes) × (echo ≡ some c) × (hex_encode c ≡ challenge))
echo_matches false hex_encode challenge echo h = inl refl
echo_matches true hex_encode challenge none h = absurd (ground arith)
echo_matches true hex_encode challenge (some c) h =
    inr (c, refl, bytes_eq→eq (hex_encode c) challenge (ground arith))

is_ok-eq-ok : {E : Type 0} (r : Result E (Unit {0})) → is_ok r ≡ true → r ≡ ok tt
is_ok-eq-ok (ok u) h = refl
is_ok-eq-ok (err e) h = absurd (ground arith)

module _ (serialized_len : TraversalDescriptorV1 → Option ℕ)
    (descriptor_digest : TraversalDescriptorV1 → Result TraversalRefusal Bytes)
    (transcript_len : TraversalTranscriptV1 → Option ℕ) (hex_encode : Bytes → Bytes) where
  -- Evidence for a check: a transcript in scope, of the check's phase, and a success that was echoed.
  abbrev pub IsProof : TraversalDescriptorV1 → MappingPathCheck → MappingPathEvidence → ℕ → Type 0
  IsProof d check evidence now_ms =
      IsInScope serialized_len descriptor_digest transcript_len evidence.transcript d now_ms
      × (authority_rank evidence.transcript.authority
          ≡ authority_rank TraversalEvidenceAuthority.external_path)
      × (stage_rank evidence.transcript.stage ≡ stage_rank check.stage)
      × (method_rank evidence.transcript.method ≡ method_rank check.method)
      × (transport_rank evidence.transcript.transport ≡ transport_rank check.transport)
      × ((is_outcome evidence.transcript.outcome TraversalOutcome.succeeded ≡ false)
          ⊎ ((c : Bytes) × (evidence.echoed_challenge ≡ some c)
              × (hex_encode c ≡ evidence.transcript.challenge)))

  path_matches-IsProof :
      (d : TraversalDescriptorV1) (check : MappingPathCheck) (evidence : MappingPathEvidence)
      (now_ms : ℕ)
      → path_matches serialized_len descriptor_digest transcript_len hex_encode d check evidence
          now_ms
        ≡ true
      → IsProof d check evidence now_ms
  unfolding path_matches
  path_matches-IsProof d check evidence now_ms h =
      let t = evidence.transcript in
      let (scoped, authority, stage, method, transport, echo) =
        conjuncts
          (is_ok (validate_scope serialized_len descriptor_digest transcript_len t d now_ms))
          (authority_rank t.authority == authority_rank TraversalEvidenceAuthority.external_path)
          (is_stage t.stage check.stage) (method_rank t.method == method_rank check.method)
          (transport_rank t.transport == transport_rank check.transport)
          (family_rank t.family == family_rank check.family) (path_outcome t.outcome)
          (not (
            is_outcome t.outcome TraversalOutcome.succeeded
            && not (some_and evidence.echoed_challenge (λ c. bytes_eq (hex_encode c) t.challenge))))
          h in
      (
        validate_scope-IsInScope serialized_len descriptor_digest transcript_len t d now_ms
            (is_ok-eq-ok _ scoped),
        (==_iff _ _).0 authority,
        (==_iff _ _).0 stage,
        (==_iff _ _).0 method,
        (==_iff _ _).0 transport,
        echo_matches (is_outcome t.outcome TraversalOutcome.succeeded) hex_encode t.challenge
            evidence.echoed_challenge echo,
      )

  path_charged-IsProof :
      (d : TraversalDescriptorV1) (check : MappingPathCheck) (run : PathRun) (end : ℕ)
      (summary : MappingPathSummary)
      → path_charged serialized_len descriptor_digest transcript_len hex_encode d check run end
        ≡ ok summary
      → (evidence : MappingPathEvidence) × (run.evidence ≡ ok evidence)
        × IsProof d check evidence run.scope_ms
        × (summary.outcome ≡ evidence.transcript.outcome)
        × (run.attested ≡ ok tt)
  unfolding path_charged
  path_charged-IsProof d check run end summary h = elim (Result-cases run.evidence) [
    | inr (stop, bad) ↦ absurd (ground arith)
    | inl (evidence, is) ↦ elim (Result-cases (ordinary run.between end)) [
      | inr (stop, bad) ↦ absurd (ground arith)
      | inl (go, goes_on) ↦
          elim (Bool-cases (
            path_matches serialized_len descriptor_digest transcript_len hex_encode d check evidence
              run.scope_ms)) [
                | inr other ↦ absurd (ground arith)
                | inl matches ↦ elim (Result-cases run.attested) [
                  | inr (stop, bad) ↦ absurd (ground arith)
                  | inl (done, attested) ↦ (
                    evidence,
                    is,
                    path_matches-IsProof d check evidence run.scope_ms matches,
                    elim (Result-cases (ordinary run.after end)) [
                      | inr (stop, bad) ↦ absurd (ground arith)
                      | inl (go_on, left) ↦ ground arith
                    ],
                    attested,
                  )
                ]
              ]
    ]
  ]

  -- A path check is reported only on evidence that a transcript in scope proves, from outside, for
  -- this check's stage, method and transport, and whose success the device echoed; the summary has
  -- that transcript's outcome, and the transcript was attested.
  pub path-IsProof :
      (a : Accounting) (d : TraversalDescriptorV1) (check : MappingPathCheck) (run : PathRun)
      (end : ℕ) {summary : MappingPathSummary}
      → (path serialized_len descriptor_digest transcript_len hex_encode a d check run end).0
        ≡ ok summary
      → (evidence : MappingPathEvidence) × (run.evidence ≡ ok evidence)
        × IsProof d check evidence run.scope_ms
        × (summary.outcome ≡ evidence.transcript.outcome)
        × (run.attested ≡ ok tt)
  unfolding path
  path-IsProof a d check run end {summary} h =
      let udp = transport_rank check.transport == transport_rank TraversalTransport.udp in
      let x : Charge = record {
        datagrams = one_if udp;
        controls = 2;
        dialbacks = 1;
        cleanup = false;
      } in
      elim (Result-cases (ordinary run.before end)) [
        | inr (stop, bad) ↦ absurd (ground arith)
        | inl (started, goes_on) ↦ elim (Result-cases (charge a x)) [
          | inr (stop, bad) ↦ absurd (ground arith)
          | inl (paid, accepted) ↦ path_charged-IsProof d check run end summary (ground arith)
        ]
      ]
