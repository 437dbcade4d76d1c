-- ===== src/Traversal/Transcript/Evidence.antt =====
-- What an accepted transcript promises (src/network_traversal/proof.rs).
use liskov_runtime_cargo.Prelude.{
  is_some, ℕ, ◌≤◌, ◌≡◌, ◌⊎◌, inl, inr, refl, true, false, not, ◌&&◌, Option, none, some, Bytes,
  bytes_eq→eq, arith, Bool-cases, Option-cases,
}
use liskov_runtime_cargo.Prelude.Result.{
  Result, ok, Ensures, bind-ensures, ensures-ok, always-ensures, Result-cases,
}
use liskov_runtime_cargo.Traversal.Texts.{TraversalRefusal}
use liskov_runtime_cargo.Traversal.Outcomes.{
  TraversalEvidenceAuthority, TraversalStage, TraversalMethod, TraversalOutcome, TraversalCleanup,
  authority_rank, is_outcome, is_stage,
}
use liskov_runtime_cargo.Traversal.Descriptor.{
  TraversalDescriptorV1, TraversalOperation, has_operation,
}
use liskov_runtime_cargo.Traversal.Validate.{validate_at}
use liskov_runtime_cargo.Traversal.Transcript.{TraversalTranscriptV1, proof_domain, is_method}
use liskov_runtime_cargo.Traversal.Transcript.Checks.{
  cleanup_outcome, validate_binding, validate_domain, validate_outcome, validate_lease,
  validate_pair_fields, validate_report, validate_peer, validate_cleanup, validate_transcript,
}
use liskov_runtime_cargo.Traversal.Transcript.Scope.{
  past_consent, binding_digest, validate_scope, phase_operation,
}

-- A lease is reported by a router, and lasts 1 to 120 seconds unless it is reported as refused.
abbrev pub LeaseIsReported : TraversalTranscriptV1 → Option ℕ → Type 0
LeaseIsReported t none = Unit {0}
LeaseIsReported t (some s) =
    (authority_rank t.authority ≡ authority_rank TraversalEvidenceAuthority.device_reported_router)
    × (((1 ≤ s) × (s ≤ 120))
        ⊎ (is_outcome t.outcome TraversalOutcome.unsupported_finite_lease ≡ true))

-- A cleanup stands at its own stage only, and its outcome is the one that goes with it.
abbrev pub CleanupIsReported : TraversalTranscriptV1 → Option TraversalCleanup → Type 0
CleanupIsReported t none = is_stage t.stage TraversalStage.mapping_cleanup ≡ false
CleanupIsReported t (some c) =
    (is_stage t.stage TraversalStage.mapping_cleanup ≡ true)
    × (is_outcome t.outcome (cleanup_outcome c) ≡ true)

abbrev pub IsEvidence : TraversalTranscriptV1 → Type 0
IsEvidence t =
    (proof_domain t.authority t.stage t.method t.transport ≡ ok t.domain)
    × LeaseIsReported t t.granted_lease_sec
    × CleanupIsReported t t.cleanup
    × (is_some t.pair_id ≡ is_method t.method TraversalMethod.pair)
    × ((is_outcome t.outcome TraversalOutcome.succeeded && is_some t.error_class) ≡ false)

validate_domain_lem :
    (t : TraversalTranscriptV1)
    → validate_domain t ≡ ok tt
    → proof_domain t.authority t.stage t.method t.transport ≡ ok t.domain
unfolding validate_domain
validate_domain_lem t e =
    elim (Result-cases (proof_domain t.authority t.stage t.method t.transport)) [
      | inr (refusal, is) ↦ absurd (ground arith)
      | inl (domain, is) ↦ ground (arith, bytes_eq→eq t.domain domain)
    ]

report_lease :
    (t : TraversalTranscriptV1) (lease : Option ℕ)
    → t.granted_lease_sec ≡ lease
    → validate_report t ≡ ok tt
    → LeaseIsReported t lease
unfolding validate_report
report_lease t none is e = tt
report_lease t (some s) is e = (
  ground arith,
  elim (Bool-cases (is_outcome t.outcome TraversalOutcome.unsupported_finite_lease)) [
    | inl refused ↦ inr refused
    | inr finite ↦ inl (ground arith, ground arith)
  ],
)

cleanup_reported :
    (t : TraversalTranscriptV1) (cleanup : Option TraversalCleanup)
    → t.cleanup ≡ cleanup
    → validate_lease t ≡ ok tt
    → validate_cleanup t ≡ ok tt
    → CleanupIsReported t cleanup
unfolding validate_lease validate_cleanup
cleanup_reported t none is l e = ground arith
cleanup_reported t (some c) is l e = (ground arith, ground arith)

pair_fields :
    (t : TraversalTranscriptV1)
    → validate_pair_fields t ≡ ok tt
    → is_some t.pair_id ≡ is_method t.method TraversalMethod.pair
unfolding validate_pair_fields
pair_fields t e = elim (Bool-cases (is_method t.method TraversalMethod.pair)) [
  | inl paired ↦ elim (Option-cases t.pair_id) [
    | inl none_given ↦ absurd (ground arith)
    | inr (id, given) ↦ ground arith
  ]
  | inr alone ↦ ground arith
]

report_error :
    (t : TraversalTranscriptV1)
    → validate_report t ≡ ok tt
    → (is_outcome t.outcome TraversalOutcome.succeeded && is_some t.error_class) ≡ false
unfolding validate_report
report_error t e =
    elim (Bool-cases (is_outcome t.outcome TraversalOutcome.succeeded && is_some t.error_class)) [
      | inl both ↦ absurd (ground arith)
      | inr fine ↦ fine
    ]

module _ (transcript_len : TraversalTranscriptV1 → Option ℕ) where
  pub validate_transcript-ensures :
      (t : TraversalTranscriptV1)
      → Ensures (λ _. IsEvidence t) (validate_transcript transcript_len t)
  unfolding validate_transcript
  validate_transcript-ensures t =
      let P : Unit {0} → Type 0 = λ _. IsEvidence t in
      bind-ensures P (validate_binding t) _ λ _ _. bind-ensures P (validate_domain t) _ λ _ domain.
        bind-ensures P (validate_outcome t) _ λ _ _. bind-ensures P (validate_lease t) _ λ _ lease.
          bind-ensures P (validate_pair_fields t) _ λ _ pair.
            bind-ensures P (validate_report t) _ λ _ report.
              bind-ensures P (validate_peer t) _ λ _ _.
                bind-ensures P (validate_cleanup t) _ λ _ cleanup. always-ensures P _ λ _. (
                  validate_domain_lem t domain,
                  report_lease t t.granted_lease_sec refl report,
                  cleanup_reported t t.cleanup refl lease cleanup,
                  pair_fields t pair,
                  report_error t report,
                )

module _ (serialized_len : TraversalDescriptorV1 → Option ℕ)
    (descriptor_digest : TraversalDescriptorV1 → Result TraversalRefusal Bytes)
    (transcript_len : TraversalTranscriptV1 → Option ℕ) where
  -- A phase within what its descriptor grants.
  abbrev pub IsInScope : TraversalTranscriptV1 → TraversalDescriptorV1 → ℕ → Type 0
  IsInScope t d now_ms =
      IsEvidence t
      × (validate_at serialized_len d now_ms ≡ ok tt)
      × (binding_digest serialized_len descriptor_digest transcript_len d ≡ ok t.descriptor_digest)
      × (t.run_id ≡ d.run_id)
      × (t.expires_at_ms ≡ d.expires_at_ms)
      × (t.elapsed_ms ≤ d.budgets.experiment_ms)
      × ((op : TraversalOperation) × (phase_operation t.stage t.method t.transport ≡ ok op)
          × (has_operation d.operations op ≡ true))
      × ((past_consent t.granted_lease_sec d.mapping
            && not (is_outcome t.outcome TraversalOutcome.unsupported_finite_lease))
          ≡ false)

  -- A transcript in scope is evidence under its own domain; its descriptor is in force and is the one
  -- that it names, by digest, run and expiry; it lasted no longer than the experiment may, did an
  -- operation that the descriptor lists, and reports no lease past the consent but as a refused one.
  pub validate_scope-IsInScope :
      (t : TraversalTranscriptV1) (d : TraversalDescriptorV1) (now_ms : ℕ)
      → validate_scope serialized_len descriptor_digest transcript_len t d now_ms ≡ ok tt
      → IsInScope t d now_ms
  unfolding validate_scope
  validate_scope-IsInScope t d now_ms e =
      elim (Result-cases (validate_transcript transcript_len t)) [
        | inr (refusal, bad) ↦ absurd (ground arith)
        | inl (tt, valid) ↦ elim (Result-cases (validate_at serialized_len d now_ms)) [
          | inr (refusal, bad) ↦ absurd (ground arith)
          | inl (tt, live) ↦
              elim (Result-cases
                (binding_digest serialized_len descriptor_digest transcript_len d)) [
                  | inr (refusal, bad) ↦ absurd (ground arith)
                  | inl (bound, is) ↦
                      elim (Result-cases (phase_operation t.stage t.method t.transport)) [
                        | inr (refusal, bad) ↦ absurd (ground arith)
                        | inl (op, phase) ↦
                            let past : (past_consent t.granted_lease_sec d.mapping
                                  && not (
                                      is_outcome t.outcome
                                        TraversalOutcome.unsupported_finite_lease))
                                ≡ false =
                              elim (Bool-cases (
                                past_consent t.granted_lease_sec d.mapping
                                && not (
                                    is_outcome t.outcome
                                      TraversalOutcome.unsupported_finite_lease))) [
                                        | inl beyond ↦ absurd (ground arith)
                                        | inr fine ↦ fine
                                      ] in
                            (
                              ensures-ok (λ _. IsEvidence t) (validate_transcript transcript_len t)
                                  (validate_transcript-ensures transcript_len t) valid,
                              live,
                              ground (arith, bytes_eq→eq t.descriptor_digest bound),
                              bytes_eq→eq t.run_id d.run_id (ground arith),
                              ground arith,
                              ground arith,
                              (op, phase, ground arith),
                              past,
                            )
                      ]
                ]
        ]
      ]
