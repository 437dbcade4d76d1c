-- ===== src/Traversal/Results/Backed.antt =====
-- What an accepted result claims is proved (src/network_traversal/result.rs).
use liskov_runtime_cargo.Prelude.{
  ℕ, ◌≡◌, subst, inl, inr, true, not, ◌||◌, Option, List, [], ◌∷◌, Bytes, bytes_eq, bytes_eq→eq,
  All, Bool-cases, arith, length,
}
use liskov_runtime_cargo.Prelude.Result.{Result, ok, Result-cases, ensures-ok}
use liskov_runtime_cargo.Traversal.Texts.{TraversalRefusal}
use liskov_runtime_cargo.Traversal.Transcript.{TraversalTranscriptV1}
use liskov_runtime_cargo.Traversal.Transcript.Checks.{validate_transcript}
use liskov_runtime_cargo.Traversal.Transcript.Evidence.{IsEvidence, validate_transcript-ensures}
use liskov_runtime_cargo.Traversal.Receipts.{
  TraversalReceiptV1, TraversalProofV1, prober_receipt, device_signature, transcript_of,
  validate_proof,
}
use liskov_runtime_cargo.Traversal.Results.{
  NetworkTraversalV1, validate_proofs, validate_phases, validate_result,
}
use liskov_runtime_cargo.Traversal.Results.Supported.{
  references, distinct_after, IsSupported, validate_phases-IsSupported,
}

module _ (transcript_len : TraversalTranscriptV1 → Option ℕ)
    (canonical : TraversalReceiptV1 → Result TraversalRefusal Bytes)
    (proof_digest : TraversalProofV1 → Result TraversalRefusal Bytes)
    (result_len : NetworkTraversalV1 → Option ℕ) where
  abbrev pub IsOwnEvidence : NetworkTraversalV1 → TraversalProofV1 → Type 0
  IsOwnEvidence r proof =
      IsEvidence (transcript_of proof)
      × ((transcript_of proof).descriptor_digest ≡ r.descriptor_digest)
      × ((transcript_of proof).run_id ≡ r.run_id)

  validate_proof-IsEvidence :
      (proof : TraversalProofV1)
      → validate_proof transcript_len canonical proof ≡ ok tt
      → IsEvidence (transcript_of proof)
  unfolding validate_proof
  validate_proof-IsEvidence (prober_receipt receipt) h =
      elim (Result-cases (validate_transcript transcript_len receipt.transcript)) [
        | inr (refusal, bad) ↦ absurd (ground arith)
        | inl (done, valid) ↦
            ensures-ok (λ _. IsEvidence receipt.transcript)
              (validate_transcript transcript_len receipt.transcript)
              (validate_transcript-ensures transcript_len receipt.transcript) valid
      ]
  validate_proof-IsEvidence (device_signature transcript signature) h =
      elim (Result-cases (validate_transcript transcript_len transcript)) [
        | inr (refusal, bad) ↦ absurd (ground arith)
        | inl (done, valid) ↦
            ensures-ok (λ _. IsEvidence transcript) (validate_transcript transcript_len transcript)
              (validate_transcript-ensures transcript_len transcript) valid
      ]

  validate_proofs-IsOwnEvidence :
      (r : NetworkTraversalV1) (proofs : List TraversalProofV1)
      → validate_proofs transcript_len canonical proof_digest result_len r proofs ≡ ok tt
      → All (IsOwnEvidence r) proofs
  unfolding validate_proofs
  validate_proofs-IsOwnEvidence r [] h = tt
  validate_proofs-IsOwnEvidence r (proof ∷ proofs) h =
      let t = transcript_of proof in
      elim (Result-cases (validate_proof transcript_len canonical proof)) [
        | inr (refusal, bad) ↦ absurd (ground arith)
        | inl (done, valid) ↦
            elim (Bool-cases (
              not (bytes_eq t.descriptor_digest r.descriptor_digest)
              || not (bytes_eq t.run_id r.run_id))) [
                | inl foreign ↦ absurd (ground arith)
                | inr own ↦ (
                  (
                    validate_proof-IsEvidence proof (ground arith),
                    bytes_eq→eq t.descriptor_digest r.descriptor_digest (ground arith),
                    bytes_eq→eq t.run_id r.run_id (ground arith),
                  ),
                  validate_proofs-IsOwnEvidence r proofs (ground arith),
                )
              ]
      ]

  -- A result whose phases are backed, by its own evidence, one proof for each reference.
  abbrev pub IsBackedResult : NetworkTraversalV1 → Type 0
  IsBackedResult r =
      All (IsSupported transcript_len canonical proof_digest result_len r) r.phases
      × All (IsOwnEvidence r) r.proofs
      × (distinct_after [] (references r.phases) ≡ true)
      × (length (references r.phases) ≡ length r.proofs)

  -- An accepted result claims nothing that it does not prove: each phase is of the result's mode and
  -- has a proof among the result's own, of which it says exactly what the transcript says, or it says
  -- that nothing was attempted; each proof is evidence for this run and this descriptor; and the
  -- phases refer to as many different proofs as there are.
  pub validate_result-IsBackedResult :
      (r : NetworkTraversalV1)
      → validate_result transcript_len canonical proof_digest result_len r ≡ ok tt
      → IsBackedResult r
  unfolding validate_result
  validate_result-IsBackedResult r h =
      elim (Result-cases
        (validate_proofs transcript_len canonical proof_digest result_len r r.proofs)) [
          | inr (refusal, bad) ↦ absurd (ground arith)
          | inl (done, proofs) ↦
              elim (Result-cases
                (validate_phases transcript_len canonical proof_digest result_len r [] r.phases)) [
                  | inr (refusal, bad) ↦ absurd (ground arith)
                  | inl (used, phases) ↦
                      let (supported, (same, distinct)) =
                        validate_phases-IsSupported transcript_len canonical proof_digest result_len
                          r r.phases [] used phases in
                      (
                        supported,
                        validate_proofs-IsOwnEvidence r r.proofs (ground arith),
                        distinct,
                        subst (λ l. length l ≡ length r.proofs) same (ground arith),
                      )
                ]
        ]
