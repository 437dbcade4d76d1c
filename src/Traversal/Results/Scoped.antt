-- ===== src/Traversal/Results/Scoped.antt =====
-- What a result in the scope of a descriptor promises (src/network_traversal/result.rs).
use liskov_runtime_cargo.Prelude.{
  ◌+◌, ℕ, ◌≤◌, ◌≡◌, inl, inr, true, Option, List, [], ◌∷◌, Bytes, bytes_eq→eq, All, Bool-cases,
  arith,
}
use liskov_runtime_cargo.Prelude.Result.{Result, ok, Result-cases}
use liskov_runtime_cargo.Traversal.Texts.{TraversalRefusal}
use liskov_runtime_cargo.Traversal.Descriptor.{TraversalDescriptorV1}
use liskov_runtime_cargo.Traversal.Transcript.{TraversalTranscriptV1}
use liskov_runtime_cargo.Traversal.Receipts.{TraversalReceiptV1, TraversalProofV1, transcript_of}
use liskov_runtime_cargo.Traversal.Results.{TraversalPhaseV1, NetworkTraversalV1, validate_result}
use liskov_runtime_cargo.Traversal.Descriptor.{TraversalOperation, has_operation, is_mode}
use liskov_runtime_cargo.Traversal.Validate.{validate_at}
use liskov_runtime_cargo.Traversal.Transcript.Scope.{
  binding_digest, phase_operation, validate_scope,
}
use liskov_runtime_cargo.Traversal.Transcript.Evidence.{IsInScope, validate_scope-IsInScope}
use liskov_runtime_cargo.Traversal.Results.{grant_phases, scope_proofs, validate_result_scope}
use liskov_runtime_cargo.Traversal.Results.Backed.{IsBackedResult, validate_result-IsBackedResult}

-- Its operation is one that the descriptor lists.
abbrev pub IsGrantedPhase : TraversalDescriptorV1 → TraversalPhaseV1 → Type 0
IsGrantedPhase d phase =
    (op : TraversalOperation) × (phase_operation phase.stage phase.method phase.transport ≡ ok op)
    × (has_operation d.operations op ≡ true)

module _ (transcript_len : TraversalTranscriptV1 → Option ℕ)
    (canonical : TraversalReceiptV1 → Result TraversalRefusal Bytes)
    (proof_digest : TraversalProofV1 → Result TraversalRefusal Bytes)
    (result_len : NetworkTraversalV1 → Option ℕ) (serialized_len : TraversalDescriptorV1 → Option ℕ)
    (descriptor_digest : TraversalDescriptorV1 → Result TraversalRefusal Bytes) where
  grant_phases-IsGrantedPhase :
      (d : TraversalDescriptorV1) (phases : List TraversalPhaseV1)
      → grant_phases transcript_len canonical proof_digest result_len serialized_len
          descriptor_digest d phases
        ≡ ok tt
      → All (IsGrantedPhase d) phases
  unfolding grant_phases
  grant_phases-IsGrantedPhase d [] h = tt
  grant_phases-IsGrantedPhase d (phase ∷ phases) h =
      elim (Result-cases (phase_operation phase.stage phase.method phase.transport)) [
        | inr (refusal, bad) ↦ absurd (ground arith)
        | inl (op, is) ↦ elim (Bool-cases (has_operation d.operations op)) [
          | inr outside ↦ absurd (ground arith)
          | inl granted ↦ ((op, is, granted), grant_phases-IsGrantedPhase d phases (ground arith))
        ]
      ]

  scope_proofs-IsInScope :
      (d : TraversalDescriptorV1) (now_ms : ℕ) (proofs : List TraversalProofV1)
      → scope_proofs transcript_len canonical proof_digest result_len serialized_len
          descriptor_digest d now_ms proofs
        ≡ ok tt
      → All
          (λ proof.
            IsInScope serialized_len descriptor_digest transcript_len
              (transcript_of proof)
              d
              now_ms)
          proofs
  unfolding scope_proofs
  scope_proofs-IsInScope d now_ms [] h = tt
  scope_proofs-IsInScope d now_ms (proof ∷ proofs) h =
      elim (Result-cases (
        validate_scope serialized_len descriptor_digest transcript_len (transcript_of proof) d
          now_ms)) [
            | inr (refusal, bad) ↦ absurd (ground arith)
            | inl (done, scoped) ↦ (
              validate_scope-IsInScope serialized_len descriptor_digest transcript_len
                  (transcript_of proof) d now_ms scoped,
              scope_proofs-IsInScope d now_ms proofs (ground arith),
            )
          ]

  -- A result of this descriptor's run, within its times and what it grants.
  abbrev pub IsOfDescriptor : NetworkTraversalV1 → TraversalDescriptorV1 → ℕ → Type 0
  IsOfDescriptor r d now_ms =
      IsBackedResult transcript_len canonical proof_digest result_len r
      × (validate_at serialized_len d now_ms ≡ ok tt)
      × (binding_digest serialized_len descriptor_digest transcript_len d ≡ ok r.descriptor_digest)
      × (r.run_id ≡ d.run_id)
      × (is_mode r.mode d.mode ≡ true)
      × ((d.issued_at_ms ≤ r.started_at_ms)
          × (r.started_at_ms + r.duration_ms ≤ now_ms)
          × (r.started_at_ms + r.duration_ms ≤ d.deadline_ms)
          × (r.duration_ms ≤ d.budgets.experiment_ms))
      × All (IsGrantedPhase d) r.phases
      × All
          (λ proof.
            IsInScope serialized_len descriptor_digest transcript_len (transcript_of proof) d
              now_ms)
          r.proofs

  -- A result in the scope of a descriptor is an accepted one; the descriptor is in force and is the
  -- one that it names, by digest, run and mode; the experiment began when the descriptor was issued or
  -- later and ended by now, by the deadline, within the time that it may take; the descriptor lists
  -- the operation of every phase, and every proof is in its scope.
  pub validate_result_scope-IsOfDescriptor :
      (r : NetworkTraversalV1) (d : TraversalDescriptorV1) (now_ms : ℕ)
      → validate_result_scope transcript_len canonical proof_digest result_len serialized_len
          descriptor_digest r d now_ms
        ≡ ok tt
      → IsOfDescriptor r d now_ms
  unfolding validate_result_scope
  validate_result_scope-IsOfDescriptor r d now_ms h =
      elim (Result-cases (validate_result transcript_len canonical proof_digest result_len r)) [
        | inr (refusal, bad) ↦ absurd (ground arith)
        | inl (accepted, valid) ↦ elim (Result-cases (validate_at serialized_len d now_ms)) [
          | inr (refusal, bad) ↦ absurd (ground arith)
          | inl (current, live) ↦
              elim (Result-cases
                (binding_digest serialized_len descriptor_digest transcript_len d)) [
                  | inr (refusal, bad) ↦ absurd (ground arith)
                  | inl (bound, is) ↦
                      elim (Result-cases (
                        grant_phases transcript_len canonical proof_digest result_len serialized_len
                          descriptor_digest d r.phases)) [
                            | inr (refusal, bad) ↦ absurd (ground arith)
                            | inl (listed, granted) ↦ (
                              validate_result-IsBackedResult transcript_len canonical proof_digest
                                  result_len r valid,
                              live,
                              ground (arith, bytes_eq→eq r.descriptor_digest bound),
                              bytes_eq→eq r.run_id d.run_id (ground arith),
                              ground arith,
                              (ground arith, ground arith, ground arith, ground arith),
                              grant_phases-IsGrantedPhase d r.phases granted,
                              scope_proofs-IsInScope d now_ms r.proofs (ground arith),
                            )
                          ]
                ]
        ]
      ]
