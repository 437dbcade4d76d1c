-- ===== src/Traversal/Results/Supported.antt =====
-- What an accepted result says is backed (src/network_traversal/result.rs).
use liskov_runtime_cargo.Prelude.{
  ℕ, ◌≤◌, ◌≡◌, refl, sym, ◌∙◌, subst, inl, inr, Bool, true, false, not, ◌&&◌, ◌||◌, Option, none,
  some, List, [], ◌∷◌, ◌++◌, Bytes, bytes_eq, bytes_eq→eq, any, All, Memᴰ, Bool-cases, Option-cases,
  arith, ltb, append_assoc, append-nil,
}
use liskov_runtime_cargo.Prelude.Result.{Result, ok, err, Result-cases}
use liskov_runtime_cargo.Traversal.Texts.{TraversalRefusal, digest}
use liskov_runtime_cargo.Traversal.Transcript.{TraversalTranscriptV1, proof_domain}
use liskov_runtime_cargo.Traversal.Receipts.{TraversalReceiptV1, TraversalProofV1, transcript_of}
use liskov_runtime_cargo.Traversal.Results.{
  TraversalPhaseV1, NetworkTraversalV1, phase_matches, not_attempted, foreign_stage, is_digest,
  find_proof, validate_reference, validate_phase, validate_phases,
}

abbrev pub with_reference : Option Bytes → List Bytes → List Bytes
with_reference none rest = rest
with_reference (some reference) rest = reference ∷ rest

-- The references of the phases, in order.
abbrev pub references : List TraversalPhaseV1 → List Bytes
references [] = []
references (p ∷ ps) = with_reference p.proof_digest (references ps)

-- Each is new after those that were seen.
pub distinct_after : List Bytes → List Bytes → Bool
distinct_after seen [] = true
distinct_after seen (r ∷ rs) = not (any (bytes_eq r) seen) && distinct_after (seen ++ r ∷ []) rs

-- The references after a phase's.
abbrev IsExtended : List Bytes → List Bytes → Option Bytes → Type 0
IsExtended used now_used none = now_used ≡ used
IsExtended used now_used (some s) = (now_used ≡ used ++ s ∷ []) × (any (bytes_eq s) used ≡ false)

with_reference-IsExtended :
    (reference : Option Bytes) (used list now_used rest : List Bytes)
    → IsExtended used list reference
    → now_used ≡ list ++ rest
    → distinct_after list rest ≡ true
    → (now_used ≡ used ++ with_reference reference rest)
      × (distinct_after used (with_reference reference rest) ≡ true)
unfolding distinct_after
with_reference-IsExtended none used list now_used rest same appended distinct = (
  subst (λ l. now_used ≡ l ++ rest) same appended,
  subst (λ l. distinct_after l rest ≡ true) same distinct,
)
with_reference-IsExtended (some s) used list now_used rest (same, fresh) appended distinct = (
  subst (λ l. now_used ≡ l ++ rest) same appended ∙ append_assoc used (s ∷ []) rest,
  rw (fresh) (subst (λ l. distinct_after l rest ≡ true) same distinct),
)

is_digest-eq-ok :
    (reference : Bytes) (digested : Result TraversalRefusal Bytes)
    → is_digest reference digested ≡ true
    → digested ≡ ok reference
is_digest-eq-ok reference (ok bytes) h = λ i. ok (bytes_eq→eq bytes reference h i)
is_digest-eq-ok reference (err refusal) h = absurd (ground arith)

module _ (transcript_len : TraversalTranscriptV1 → Option ℕ)
    (canonical : TraversalReceiptV1 → Result TraversalRefusal Bytes)
    (proof_digest : TraversalProofV1 → Result TraversalRefusal Bytes)
    (result_len : NetworkTraversalV1 → Option ℕ) where
  find_proof-found :
      (reference : Bytes) (proofs : List TraversalProofV1) (proof : TraversalProofV1)
      → find_proof transcript_len canonical proof_digest result_len reference proofs ≡ some proof
      → Memᴰ proof proofs × (proof_digest proof ≡ ok reference)
  unfolding find_proof
  find_proof-found reference [] proof h = absurd (ground arith)
  find_proof-found reference (p ∷ ps) proof h =
      elim (Bool-cases (is_digest reference (proof_digest p))) [
        | inl found ↦
            let same : proof ≡ p = ground arith in
            (
              Memᴰ.head same,
              subst (λ q. proof_digest q ≡ ok reference) (sym same)
                  (is_digest-eq-ok reference (proof_digest p) found),
            )
        | inr other ↦
            let (later, is) = find_proof-found reference ps proof (ground arith) in
            (Memᴰ.tail later, is)
      ]

  -- A phase has a proof of the result, of which it says what the transcript says, or it says that
  -- nothing was attempted.
  abbrev pub IsBacked : NetworkTraversalV1 → TraversalPhaseV1 → Option Bytes → Type 0
  IsBacked r phase none = not_attempted phase ≡ true
  IsBacked r phase (some reference) =
      (proof : TraversalProofV1) × Memᴰ proof r.proofs
      × (proof_digest proof ≡ ok reference)
      × (phase_matches phase (transcript_of proof) ≡ true)

  -- A phase of a result.
  abbrev pub IsSupported : NetworkTraversalV1 → TraversalPhaseV1 → Type 0
  IsSupported r phase =
      IsBacked r phase phase.proof_digest
      × (foreign_stage r.mode phase.stage ≡ false)
      × (phase.elapsed_ms ≤ r.duration_ms)

  validate_reference-IsBacked :
      (r : NetworkTraversalV1) (used : List Bytes) (phase : TraversalPhaseV1)
      (reference : Option Bytes) (now_used : List Bytes)
      → validate_reference transcript_len canonical proof_digest result_len r used phase reference
        ≡ ok now_used
      → IsBacked r phase reference × IsExtended used now_used reference
  unfolding validate_reference
  validate_reference-IsBacked r used phase none now_used h =
      elim (Bool-cases (not_attempted phase)) [
        | inr attempted ↦ absurd (ground arith)
        | inl idle ↦ (idle, ground arith)
      ]
  validate_reference-IsBacked r used phase (some s) now_used h =
      elim (Bool-cases (not (digest s) || any (bytes_eq s) used)) [
        | inl bad ↦ absurd (ground arith)
        | inr fresh ↦
            elim (Option-cases
              (find_proof transcript_len canonical proof_digest result_len s r.proofs)) [
                | inl missing ↦ absurd (ground arith)
                | inr (proof, found) ↦
                    elim (Bool-cases (phase_matches phase (transcript_of proof))) [
                      | inr other ↦ absurd (ground arith)
                      | inl same ↦
                          let (member, is) = find_proof-found s r.proofs proof found in
                          ((proof, member, is, same), (ground arith, ground arith))
                    ]
              ]
      ]

  validate_phase-IsSupported :
      (r : NetworkTraversalV1) (used : List Bytes) (phase : TraversalPhaseV1)
      (now_used : List Bytes)
      → validate_phase transcript_len canonical proof_digest result_len r used phase ≡ ok now_used
      → IsSupported r phase
        × (validate_reference transcript_len canonical proof_digest result_len r used phase
              phase.proof_digest
            ≡ ok now_used)
  unfolding validate_phase
  validate_phase-IsSupported r used phase now_used h =
      elim (Result-cases (proof_domain phase.authority phase.stage phase.method phase.transport)) [
        | inr (refusal, bad) ↦ absurd (ground arith)
        | inl (domain, known) ↦ elim (Bool-cases (ltb r.duration_ms phase.elapsed_ms)) [
          | inl late ↦ absurd (ground arith)
          | inr timely ↦
              elim (Result-cases (
                validate_reference transcript_len canonical proof_digest result_len r used phase
                  phase.proof_digest)) [
                    | inr (refusal, bad) ↦ absurd (ground arith)
                    | inl (list, backed) ↦ elim (Bool-cases (foreign_stage r.mode phase.stage)) [
                      | inl foreign ↦ absurd (ground arith)
                      | inr own ↦
                          let same : list ≡ now_used = ground arith in
                          (
                            (
                              (validate_reference-IsBacked r used phase phase.proof_digest list
                                  backed).0,
                              own,
                              ground arith,
                            ),
                            subst
                                (λ l.
                                  validate_reference transcript_len canonical proof_digest
                                    result_len r used phase phase.proof_digest
                                  ≡ ok l)
                                same backed,
                          )
                    ]
                  ]
        ]
      ]

  pub validate_phases-IsSupported :
      (r : NetworkTraversalV1) (phases : List TraversalPhaseV1) (used now_used : List Bytes)
      → validate_phases transcript_len canonical proof_digest result_len r used phases ≡ ok now_used
      → All (IsSupported r) phases
        × ((now_used ≡ used ++ references phases)
            × (distinct_after used (references phases) ≡ true))
  unfolding validate_phases distinct_after
  validate_phases-IsSupported r [] used now_used h =
      let same : used ≡ now_used = ground arith in (tt, (sym same ∙ sym (append-nil used), refl))
  validate_phases-IsSupported r (phase ∷ phases) used now_used h =
      elim (Result-cases
        (validate_phase transcript_len canonical proof_digest result_len r used phase)) [
          | inr (refusal, bad) ↦ absurd (ground arith)
          | inl (list, first) ↦
              let (supported, reference) = validate_phase-IsSupported r used phase list first in
              let (others, (appended, distinct)) =
                validate_phases-IsSupported r phases list now_used (ground arith) in
              (
                (supported, others),
                with_reference-IsExtended phase.proof_digest used list now_used (references phases)
                    (validate_reference-IsBacked r used phase phase.proof_digest list reference).1
                    appended distinct,
              )
        ]
