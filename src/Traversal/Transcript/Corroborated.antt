-- ===== src/Traversal/Transcript/Corroborated.antt =====
-- What two signed halves of a pair's experiment agree on (`validate_pair_transcripts` of
-- src/network_traversal/proof.rs).
use liskov_runtime_cargo.Prelude.{
  ℕ, ◌≡◌, refl, Bool, true, false, not, ◌||◌, Option, none, some, Bytes, bytes_eq, bytes_eq→eq,
  ==_iff, ◌==◌, arith,
}
use liskov_runtime_cargo.Prelude.Result.{
  Result, ok, Ensures, ensures-ok, bind-ensures, ok-ensures, err-ensures, refuse_if,
}
use liskov_runtime_cargo.Traversal.Texts.{TraversalRefusal, invalid_proof}
use liskov_runtime_cargo.Traversal.Outcomes.{
  TraversalEvidenceAuthority, TraversalOutcome, authority_rank, stage_rank, transport_rank,
  family_rank, is_outcome, is_stage,
}
use liskov_runtime_cargo.Traversal.Descriptor.{TraversalDescriptorV1}
use liskov_runtime_cargo.Traversal.Paired.{validate_traversal_pair}
use liskov_runtime_cargo.Traversal.Paired.Agreed.{IsPaired, validate_traversal_pair-IsPaired}
use liskov_runtime_cargo.Traversal.Transcript.{TraversalTranscriptV1, some_and}
use liskov_runtime_cargo.Traversal.Transcript.Scope.{validate_scope, validate_pair_transcripts}
use liskov_runtime_cargo.Traversal.Transcript.Evidence.{IsInScope, validate_scope-IsInScope}

-- None of nine tests failed.
disjuncts :
    (a b c d e f g h i : Bool)
    → (not a || not b || not c || not d || not e || not f || not g || not h || not i) ≡ false
    → (a ≡ true) × (b ≡ true) × (c ≡ true) × (d ≡ true) × (h ≡ true) × (i ≡ true)
disjuncts a b c d e f g h i none_failed =
    (ground arith, ground arith, ground arith, ground arith, ground arith, ground arith)

is_challenge : (o : Option Bytes) (s : Bytes) → some_and o (λ c. bytes_eq c s) ≡ true → o ≡ some s
is_challenge none s h = absurd (ground arith)
is_challenge (some c) s h = λ i. some (bytes_eq→eq c s h i)

refuse_if-ensures :
    {E : Type 0} (P : Type 0) (b : Bool) (e : E)
    → (b ≡ false → P)
    → Ensures (λ _. P) (refuse_if b e)
refuse_if-ensures P true e h = err-ensures (λ _. P) e
refuse_if-ensures {E = E} P false e h = ok-ensures E (λ _. P) (h refl)

module _ (serialized_len : TraversalDescriptorV1 → Option ℕ)
    (descriptor_digest : TraversalDescriptorV1 → Result TraversalRefusal Bytes)
    (transcript_len : TraversalTranscriptV1 → Option ℕ) where
  -- Two halves that corroborate each other.
  abbrev pub IsCorroborated :
      TraversalDescriptorV1
      → TraversalDescriptorV1
      → TraversalTranscriptV1
      → TraversalTranscriptV1
      → ℕ
      → Type 0
  IsCorroborated d e t u now_ms =
      IsPaired serialized_len d e
      × IsInScope serialized_len descriptor_digest transcript_len t d now_ms
      × IsInScope serialized_len descriptor_digest transcript_len u e now_ms
      × (authority_rank t.authority
          ≡ authority_rank TraversalEvidenceAuthority.helper_observed_peer)
      × (authority_rank u.authority
          ≡ authority_rank TraversalEvidenceAuthority.helper_observed_peer)
      × (stage_rank t.stage ≡ stage_rank u.stage)
      × (transport_rank t.transport ≡ transport_rank u.transport)
      × (t.peer_challenge ≡ some u.challenge)
      × (u.peer_challenge ≡ some t.challenge)

  -- Two transcripts that are accepted as a pair's halves are each in the scope of their descriptor,
  -- and the descriptors are the two sides of one pair; both are what a helper observed of its peer,
  -- in the same stage over the same transport, and each received the other's challenge.
  pub validate_pair_transcripts-IsCorroborated :
      (d e : TraversalDescriptorV1) (t u : TraversalTranscriptV1) (now_ms : ℕ)
      → validate_pair_transcripts serialized_len descriptor_digest transcript_len d e t u now_ms
        ≡ ok tt
      → IsCorroborated d e t u now_ms
  unfolding validate_pair_transcripts
  validate_pair_transcripts-IsCorroborated d e t u now_ms h =
      let P : Unit {0} → Type 0 = λ _. IsCorroborated d e t u now_ms in
      ensures-ok P
        (validate_pair_transcripts serialized_len descriptor_digest transcript_len d e t u now_ms)
        (bind-ensures P (validate_traversal_pair serialized_len d e) _ λ _ paired.
          bind-ensures P (validate_scope serialized_len descriptor_digest transcript_len t d now_ms)
            _
            λ _ first.
              bind-ensures P
                (validate_scope serialized_len descriptor_digest transcript_len u e now_ms) _
                λ _ second.
                  refuse_if-ensures (IsCorroborated d e t u now_ms) _ invalid_proof λ fine.
                    let (authority, of_peer, stage, transport, received, sent) =
                      disjuncts
                        (authority_rank t.authority
                          == authority_rank TraversalEvidenceAuthority.helper_observed_peer)
                        (authority_rank u.authority
                          == authority_rank TraversalEvidenceAuthority.helper_observed_peer)
                        (is_stage t.stage u.stage)
                        (transport_rank t.transport == transport_rank u.transport)
                        (family_rank t.family == family_rank u.family)
                        (is_outcome t.outcome TraversalOutcome.succeeded)
                        (is_outcome u.outcome TraversalOutcome.succeeded)
                        (some_and t.peer_challenge (λ s. bytes_eq s u.challenge))
                        (some_and u.peer_challenge (λ s. bytes_eq s t.challenge)) fine in
                    (
                      validate_traversal_pair-IsPaired serialized_len d e paired,
                      validate_scope-IsInScope serialized_len descriptor_digest transcript_len t d
                          now_ms first,
                      validate_scope-IsInScope serialized_len descriptor_digest transcript_len u e
                          now_ms second,
                      (==_iff _ _).0 authority,
                      (==_iff _ _).0 of_peer,
                      (==_iff _ _).0 stage,
                      (==_iff _ _).0 transport,
                      is_challenge t.peer_challenge u.challenge received,
                      is_challenge u.peer_challenge t.challenge sent,
                    ))
        h
