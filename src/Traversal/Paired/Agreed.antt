-- ===== src/Traversal/Paired/Agreed.antt =====
-- What two accepted descriptors of a pair share (src/network_traversal/descriptor.rs).
use liskov_runtime_cargo.Prelude.{
  ℕ, ◌≡◌, ◌≢◌, refl, inl, inr, true, false, Option, none, some, arith, bytes_eq→eq, bytes_eq_iff,
  ap, subst, Bytes, Bool-cases,
}
use liskov_runtime_cargo.Prelude.Result.{
  ok, err, ◌>>=◌, Ensures, bind-ensures, ensures-ok, always-ensures, Result-cases,
}
use liskov_runtime_cargo.Traversal.Texts.{invalid_pair, traversal_block_max_bytes}
use liskov_runtime_cargo.Traversal.Descriptor.{
  TraversalMode, observe, mapping_mode, pair_mode, TraversalDescriptorV1, TraversalParticipantRole,
  first, second, is_mode, TraversalPair,
}
use liskov_runtime_cargo.Traversal.Validate.{
  validate, validate_pair, validate_participants, validate_identity, validate_budgets,
  validate_deadline, validate_operations, validate_mapping, validate_relay, bounded,
}
use liskov_runtime_cargo.Traversal.Paired.{
  same_budgets, same_option, same_role, same_pair, same_participant, same_descriptor, counterpart,
  validate_traversal_pair,
}

abbrev claim_of : TraversalPair → TraversalParticipantRole → Bytes
claim_of p first = p.a.claim_authority_digest
claim_of p second = p.b.claim_authority_digest

same_role_lem :
    (r : Option TraversalParticipantRole) (s : TraversalParticipantRole)
    → same_option same_role r (some s) ≡ true
    → r ≡ some s
same_role_lem none s h = absurd (ground arith)
same_role_lem (some first) first h = refl
same_role_lem (some first) second h = absurd (ground arith)
same_role_lem (some second) first h = absurd (ground arith)
same_role_lem (some second) second h = refl

is_mode_lem : (m : TraversalMode) → is_mode m pair_mode ≡ true → m ≡ pair_mode
is_mode_lem observe h = absurd (ground arith)
is_mode_lem mapping_mode h = absurd (ground arith)
is_mode_lem pair_mode h = refl

-- The terms that two descriptors share.
abbrev pub Agree : TraversalDescriptorV1 → TraversalDescriptorV1 → Type 0
Agree d e =
    (d.run_id ≡ e.run_id)
    × (d.artifact_digest ≡ e.artifact_digest)
    × (d.helper_digest ≡ e.helper_digest)
    × (d.endpoint_set_revision ≡ e.endpoint_set_revision)
    × (d.issued_at_ms ≡ e.issued_at_ms)
    × (d.expires_at_ms ≡ e.expires_at_ms)
    × (d.deadline_ms ≡ e.deadline_ms)
    × (d.budgets.experiment_ms ≡ e.budgets.experiment_ms)
    × (d.budgets.outbound_datagrams ≡ e.budgets.outbound_datagrams)
    × (d.budgets.relay_bytes_per_direction ≡ e.budgets.relay_bytes_per_direction)

same_descriptor-Agree :
    (d e : TraversalDescriptorV1) → same_descriptor (counterpart d e) e ≡ true → Agree d e
unfolding same_descriptor same_budgets
same_descriptor-Agree d e h = (
  bytes_eq→eq d.run_id e.run_id (ground arith),
  bytes_eq→eq d.artifact_digest e.artifact_digest (ground arith),
  bytes_eq→eq d.helper_digest e.helper_digest (ground arith),
  bytes_eq→eq d.endpoint_set_revision e.endpoint_set_revision (ground arith),
  ground arith,
  ground arith,
  ground arith,
  ground arith,
  ground arith,
  ground arith,
)

-- The claim of the participant in the role is the descriptor's, and the two claims differ.
pair_claim :
    (d : TraversalDescriptorV1) (p : TraversalPair) (role : TraversalParticipantRole)
    → validate_participants d p role ≡ ok tt
    → (claim_of p role ≡ d.claim_authority_digest)
      × (p.a.claim_authority_digest ≢ p.b.claim_authority_digest)
unfolding validate_participants
pair_claim d p first h = (
  bytes_eq→eq p.a.claim_authority_digest d.claim_authority_digest (ground arith),
  λ e. ground (arith, (bytes_eq_iff p.a.claim_authority_digest p.b.claim_authority_digest).1 e),
)
pair_claim d p second h = (
  bytes_eq→eq p.b.claim_authority_digest d.claim_authority_digest (ground arith),
  λ e. ground (arith, (bytes_eq_iff p.a.claim_authority_digest p.b.claim_authority_digest).1 e),
)

pair_found :
    (d : TraversalDescriptorV1) (pair : Option TraversalPair) (role : TraversalParticipantRole)
    → validate_pair d pair_mode pair (some role) ≡ ok tt
    → (p : TraversalPair) × (pair ≡ some p) × (validate_participants d p role ≡ ok tt)
unfolding validate_pair
pair_found d none role h = absurd (ground arith)
pair_found d (some p) role h = (p, refl, h)

same_pair_claims :
    (p q : TraversalPair)
    → same_pair p q ≡ true
    → p.b.claim_authority_digest ≡ q.b.claim_authority_digest
unfolding same_pair same_participant
same_pair_claims p q h =
    bytes_eq→eq p.b.claim_authority_digest q.b.claim_authority_digest (ground arith)

same_mode_lem : (m : TraversalMode) → is_mode pair_mode m ≡ true → m ≡ pair_mode
same_mode_lem observe h = absurd (ground arith)
same_mode_lem mapping_mode h = absurd (ground arith)
same_mode_lem pair_mode h = refl

same_descriptor-mode :
    (d e : TraversalDescriptorV1)
    → d.mode ≡ pair_mode
    → same_descriptor (counterpart d e) e ≡ true
    → e.mode ≡ pair_mode
unfolding same_descriptor
same_descriptor-mode d e mode h =
    let alike : is_mode d.mode e.mode ≡ true = ground arith in
    same_mode_lem e.mode (subst (λ m. is_mode m e.mode ≡ true) mode alike)

same_descriptor_pair :
    (d e : TraversalDescriptorV1)
    → same_descriptor (counterpart d e) e ≡ true
    → same_option same_pair d.pair e.pair ≡ true
unfolding same_descriptor
same_descriptor_pair d e h = ground arith

module _ (serialized_len : TraversalDescriptorV1 → Option ℕ) where
  abbrev Parts : TraversalDescriptorV1 → TraversalDescriptorV1 → Type 0
  Parts d e =
      (validate serialized_len d ≡ ok tt)
      × (validate serialized_len e ≡ ok tt)
      × (d.mode ≡ pair_mode)
      × (d.participant_role ≡ some first)
      × (e.participant_role ≡ some second)
      × (same_descriptor (counterpart d e) e ≡ true)

  validate_traversal_pair-Parts :
      (d e : TraversalDescriptorV1) → validate_traversal_pair serialized_len d e ≡ ok tt → Parts d e
  unfolding validate_traversal_pair
  validate_traversal_pair-Parts d e h = elim (Result-cases (validate serialized_len d)) [
    | inr (problem, refused) ↦ absurd (ground arith)
    | inl (tt, valid) ↦ elim (Result-cases (validate serialized_len e)) [
      | inr (problem, refused) ↦ absurd (ground arith)
      | inl (tt, valid') ↦ (
        valid,
        valid',
        is_mode_lem d.mode (ground arith),
        same_role_lem d.participant_role first (ground arith),
        same_role_lem e.participant_role second (ground arith),
        ground arith,
      )
    ]
  ]

  -- A pair that is accepted is refused as no pair in the other order.
  pub validate_traversal_pair-swapped :
      (d e : TraversalDescriptorV1)
      → validate_traversal_pair serialized_len d e ≡ ok tt
      → validate_traversal_pair serialized_len e d ≡ err invalid_pair
  unfolding validate_traversal_pair
  validate_traversal_pair-swapped d e h =
      let (valid, valid', mode, d_first, e_second, same) = validate_traversal_pair-Parts d e h in
      let is_second : same_option same_role e.participant_role (some first) ≡ false =
        ap (λ r. same_option same_role r (some first)) e_second in
      elim (Bool-cases (is_mode e.mode pair_mode)) [
        | inl is_pair ↦ ground arith
        | inr other ↦ ground arith
      ]

  validate-pair-ensures :
      (d : TraversalDescriptorV1)
      → Ensures
          (λ _. validate_pair d d.mode d.pair d.participant_role ≡ ok tt)
          (validate serialized_len d)
  unfolding validate
  validate-pair-ensures d =
      let P : Unit {0} → Type 0 = λ _. validate_pair d d.mode d.pair d.participant_role ≡ ok tt in
      bind-ensures P (validate_identity d) _ λ _ _.
        bind-ensures P (validate_budgets d.budgets) _ λ _ _.
          bind-ensures P (validate_deadline d) _ λ _ _.
            bind-ensures P (validate_operations d) _ λ _ _.
              bind-ensures P (validate_mapping d d.mode d.mapping) _ λ _ _.
                bind-ensures P (validate_pair d d.mode d.pair d.participant_role) _ λ _ paired.
                  always-ensures P
                    (validate_relay d >>= λ _. bounded serialized_len d traversal_block_max_bytes)
                    λ _. paired

  validate-paired :
      (d : TraversalDescriptorV1)
      → validate serialized_len d ≡ ok tt
      → validate_pair d d.mode d.pair d.participant_role ≡ ok tt
  validate-paired d h =
      ensures-ok (λ _. validate_pair d d.mode d.pair d.participant_role ≡ ok tt)
        (validate serialized_len d) (validate-pair-ensures d) h

  in_role :
      (d : TraversalDescriptorV1) (role : TraversalParticipantRole)
      → validate serialized_len d ≡ ok tt
      → d.mode ≡ pair_mode
      → d.participant_role ≡ some role
      → (p : TraversalPair) × (d.pair ≡ some p) × (validate_participants d p role ≡ ok tt)
  in_role d role valid mode is = pair_found d d.pair role (
      subst (λ r. validate_pair d pair_mode d.pair r ≡ ok tt) is
        (subst (λ m. validate_pair d m d.pair d.participant_role ≡ ok tt) mode
          (validate-paired d valid)))

  claims_differ :
      (d e : TraversalDescriptorV1)
      → Parts d e
      → e.mode ≡ pair_mode
      → d.claim_authority_digest ≢ e.claim_authority_digest
  claims_differ d e (valid, valid', mode, d_first, e_second, same) e_mode is =
      let (p, d_pair, d_in) = in_role d first valid mode d_first in
      let (q, e_pair, e_in) = in_role e second valid' e_mode e_second in
      let (p_claim, differ) = pair_claim d p first d_in in
      let (q_claim, _) = pair_claim e q second e_in in
      let pairs : same_option same_pair (some p) (some q) ≡ true =
        subst (λ x. same_option same_pair x (some q) ≡ true) d_pair
          (subst (λ y. same_option same_pair d.pair y ≡ true) e_pair
            (same_descriptor_pair d e same)) in
      let shared = same_pair_claims p q pairs in differ (cc (is, p_claim, q_claim, shared))

  -- What makes two descriptors the two sides of one pair.
  abbrev pub IsPaired : TraversalDescriptorV1 → TraversalDescriptorV1 → Type 0
  IsPaired d e =
      (validate serialized_len d ≡ ok tt)
      × (validate serialized_len e ≡ ok tt)
      × (d.mode ≡ pair_mode)
      × (e.mode ≡ pair_mode)
      × (d.participant_role ≡ some first)
      × (e.participant_role ≡ some second)
      × (d.claim_authority_digest ≢ e.claim_authority_digest)
      × Agree d e

  -- Two descriptors that are accepted as a pair are both valid and of the pair mode, the first in the
  -- first role and the second in the second, under different claims; they agree on the run, the
  -- artifact, the helper, the endpoint set, the times and the budgets of experiment, datagrams and
  -- relay.
  pub validate_traversal_pair-IsPaired :
      (d e : TraversalDescriptorV1)
      → validate_traversal_pair serialized_len d e ≡ ok tt
      → IsPaired d e
  validate_traversal_pair-IsPaired d e h =
      let parts = validate_traversal_pair-Parts d e h in
      let e_mode = same_descriptor-mode d e parts.2 parts.5 in
      (
        parts.0,
        parts.1,
        parts.2,
        e_mode,
        parts.3,
        parts.4,
        claims_differ d e parts e_mode,
        same_descriptor-Agree d e parts.5,
      )
