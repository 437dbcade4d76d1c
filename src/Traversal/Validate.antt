-- ===== src/Traversal/Validate.antt =====
-- `validate` of the budgets and of the descriptor, `validate_at` and `can_start` of
-- src/network_traversal/descriptor.rs. The length of the serialized descriptor is a parameter:
-- `serde_json::to_vec`, which may fail.
pub mod Accepted
use liskov_runtime_cargo.Prelude.{
  ℕ, ◌+◌, ◌-◌, ◌*◌, min, Bool, true, false, not, ◌&&◌, ◌||◌, Option, none, some, List, [], ◌∷◌,
  Bytes, bytes_eq, codes, all, any, ◌==◌, ltb, leb, if◌then◌else◌, length, u64_max, checked_add,
}
use liskov_runtime_cargo.Prelude.Result.{Result, ok, err, ◌>>=◌, ◌>>◌, refuse_if, ok_or}
use liskov_runtime_cargo.Traversal.Texts.{
  TraversalRefusal, malformed, unknown_version, invalid_binding, invalid_scope, invalid_budget,
  invalid_deadline, invalid_consent, invalid_pair, oversize, not_yet_valid, expired,
  insufficient_time, text, lower_hex, digest, strip_prefix, safe_integer, traversal_block_max_bytes,
  traversal_capability_max_ms, traversal_experiment_max_ms, traversal_cleanup_reserve_ms,
}
use liskov_runtime_cargo.Traversal.Descriptor.{
  TraversalMode, observe, mapping_mode, pair_mode, TraversalOperation, discover_gateway,
  observe_mapping, observe_filtering, baseline_tcp, baseline_udp, register_endpoint, map_pcp,
  map_nat_pmp, map_upnp, pair_direct_udp, pair_relay_control, TraversalRouterProtocol, pcp, nat_pmp,
  upnp_igd, TraversalParticipantRole, first, second, operation_rank, protocol_rank, role_rank,
  is_mode, has_operation, has_protocol, out_of_order, TraversalBudgets, TraversalMappingConsent,
  TraversalParticipant, TraversalPair, TraversalDescriptorV1,
}

abbrev pub Checked : Type 0
Checked = Result TraversalRefusal (Unit {0})

-- `TraversalBudgets::validate`.
unfoldable pub validate_budgets : TraversalBudgets → Checked
validate_budgets b =
    refuse_if
      (b.experiment_ms == 0
        || ltb traversal_experiment_max_ms b.experiment_ms
        || b.cleanup_reserve_ms == 0
        || ltb traversal_cleanup_reserve_ms b.cleanup_reserve_ms
        || leb b.experiment_ms b.cleanup_reserve_ms
        || ltb 64 b.outbound_datagrams
        || ltb 512 b.datagram_bytes
        || ltb 12 b.control_requests
        || ltb 4 b.external_dialbacks
        || ltb 65_536 b.relay_bytes_per_direction
        || ltb 2 b.concurrent_mapping_leases
        || ltb b.outbound_datagrams b.cleanup_datagrams
        || ltb b.control_requests b.cleanup_control_requests
        || (ltb 0 b.outbound_datagrams && b.datagram_bytes == 0))
      invalid_budget

-- The operations that a mode allows.
unfoldable pub allowed : TraversalMode → TraversalOperation → Bool
allowed mode map_pcp = is_mode mode mapping_mode
allowed mode map_nat_pmp = is_mode mode mapping_mode
allowed mode map_upnp = is_mode mode mapping_mode
allowed mode register_endpoint = is_mode mode pair_mode
allowed mode pair_direct_udp = is_mode mode pair_mode
allowed mode pair_relay_control = is_mode mode pair_mode
allowed mode _ = not (is_mode mode pair_mode)

-- `mutates`.
abbrev pub mutates : TraversalRouterProtocol → TraversalOperation
mutates pcp = map_pcp
mutates nat_pmp = map_nat_pmp
mutates upnp_igd = map_upnp

abbrev no_protocols : List TraversalRouterProtocol → Bool
no_protocols [] = true
no_protocols (p ∷ ps) = false

unfoldable pub validate_consent : TraversalDescriptorV1 → TraversalMappingConsent → Checked
validate_consent d consent = do
  refuse_if
      (not (text consent.consent_reference)
        || not (digest consent.processor_allowlist_digest)
        || not (digest consent.exclusive_reservation_digest)
        || not consent.prior_uncertainty_resolved
        || not consent.finite_expiry_verified
        || ltb consent.expires_at_ms d.expires_at_ms
        || ltb safe_integer consent.expires_at_ms
        || not (consent.requested_lease_sec == 60)
        || ltb consent.maximum_lease_sec 60
        || ltb 120 consent.maximum_lease_sec
        || no_protocols consent.protocols
        || ltb 3 (length consent.protocols)
        || out_of_order protocol_rank consent.protocols
        || d.budgets.concurrent_mapping_leases == 0)
      invalid_consent
  refuse_if
      (any (λ p. not (has_operation d.operations (mutates p))) consent.protocols
        || any
            (λ p. has_operation d.operations (mutates p) && not (has_protocol consent.protocols p))
            (pcp ∷ nat_pmp ∷ upnp_igd ∷ [])
        || ltb d.budgets.cleanup_datagrams d.budgets.concurrent_mapping_leases
        || ltb d.budgets.cleanup_control_requests d.budgets.concurrent_mapping_leases)
      invalid_consent

unfoldable pub validate_mapping :
    TraversalDescriptorV1 → TraversalMode → Option TraversalMappingConsent → Checked
validate_mapping d mapping_mode (some consent) = validate_consent d consent
validate_mapping d mapping_mode none = err invalid_consent
validate_mapping d _ (some consent) = err invalid_scope
validate_mapping d _ none =
    refuse_if
      (not (d.budgets.concurrent_mapping_leases == 0)
        || not (d.budgets.cleanup_datagrams == 0)
        || not (d.budgets.cleanup_control_requests == 0))
      invalid_scope

-- `strip_prefix("0x").is_none_or(|s| !lower_hex(s, 32))`.
abbrev ill_formed_signer : Bytes → Bool
ill_formed_signer signer = elim (strip_prefix (codes "0x") signer) [
  | none ↦ true
  | some s ↦ not (lower_hex s 32)
]

abbrev ill_formed_participant : TraversalParticipant → Bool
ill_formed_participant p =
    not (digest p.launch_instance_digest)
    || not (digest p.claim_authority_digest)
    || ill_formed_signer p.runtime_signer

-- The claim of the first participant in a role is not the given one, or there is none.
abbrev other_claim : TraversalPair → TraversalParticipantRole → Bytes → Bool
other_claim pair role claim =
    if role_rank pair.a.role == role_rank role
    then not (bytes_eq pair.a.claim_authority_digest claim)
    else (if role_rank pair.b.role == role_rank role
        then not (bytes_eq pair.b.claim_authority_digest claim)
        else true)

unfoldable pub validate_participants :
    TraversalDescriptorV1 → TraversalPair → TraversalParticipantRole → Checked
validate_participants d pair role =
    refuse_if
      (not (lower_hex pair.pair_id 16)
        || not (pair.expires_at_ms == d.expires_at_ms)
        || not (role_rank pair.a.role == role_rank first)
        || not (role_rank pair.b.role == role_rank second)
        || bytes_eq pair.a.launch_instance_digest pair.b.launch_instance_digest
        || bytes_eq pair.a.claim_authority_digest pair.b.claim_authority_digest
        || ill_formed_participant pair.a
        || ill_formed_participant pair.b
        || other_claim pair role d.claim_authority_digest)
      invalid_pair

unfoldable pub validate_pair :
    TraversalDescriptorV1
    → TraversalMode
    → Option TraversalPair
    → Option TraversalParticipantRole
    → Checked
validate_pair d pair_mode (some pair) (some role) = validate_participants d pair role
validate_pair d pair_mode _ _ = err invalid_pair
validate_pair d _ none none = ok tt
validate_pair d _ _ _ = err invalid_scope

abbrev no_operations : List TraversalOperation → Bool
no_operations [] = true
no_operations (o ∷ os) = false

-- The checks of `validate` in its order.
unfoldable pub validate_identity : TraversalDescriptorV1 → Checked
validate_identity d = do
  refuse_if (not (d.version == 1)) unknown_version
  refuse_if
      (not (lower_hex d.run_id 16)
        || not (all digest (d.claim_authority_digest ∷ d.artifact_digest ∷ d.helper_digest ∷ []))
        || not (
            all text (
              d.profile_version ∷ d.catalog_version ∷ d.helper_version ∷ d.endpoint_set_revision
              ∷ [])))
      invalid_binding

unfoldable pub validate_deadline : TraversalDescriptorV1 → Checked
validate_deadline d =
    refuse_if
      (ltb safe_integer d.expires_at_ms
        || leb d.expires_at_ms d.issued_at_ms
        || ltb traversal_capability_max_ms (d.expires_at_ms - d.issued_at_ms)
        || leb d.deadline_ms d.issued_at_ms
        || ltb d.expires_at_ms d.deadline_ms)
      invalid_deadline

unfoldable pub validate_operations : TraversalDescriptorV1 → Checked
validate_operations d = do
  refuse_if
      (no_operations d.operations
        || ltb 11 (length d.operations)
        || out_of_order operation_rank d.operations)
      invalid_scope
  refuse_if (not (all (allowed d.mode) d.operations)) invalid_scope

unfoldable pub validate_relay : TraversalDescriptorV1 → Checked
validate_relay d =
    refuse_if (not (is_mode d.mode pair_mode) && not (d.budgets.relay_bytes_per_direction == 0))
      invalid_scope

module _ (serialized_len : TraversalDescriptorV1 → Option ℕ) where
  -- `bounded`.
  unfoldable pub bounded : TraversalDescriptorV1 → ℕ → Checked
  bounded d limit = do len ← ok_or (serialized_len d) malformed; refuse_if (ltb limit len) oversize

  unfoldable pub validate : TraversalDescriptorV1 → Checked
  validate d = do
    validate_identity d
    validate_budgets d.budgets
    validate_deadline d
    validate_operations d
    validate_mapping d d.mode d.mapping
    validate_pair d d.mode d.pair d.participant_role
    validate_relay d
    bounded d traversal_block_max_bytes

  unfoldable pub validate_at : TraversalDescriptorV1 → ℕ → Checked
  validate_at d now_ms = do
    validate d
    refuse_if (ltb now_ms d.issued_at_ms) not_yet_valid
    refuse_if (leb d.expires_at_ms now_ms) expired

  unfoldable pub can_start : TraversalDescriptorV1 → ℕ → ℕ → ℕ → Checked
  can_start d now_ms job_expires_at_ms delivery_reserve_ms = do
    validate_at d now_ms
    experiment_end ← ok_or (checked_add u64_max now_ms d.budgets.experiment_ms) insufficient_time
    delivered ← ok_or (checked_add u64_max experiment_end delivery_reserve_ms) insufficient_time
    refuse_if
        (ltb d.deadline_ms experiment_end || ltb (min d.expires_at_ms job_expires_at_ms) delivered)
        insufficient_time
