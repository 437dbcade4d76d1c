-- ===== src/Traversal/Descriptor.antt =====
-- The types of src/network_traversal/descriptor.rs, with the derived orders of its enumerations.
use liskov_runtime_cargo.Prelude.{
  ℕ, Bool, true, false, ◌||◌, Option, List, [], ◌∷◌, Bytes, any, ◌==◌, leb,
}

pub data TraversalMode : Type 0 where
  observe mapping_mode pair_mode : TraversalMode

pub data TraversalOperation : Type 0 where
  discover_gateway observe_mapping observe_filtering baseline_tcp baseline_udp register_endpoint
        map_pcp map_nat_pmp map_upnp pair_direct_udp pair_relay_control :
      TraversalOperation

pub data TraversalRouterProtocol : Type 0 where
  pcp nat_pmp upnp_igd : TraversalRouterProtocol

pub data TraversalParticipantRole : Type 0 where
  first second : TraversalParticipantRole

abbrev pub operation_rank : TraversalOperation → ℕ
operation_rank discover_gateway = 0
operation_rank observe_mapping = 1
operation_rank observe_filtering = 2
operation_rank baseline_tcp = 3
operation_rank baseline_udp = 4
operation_rank register_endpoint = 5
operation_rank map_pcp = 6
operation_rank map_nat_pmp = 7
operation_rank map_upnp = 8
operation_rank pair_direct_udp = 9
operation_rank pair_relay_control = 10

abbrev pub protocol_rank : TraversalRouterProtocol → ℕ
protocol_rank pcp = 0
protocol_rank nat_pmp = 1
protocol_rank upnp_igd = 2

abbrev pub role_rank : TraversalParticipantRole → ℕ
role_rank first = 0
role_rank second = 1

abbrev pub is_mode : TraversalMode → TraversalMode → Bool
is_mode observe observe = true
is_mode mapping_mode mapping_mode = true
is_mode pair_mode pair_mode = true
is_mode _ _ = false

-- `contains`, by the rank of an entry.
abbrev pub has_operation : List TraversalOperation → TraversalOperation → Bool
has_operation ops op = any (λ o. operation_rank o == operation_rank op) ops

abbrev pub has_protocol : List TraversalRouterProtocol → TraversalRouterProtocol → Bool
has_protocol ps p = any (λ q. protocol_rank q == protocol_rank p) ps

-- `windows(2).any(|w| w[0] >= w[1])`, by the rank of an entry.
unfoldable pub out_of_order {ℓ} : {A : Type ℓ} → (A → ℕ) → List A → Bool
out_of_order rank [] = false
out_of_order rank (x ∷ []) = false
out_of_order rank (x ∷ (y ∷ l)) = leb (rank y) (rank x) || out_of_order rank (y ∷ l)

pub record TraversalBudgets : Type 0 where
  pub experiment_ms : ℕ
  pub cleanup_reserve_ms : ℕ
  pub outbound_datagrams : ℕ
  pub datagram_bytes : ℕ
  pub control_requests : ℕ
  pub external_dialbacks : ℕ
  pub relay_bytes_per_direction : ℕ
  pub concurrent_mapping_leases : ℕ
  pub cleanup_datagrams : ℕ
  pub cleanup_control_requests : ℕ

pub record TraversalMappingConsent : Type 0 where
  pub consent_reference : Bytes
  pub processor_allowlist_digest : Bytes
  pub exclusive_reservation_digest : Bytes
  pub prior_uncertainty_resolved : Bool
  pub finite_expiry_verified : Bool
  pub expires_at_ms : ℕ
  pub protocols : List TraversalRouterProtocol
  pub requested_lease_sec : ℕ
  pub maximum_lease_sec : ℕ

pub record TraversalParticipant : Type 0 where
  pub role : TraversalParticipantRole
  pub launch_instance_digest : Bytes
  pub claim_authority_digest : Bytes
  pub runtime_signer : Bytes

-- The two slots of `participants` are two fields.
pub record TraversalPair : Type 0 where
  pub pair_id : Bytes
  pub expires_at_ms : ℕ
  pub a : TraversalParticipant
  pub b : TraversalParticipant

pub record TraversalDescriptorV1 : Type 0 where
  pub version : ℕ
  pub run_id : Bytes
  pub mode : TraversalMode
  pub claim_authority_digest : Bytes
  pub profile_version : Bytes
  pub catalog_version : Bytes
  pub artifact_digest : Bytes
  pub helper_version : Bytes
  pub helper_digest : Bytes
  pub endpoint_set_revision : Bytes
  pub issued_at_ms : ℕ
  pub expires_at_ms : ℕ
  pub deadline_ms : ℕ
  pub operations : List TraversalOperation
  pub budgets : TraversalBudgets
  pub mapping : Option TraversalMappingConsent
  pub pair : Option TraversalPair
  pub participant_role : Option TraversalParticipantRole
