-- ===== src/Traversal/Outcomes.antt =====
-- The closed vocabulary of an experiment's results: the enumerations of src/network_traversal/proof.rs.
use liskov_runtime_cargo.Prelude.{ℕ, Bool, List, any, ◌==◌}

pub data TraversalEvidenceAuthority : Type 0 where
  external_path device_reported_router helper_observed_peer prober_observed_registration
        prober_observed_behaviour :
      TraversalEvidenceAuthority

pub data TraversalStage : Type 0 where
  discovery baseline mapping_create mapping_verify mapping_cleanup endpoint_registration direct
        relay_control mapping_behaviour filtering_behaviour :
      TraversalStage

pub data TraversalMethod : Type 0 where
  unassisted udp_mapping udp_filtering pcp nat_pmp upnp_igd pair : TraversalMethod

pub data TraversalTransport : Type 0 where
  tcp udp router_control relay_control : TraversalTransport

pub data TraversalFamily : Type 0 where
  v4 v6 : TraversalFamily

pub data TraversalOutcome : Type 0 where
  succeeded failed unsupported_topology unsupported_runtime_api unsupported_safe_ownership
        unsupported_finite_lease unverifiable_endpoint skipped_budget not_started
        direct_not_established_in_test one_way_peer peer_absent wrong_peer late_join
        candidate_rebinding budget_exhausted prober_no_egress creation_outcome_unknown
        expiry_unknown endpoint_independent address_dependent address_and_port_dependent unknown :
      TraversalOutcome

pub data TraversalErrorClass : Type 0 where
  timeout connect_failed invalid_response rate_limited token_refused budget_exhausted
        mapping_conflict lease_refused cleanup_failed prober_unavailable peer_unavailable :
      TraversalErrorClass

pub data TraversalCleanup : Type 0 where
  confirmed_deleted delete_failed lease_expiry_pending not_created creation_outcome_unknown
        expiry_unknown :
      TraversalCleanup

-- The derived equality of the enumerations is that of the ranks.
abbrev pub authority_rank : TraversalEvidenceAuthority → ℕ
authority_rank TraversalEvidenceAuthority.external_path = 0
authority_rank TraversalEvidenceAuthority.device_reported_router = 1
authority_rank TraversalEvidenceAuthority.helper_observed_peer = 2
authority_rank TraversalEvidenceAuthority.prober_observed_registration = 3
authority_rank TraversalEvidenceAuthority.prober_observed_behaviour = 4

abbrev pub stage_rank : TraversalStage → ℕ
stage_rank TraversalStage.discovery = 0
stage_rank TraversalStage.baseline = 1
stage_rank TraversalStage.mapping_create = 2
stage_rank TraversalStage.mapping_verify = 3
stage_rank TraversalStage.mapping_cleanup = 4
stage_rank TraversalStage.endpoint_registration = 5
stage_rank TraversalStage.direct = 6
stage_rank TraversalStage.relay_control = 7
stage_rank TraversalStage.mapping_behaviour = 8
stage_rank TraversalStage.filtering_behaviour = 9

abbrev pub method_rank : TraversalMethod → ℕ
method_rank TraversalMethod.unassisted = 0
method_rank TraversalMethod.udp_mapping = 1
method_rank TraversalMethod.udp_filtering = 2
method_rank TraversalMethod.pcp = 3
method_rank TraversalMethod.nat_pmp = 4
method_rank TraversalMethod.upnp_igd = 5
method_rank TraversalMethod.pair = 6

abbrev pub transport_rank : TraversalTransport → ℕ
transport_rank TraversalTransport.tcp = 0
transport_rank TraversalTransport.udp = 1
transport_rank TraversalTransport.router_control = 2
transport_rank TraversalTransport.relay_control = 3

abbrev pub family_rank : TraversalFamily → ℕ
family_rank TraversalFamily.v4 = 0
family_rank TraversalFamily.v6 = 1

abbrev pub outcome_rank : TraversalOutcome → ℕ
outcome_rank TraversalOutcome.succeeded = 0
outcome_rank TraversalOutcome.failed = 1
outcome_rank TraversalOutcome.unsupported_topology = 2
outcome_rank TraversalOutcome.unsupported_runtime_api = 3
outcome_rank TraversalOutcome.unsupported_safe_ownership = 4
outcome_rank TraversalOutcome.unsupported_finite_lease = 5
outcome_rank TraversalOutcome.unverifiable_endpoint = 6
outcome_rank TraversalOutcome.skipped_budget = 7
outcome_rank TraversalOutcome.not_started = 8
outcome_rank TraversalOutcome.direct_not_established_in_test = 9
outcome_rank TraversalOutcome.one_way_peer = 10
outcome_rank TraversalOutcome.peer_absent = 11
outcome_rank TraversalOutcome.wrong_peer = 12
outcome_rank TraversalOutcome.late_join = 13
outcome_rank TraversalOutcome.candidate_rebinding = 14
outcome_rank TraversalOutcome.budget_exhausted = 15
outcome_rank TraversalOutcome.prober_no_egress = 16
outcome_rank TraversalOutcome.creation_outcome_unknown = 17
outcome_rank TraversalOutcome.expiry_unknown = 18
outcome_rank TraversalOutcome.endpoint_independent = 19
outcome_rank TraversalOutcome.address_dependent = 20
outcome_rank TraversalOutcome.address_and_port_dependent = 21
outcome_rank TraversalOutcome.unknown = 22

abbrev pub is_outcome : TraversalOutcome → TraversalOutcome → Bool
is_outcome a b = outcome_rank a == outcome_rank b

abbrev pub is_stage : TraversalStage → TraversalStage → Bool
is_stage a b = stage_rank a == stage_rank b

-- `matches!`, by the rank of an entry.
abbrev pub one_of {ℓ} : {A : Type ℓ} → (A → ℕ) → A → List A → Bool
one_of rank x xs = any (λ y. rank x == rank y) xs

abbrev pub cleanup_rank : TraversalCleanup → ℕ
cleanup_rank TraversalCleanup.confirmed_deleted = 0
cleanup_rank TraversalCleanup.delete_failed = 1
cleanup_rank TraversalCleanup.lease_expiry_pending = 2
cleanup_rank TraversalCleanup.not_created = 3
cleanup_rank TraversalCleanup.creation_outcome_unknown = 4
cleanup_rank TraversalCleanup.expiry_unknown = 5

abbrev pub error_class_rank : TraversalErrorClass → ℕ
error_class_rank TraversalErrorClass.timeout = 0
error_class_rank TraversalErrorClass.connect_failed = 1
error_class_rank TraversalErrorClass.invalid_response = 2
error_class_rank TraversalErrorClass.rate_limited = 3
error_class_rank TraversalErrorClass.token_refused = 4
error_class_rank TraversalErrorClass.budget_exhausted = 5
error_class_rank TraversalErrorClass.mapping_conflict = 6
error_class_rank TraversalErrorClass.lease_refused = 7
error_class_rank TraversalErrorClass.cleanup_failed = 8
error_class_rank TraversalErrorClass.prober_unavailable = 9
error_class_rank TraversalErrorClass.peer_unavailable = 10
