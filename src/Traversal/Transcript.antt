-- ===== src/Traversal/Transcript.antt =====
-- The signed transcript of an experiment's phase: `TraversalTranscriptV1` and `proof_domain` of
-- src/network_traversal/proof.rs.
pub mod Checks
pub mod Scope
pub mod Evidence
pub mod Corroborated
mod Tests
use liskov_runtime_cargo.Prelude.{
  ℕ, Bool, true, false, not, ◌&&◌, ◌||◌, Option, none, some, [], ◌∷◌, Bytes, bytes_eq, codes, ◌==◌,
  ltb, if◌then◌else◌,
}
use liskov_runtime_cargo.Prelude.Result.{Result, ok, err, ◌>>=◌, ◌>>◌, refuse_if, ok_or}
use liskov_runtime_cargo.Traversal.Texts.{
  TraversalRefusal, malformed, unknown_version, wrong_domain, invalid_binding, invalid_scope,
  invalid_consent, invalid_pair, invalid_proof, oversize, lower_hex, digest, safe_integer,
  traversal_block_max_bytes, traversal_experiment_max_ms,
}
use liskov_runtime_cargo.Traversal.Outcomes.{
  TraversalEvidenceAuthority, TraversalStage, TraversalMethod, TraversalTransport, TraversalFamily,
  TraversalOutcome, TraversalErrorClass, TraversalCleanup, authority_rank, stage_rank, method_rank,
  transport_rank, family_rank, outcome_rank, is_outcome, is_stage, one_of,
}
use liskov_runtime_cargo.Traversal.Descriptor.{
  TraversalDescriptorV1, TraversalOperation, TraversalMappingConsent, TraversalParticipantRole,
  TraversalPair, has_operation,
}
use liskov_runtime_cargo.Traversal.Validate.{Checked, validate, validate_at}
use liskov_runtime_cargo.Traversal.Paired.{same_option, same_role, validate_traversal_pair}

abbrev pub external_path_domain : Bytes
external_path_domain = codes "proof.liskov.network-traversal-external-path.v1"

abbrev pub router_response_domain : Bytes
router_response_domain = codes "proof.liskov.network-traversal-device-router.v1"

abbrev pub direct_peer_domain : Bytes
direct_peer_domain = codes "proof.liskov.network-traversal-helper-direct.v1"

abbrev pub relay_peer_domain : Bytes
relay_peer_domain = codes "proof.liskov.network-traversal-helper-relay.v1"

abbrev pub behaviour_domain : Bytes
behaviour_domain = codes "proof.liskov.network-traversal-observed-behaviour.v1"

abbrev pub registration_domain : Bytes
registration_domain = codes "proof.liskov.network-traversal-endpoint-registration.v1"

pub record TraversalTranscriptV1 : Type 0 where
  pub version : ℕ
  pub domain : Bytes
  pub descriptor_digest : Bytes
  pub run_id : Bytes
  pub pair_id : Option Bytes
  pub participant_role : Option TraversalParticipantRole
  pub authority : TraversalEvidenceAuthority
  pub stage : TraversalStage
  pub method : TraversalMethod
  pub transport : TraversalTransport
  pub family : TraversalFamily
  pub challenge : Bytes
  pub peer_challenge : Option Bytes
  pub expires_at_ms : ℕ
  pub outcome : TraversalOutcome
  pub elapsed_ms : ℕ
  pub granted_lease_sec : Option ℕ
  pub cleanup : Option TraversalCleanup
  pub protocol_error : Option ℕ
  pub error_class : Option TraversalErrorClass

abbrev pub router_methods : TraversalMethod → Bool
router_methods method =
    one_of method_rank method
      (TraversalMethod.pcp ∷ TraversalMethod.nat_pmp ∷ TraversalMethod.upnp_igd ∷ [])

abbrev pub over_udp : TraversalTransport → Bool
over_udp transport = transport_rank transport == transport_rank TraversalTransport.udp

abbrev pub is_method : TraversalMethod → TraversalMethod → Bool
is_method a b = method_rank a == method_rank b

abbrev pub grant_if : Bool → Bytes → Result TraversalRefusal Bytes
grant_if true domain = ok domain
grant_if false domain = err invalid_proof

-- The guards of the arms, in their order for an authority.
unfoldable pub proof_domain :
    TraversalEvidenceAuthority
    → TraversalStage
    → TraversalMethod
    → TraversalTransport
    → Result TraversalRefusal Bytes
proof_domain TraversalEvidenceAuthority.external_path stage method transport =
    grant_if
      (one_of stage_rank stage (TraversalStage.baseline ∷ TraversalStage.mapping_verify ∷ [])
        && one_of transport_rank transport (TraversalTransport.tcp ∷ TraversalTransport.udp ∷ [])
        && ((is_stage stage TraversalStage.baseline && is_method method TraversalMethod.unassisted)
            || (is_stage stage TraversalStage.mapping_verify && router_methods method)))
      external_path_domain
proof_domain TraversalEvidenceAuthority.device_reported_router stage method transport =
    grant_if
      (one_of stage_rank stage (
          TraversalStage.discovery ∷ TraversalStage.mapping_create ∷ TraversalStage.mapping_cleanup
          ∷ [])
        && transport_rank transport == transport_rank TraversalTransport.router_control
        && router_methods method)
      router_response_domain
proof_domain TraversalEvidenceAuthority.helper_observed_peer stage method transport =
    if is_stage stage TraversalStage.direct
      && over_udp transport
      && is_method method TraversalMethod.pair
    then ok direct_peer_domain
    else grant_if
        (is_stage stage TraversalStage.relay_control
          && transport_rank transport == transport_rank TraversalTransport.relay_control
          && is_method method TraversalMethod.pair)
        relay_peer_domain
proof_domain TraversalEvidenceAuthority.prober_observed_registration stage method transport =
    grant_if
      (is_stage stage TraversalStage.endpoint_registration
        && over_udp transport
        && is_method method TraversalMethod.pair)
      registration_domain
proof_domain TraversalEvidenceAuthority.prober_observed_behaviour stage method transport =
    grant_if
      (over_udp transport
        && ((is_stage stage TraversalStage.mapping_behaviour
              && is_method method TraversalMethod.udp_mapping)
            || (is_stage stage TraversalStage.filtering_behaviour
                && is_method method TraversalMethod.udp_filtering)))
      behaviour_domain

abbrev pub some_and {ℓ} : {A : Type ℓ} → Option A → (A → Bool) → Bool
some_and none test = false
some_and (some a) test = test a
