-- ===== src/Traversal/Tests.antt =====
-- A mapping experiment that is granted, and for which a time is reserved.
use liskov_runtime_cargo.Prelude.{
  List, ℕ, ◌≡◌, refl, ◌⊎◌, ◌↔◌, true, false, Option, none, some, [], ◌∷◌, ◌++◌, Bytes, codes,
  bytes_eq, replicate,
}
use liskov_runtime_cargo.Prelude.Result.{ok}
use liskov_runtime_cargo.Traversal.Texts.{TraversalRefusal, text, lower_hex, strip_prefix, digest}
use liskov_runtime_cargo.Traversal.Descriptor.{
  mapping_mode, discover_gateway, map_pcp, pcp, out_of_order, TraversalBudgets,
  TraversalMappingConsent, TraversalDescriptorV1,
}
use liskov_runtime_cargo.Traversal.Validate.{
  validate_budgets, allowed, validate_consent, validate_mapping, validate_pair, bounded,
  validate_identity, validate_deadline, validate_operations, validate_relay, validate, validate_at,
  can_start,
}
use liskov_runtime_cargo.Traversal.Validate.Accepted.{
  IsAccepted, Starts, validate-IsAccepted, can_start-eq-ok_iff,
}
use liskov_runtime_cargo.Traversal.Reserve.{
  TraversalCapabilityV1, Reservation, refused, ReserveInput, traversal_capability_domain,
  grant_structure_ok, reserve_traversal,
}
use liskov_runtime_cargo.Traversal.Reserve.Fits.{IsAdmitted, reserve_traversal-agrees}
use liskov_runtime_cargo.Gateway.Control.{nat_pmp}
use liskov_runtime_cargo.Traversal.Lifecycle.{
  MappingBindings, MappingSession, from_authenticated_bootstrap, new_accounting, Charge, charge_all,
  MappingMethodPlan, plan_controls, plan_datagrams, plan_deletes, fits,
}
use liskov_runtime_cargo.Traversal.Lifecycle.Cleanup.{all_accepted, deletes, fits-deletes}
use liskov_runtime_cargo.Traversal.Lifecycle.Session.{IsBound, from_authenticated_bootstrap-IsBound}

abbrev pub hash : Bytes
hash = codes "sha256:" ++ replicate 64 b'0'

abbrev consent : TraversalMappingConsent
consent = record {
  consent_reference = codes "ref-1";
  processor_allowlist_digest = hash;
  exclusive_reservation_digest = hash;
  prior_uncertainty_resolved = true;
  finite_expiry_verified = true;
  expires_at_ms = 200_000;
  protocols = pcp ∷ [];
  requested_lease_sec = 60;
  maximum_lease_sec = 120;
}

abbrev pub budgets : TraversalBudgets
budgets = record {
  experiment_ms = 20_000;
  cleanup_reserve_ms = 4_000;
  outbound_datagrams = 16;
  datagram_bytes = 512;
  control_requests = 6;
  external_dialbacks = 0;
  relay_bytes_per_direction = 0;
  concurrent_mapping_leases = 1;
  cleanup_datagrams = 2;
  cleanup_control_requests = 2;
}

abbrev pub descriptor : TraversalDescriptorV1
descriptor = record {
  version = 1;
  run_id = replicate 32 b'a';
  mode = mapping_mode;
  claim_authority_digest = hash;
  profile_version = codes "p1";
  catalog_version = codes "c1";
  artifact_digest = hash;
  helper_version = codes "0.12.2";
  helper_digest = hash;
  endpoint_set_revision = codes "e1";
  issued_at_ms = 100_000;
  expires_at_ms = 200_000;
  deadline_ms = 150_000;
  operations = discover_gateway ∷ map_pcp ∷ [];
  budgets = budgets;
  mapping = some consent;
  pair = none;
  participant_role = none;
}

-- A serialization of a fixed length.
abbrev pub serialized_len : TraversalDescriptorV1 → Option ℕ
serialized_len d = some 1_500

abbrev capability : TraversalCapabilityV1
capability = record {
  domain = traversal_capability_domain;
  mac = replicate 64 b'f';
  descriptor = descriptor;
}

abbrev input : ReserveInput
input = record {
  grant = some capability;
  now_ms = 110_000;
  job_expires_at_ms = 900_000;
  artifact_digest = hash;
  helper = record { version = codes "0.12.2"; digest = hash };
  cancelled = false;
}

abbrev pub reservation : Reservation
reservation = record {
  experiment_ms = 20_000;
  cleanup_reserve_ms = 4_000;
  delivery_reserve_ms = 40_000;
  collector_end_ms = 130_000;
  delivery_end_ms = 170_000;
}

validate-IsAccepted_example : IsAccepted serialized_len descriptor
unfolding text lower_hex strip_prefix digest out_of_order validate_budgets allowed validate_consent
    validate_mapping validate_pair bounded validate_identity validate_deadline validate_operations
    validate_relay validate
validate-IsAccepted_example = validate-IsAccepted serialized_len descriptor refl

can_start-eq-ok_iff_example :
    (can_start serialized_len descriptor 110_000 900_000 40_000 ≡ ok tt)
    ↔ Starts serialized_len descriptor 110_000 900_000 40_000
can_start-eq-ok_iff_example = can_start-eq-ok_iff serialized_len descriptor 110_000 900_000 40_000

reserve_traversal-agrees_example :
    ((grant_structure_ok serialized_len capability input.artifact_digest input.helper ≡ true)
      × IsAdmitted serialized_len (reserve_traversal serialized_len input))
    ⊎ ((grant_structure_ok serialized_len capability input.artifact_digest input.helper ≡ false)
        × ((problem : TraversalRefusal) × (reserve_traversal serialized_len input
              ≡ refused problem)))
reserve_traversal-agrees_example = reserve_traversal-agrees serialized_len capability input refl

-- Two methods that the budgets have room for, and traffic before their deletes.
abbrev wide_budgets : TraversalBudgets
wide_budgets = record budgets {
  control_requests = 12;
  external_dialbacks = 4;
  cleanup_datagrams = 2;
  cleanup_control_requests = 2;
}

abbrev plans : List MappingMethodPlan
plans = record { protocol = nat_pmp; is_udp = true } ∷ []

abbrev traffic : List Charge
traffic =
    record { datagrams = 1; controls = 1; dialbacks = 1; cleanup = false }
    ∷ record { datagrams = 60; controls = 0; dialbacks = 0; cleanup = false }
    ∷ []

fits-deletes_example :
    all_accepted (charge_all (new_accounting wide_budgets) traffic) (deletes plans) ≡ true
unfolding validate_budgets fits plan_controls plan_datagrams plan_deletes new_accounting
fits-deletes_example = fits-deletes wide_budgets plans 20_000 traffic refl refl (refl, (refl, tt))

abbrev bindings : MappingBindings
bindings = record {
  claim_authority_digest = hash;
  artifact_digest = hash;
  helper = record { version = codes "0.12.2"; digest = hash };
  consent_reference = codes "ref-1";
  processor_allowlist_digest = hash;
  exclusive_reservation_digest = hash;
}

abbrev session : MappingSession
session = record { descriptor = descriptor; reservation = reservation }

from_authenticated_bootstrap-IsBound_example :
    IsBound serialized_len session descriptor bindings 110_000 900_000
unfolding text lower_hex strip_prefix digest out_of_order validate_budgets allowed validate_consent
    validate_mapping validate_pair bounded validate_identity validate_deadline validate_operations
    validate_relay validate validate_at can_start from_authenticated_bootstrap bytes_eq
from_authenticated_bootstrap-IsBound_example =
    from_authenticated_bootstrap-IsBound serialized_len descriptor bindings 110_000 900_000 session
      refl
