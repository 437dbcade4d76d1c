-- ===== src/Traversal/Lifecycle.antt =====
-- The one-shot mapping session of src/network_traversal/lifecycle.rs: its start, and the accounting
-- of what it sends. A u16 wraps around.
pub mod Balance
pub mod Session
pub mod Cleanup
use liskov_runtime_cargo.Prelude.{
  ℕ, ◌+◌, ◌-◌, ◌*◌, ◌%◌, ◌^◌, Bool, true, false, not, ◌&&◌, ◌||◌, Option, none, some, List, [], ◌∷◌,
  Bytes, bytes_eq, ◌==◌, ltb, leb, if◌then◌else◌, length,
}
use liskov_runtime_cargo.Prelude.Result.{Result, ok, err, ◌>>=◌, ◌>>◌, refuse_if, ok_or}
use liskov_runtime_cargo.Gateway.Control.{RouterProtocol, pcp, nat_pmp, upnp_igd}
use liskov_runtime_cargo.Traversal.Texts.{TraversalRefusal, invalid_consent}
use liskov_runtime_cargo.Traversal.Descriptor.{
  TraversalBudgets, TraversalDescriptorV1, mapping_mode, is_mode,
}
use liskov_runtime_cargo.Traversal.Validate.{can_start}
use liskov_runtime_cargo.Traversal.Reserve.{
  TraversalHelperIdentity, Reservation, existing_delivery_reserve_ms,
}

abbrev pub method_window_ms : ℕ
method_window_ms = 8_000

pub data MappingStop : Type 0 where
  cancelled expired graceful_shutdown deadline budget invalid_binding unsupported
        cleanup_uncertain :
      MappingStop

pub record MappingBindings : Type 0 where
  pub claim_authority_digest : Bytes
  pub artifact_digest : Bytes
  pub helper : TraversalHelperIdentity
  pub consent_reference : Bytes
  pub processor_allowlist_digest : Bytes
  pub exclusive_reservation_digest : Bytes

pub record MappingSession : Type 0 where
  pub descriptor : TraversalDescriptorV1
  pub reservation : Reservation

abbrev pub wrap64 : ℕ → ℕ
wrap64 n = n % 2 ^ 64

-- The reservation of a session, whose sums wrap around.
abbrev pub session_reservation : TraversalDescriptorV1 → ℕ → Reservation
session_reservation d now_ms =
    let collector_end_ms = wrap64 (now_ms + d.budgets.experiment_ms) in
    record {
      experiment_ms = d.budgets.experiment_ms;
      cleanup_reserve_ms = d.budgets.cleanup_reserve_ms;
      delivery_reserve_ms = existing_delivery_reserve_ms;
      collector_end_ms = collector_end_ms;
      delivery_end_ms = wrap64 (collector_end_ms + existing_delivery_reserve_ms);
    }

unfoldable pub from_authenticated_bootstrap :
    (TraversalDescriptorV1 → Option ℕ)
    → TraversalDescriptorV1
    → MappingBindings
    → ℕ
    → ℕ
    → Result TraversalRefusal MappingSession
from_authenticated_bootstrap serialized_len d bindings now_ms job_expires_at_ms = do
  can_start serialized_len d now_ms job_expires_at_ms existing_delivery_reserve_ms
  consent ← ok_or d.mapping invalid_consent
  refuse_if
      (not (is_mode d.mode mapping_mode)
        || not (bytes_eq d.claim_authority_digest bindings.claim_authority_digest)
        || not (bytes_eq d.artifact_digest bindings.artifact_digest)
        || not (bytes_eq d.helper_version bindings.helper.version)
        || not (bytes_eq d.helper_digest bindings.helper.digest)
        || not (bytes_eq consent.consent_reference bindings.consent_reference)
        || not (bytes_eq consent.processor_allowlist_digest bindings.processor_allowlist_digest)
        || not
            (bytes_eq consent.exclusive_reservation_digest bindings.exclusive_reservation_digest))
      TraversalRefusal.invalid_binding
  ok (record { descriptor = d; reservation = session_reservation d now_ms })

pub record Accounting : Type 0 where
  pub ordinary_datagrams : ℕ
  pub ordinary_control : ℕ
  pub cleanup_datagrams : ℕ
  pub cleanup_control : ℕ
  pub dialbacks : ℕ
  pub sent_datagrams : ℕ
  pub control_requests : ℕ
  pub external_dialbacks : ℕ
  pub datagram_bytes : ℕ

abbrev pub add16 : ℕ → ℕ → ℕ
add16 a b = (a + b) % 2 ^ 16

abbrev pub sub16 : ℕ → ℕ → ℕ
sub16 a b = (2 ^ 16 + a - b) % 2 ^ 16

-- `Accounting::new`.
unfoldable pub new_accounting : TraversalBudgets → Accounting
new_accounting b = record {
  ordinary_datagrams = sub16 b.outbound_datagrams b.cleanup_datagrams;
  ordinary_control = sub16 b.control_requests b.cleanup_control_requests;
  cleanup_datagrams = b.cleanup_datagrams;
  cleanup_control = b.cleanup_control_requests;
  dialbacks = b.external_dialbacks;
  sent_datagrams = 0;
  control_requests = 0;
  external_dialbacks = 0;
  datagram_bytes = b.datagram_bytes;
}

-- The arguments of `charge`.
pub record Charge : Type 0 where
  pub datagrams : ℕ
  pub controls : ℕ
  pub dialbacks : ℕ
  pub cleanup : Bool

-- `charge`; a refused charge changes nothing.
unfoldable pub charge : Accounting → Charge → Result MappingStop Accounting
charge a x =
    let paid = record a {
      dialbacks = sub16 a.dialbacks x.dialbacks;
      sent_datagrams = add16 a.sent_datagrams x.datagrams;
      control_requests = add16 a.control_requests x.controls;
      external_dialbacks = add16 a.external_dialbacks x.dialbacks;
    } in
    if x.cleanup
    then (if ltb a.cleanup_datagrams x.datagrams
          || ltb a.cleanup_control x.controls
          || ltb a.dialbacks x.dialbacks
        then err budget
        else ok (record paid {
          cleanup_datagrams = sub16 a.cleanup_datagrams x.datagrams;
          cleanup_control = sub16 a.cleanup_control x.controls;
        }))
    else (if ltb a.ordinary_datagrams x.datagrams
          || ltb a.ordinary_control x.controls
          || ltb a.dialbacks x.dialbacks
        then err budget
        else ok (record paid {
          ordinary_datagrams = sub16 a.ordinary_datagrams x.datagrams;
          ordinary_control = sub16 a.ordinary_control x.controls;
        }))

-- The accounting after a sequence of charges, each accepted or refused.
unfoldable pub charge_all : Accounting → List Charge → Accounting
charge_all a [] = a
charge_all a (x ∷ xs) = elim (charge a x) [
  | ok paid ↦ charge_all paid xs
  | err stop ↦ charge_all a xs
]

-- A planned method: the router protocol, and whether the mapped port is a UDP port.
pub record MappingMethodPlan : Type 0 where
  pub protocol : RouterProtocol
  pub is_udp : Bool

abbrev pub udp_router : RouterProtocol → Bool
udp_router pcp = true
udp_router nat_pmp = true
udp_router upnp_igd = false

abbrev pub one_if : Bool → ℕ
one_if true = 1
one_if false = 0

-- The sums of `fits`: controls, datagrams, and datagrams of deletes.
unfoldable pub plan_controls : List MappingMethodPlan → ℕ
plan_controls [] = 0
plan_controls (plan ∷ plans) =
    add16 (plan_controls plans) (4 + (if udp_router plan.protocol then 1 else 3))

unfoldable pub plan_datagrams : List MappingMethodPlan → ℕ
plan_datagrams [] = 0
plan_datagrams (plan ∷ plans) =
    add16 (plan_datagrams plans) (one_if (udp_router plan.protocol) + 2 * one_if plan.is_udp)

unfoldable pub plan_deletes : List MappingMethodPlan → ℕ
plan_deletes [] = 0
plan_deletes (plan ∷ plans) = add16 (plan_deletes plans) (one_if (udp_router plan.protocol))

unfoldable pub fits : Accounting → List MappingMethodPlan → ℕ → Bool
fits a plans available_ms =
    leb (plan_controls plans) a.ordinary_control
    && leb (plan_datagrams plans) a.ordinary_datagrams
    && leb (length plans) a.cleanup_control
    && leb (plan_deletes plans) a.cleanup_datagrams
    && leb (2 * length plans) a.dialbacks
    && leb (wrap64 (length plans * method_window_ms)) available_ms
    && (add16 (plan_datagrams plans) (plan_deletes plans) == 0 || leb 60 a.datagram_bytes)
