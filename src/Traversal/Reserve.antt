-- ===== src/Traversal/Reserve.antt =====
-- `grant_structure_ok`, `reserve_traversal` and `reservation_fits` of
-- src/network_traversal/reserve.rs.
pub mod Fits
use liskov_runtime_cargo.Prelude.{
  ℕ, Bool, true, false, not, ◌&&◌, ◌||◌, Option, none, some, Bytes, bytes_eq, codes, ◌==◌, leb,
  if◌then◌else◌, u64_max, saturating_add,
}
use liskov_runtime_cargo.Prelude.Result.{Result, ok, err, is_ok}
use liskov_runtime_cargo.Traversal.Texts.{
  TraversalRefusal, wrong_domain, invalid_mac, invalid_binding, insufficient_time, lower_hex,
}
use liskov_runtime_cargo.Traversal.Descriptor.{TraversalDescriptorV1}
use liskov_runtime_cargo.Traversal.Validate.{Checked, validate, can_start}

abbrev pub existing_delivery_reserve_ms : ℕ
existing_delivery_reserve_ms = 40_000

abbrev pub traversal_capability_domain : Bytes
traversal_capability_domain = codes "proof.liskov.network-traversal-capability.v1"

pub record TraversalCapabilityV1 : Type 0 where
  pub domain : Bytes
  pub mac : Bytes
  pub descriptor : TraversalDescriptorV1

pub record TraversalHelperIdentity : Type 0 where
  pub version : Bytes
  pub digest : Bytes

pub record Reservation : Type 0 where
  pub experiment_ms : ℕ
  pub cleanup_reserve_ms : ℕ
  pub delivery_reserve_ms : ℕ
  pub collector_end_ms : ℕ
  pub delivery_end_ms : ℕ

pub data ReserveOutcome : Type 0 where
  absent : ReserveOutcome
  refused : TraversalRefusal → ReserveOutcome
  reserved : Reservation → ReserveOutcome
  skipped_budget : ReserveOutcome

-- `cancelled` is what the effects answer if they are asked.
pub record ReserveInput : Type 0 where
  pub grant : Option TraversalCapabilityV1
  pub now_ms : ℕ
  pub job_expires_at_ms : ℕ
  pub artifact_digest : Bytes
  pub helper : TraversalHelperIdentity
  pub cancelled : Bool

unfoldable pub reservation_of : TraversalDescriptorV1 → ℕ → Reservation
reservation_of d now_ms =
    let collector_end_ms = saturating_add u64_max now_ms d.budgets.experiment_ms in
    record {
      experiment_ms = d.budgets.experiment_ms;
      cleanup_reserve_ms = d.budgets.cleanup_reserve_ms;
      delivery_reserve_ms = existing_delivery_reserve_ms;
      collector_end_ms = collector_end_ms;
      delivery_end_ms = saturating_add u64_max collector_end_ms existing_delivery_reserve_ms;
    }

unfoldable pub reservation_fits : TraversalDescriptorV1 → Reservation → Bool
reservation_fits d r =
    leb r.collector_end_ms d.deadline_ms
    && leb r.delivery_end_ms d.expires_at_ms
    && leb r.cleanup_reserve_ms r.experiment_ms
    && r.delivery_reserve_ms == existing_delivery_reserve_ms

module _ (serialized_len : TraversalDescriptorV1 → Option ℕ) where
  unfoldable pub grant_structure_ok : TraversalCapabilityV1 → Bytes → TraversalHelperIdentity → Bool
  grant_structure_ok capability artifact_digest helper =
      bytes_eq capability.domain traversal_capability_domain
      && lower_hex capability.mac 32
      && is_ok (validate serialized_len capability.descriptor)
      && bytes_eq capability.descriptor.helper_version helper.version
      && bytes_eq capability.descriptor.helper_digest helper.digest
      && bytes_eq capability.descriptor.artifact_digest artifact_digest

  -- The outcome, once the grant is bound to this helper and artifact.
  unfoldable pub reserve_bound : TraversalDescriptorV1 → ReserveInput → ReserveOutcome
  reserve_bound d input =
      elim (can_start serialized_len d input.now_ms input.job_expires_at_ms
        existing_delivery_reserve_ms) [
          | ok _ ↦
              if input.cancelled then skipped_budget else reserved (reservation_of d input.now_ms)
          | err insufficient_time ↦ skipped_budget
          | err refusal ↦ refused refusal
        ]

  unfoldable pub reserve_granted : TraversalCapabilityV1 → ReserveInput → ReserveOutcome
  reserve_granted capability input =
      if not (bytes_eq capability.domain traversal_capability_domain)
      then refused wrong_domain
      else (if not (lower_hex capability.mac 32)
          then refused invalid_mac
          else elim (validate serialized_len capability.descriptor) [
            | err refusal ↦ refused refusal
            | ok _ ↦
                if not (bytes_eq capability.descriptor.helper_version input.helper.version)
                  || not (bytes_eq capability.descriptor.helper_digest input.helper.digest)
                  || not (bytes_eq capability.descriptor.artifact_digest input.artifact_digest)
                then refused invalid_binding
                else reserve_bound capability.descriptor input
          ])

  unfoldable pub reserve_traversal : ReserveInput → ReserveOutcome
  reserve_traversal input = elim input.grant [
    | none ↦ absent
    | some capability ↦ reserve_granted capability input
  ]
