-- ===== src/Traversal/Run/Returned.antt =====
-- A run of a session that has a consent returns a report, and where it comes from
-- (`run_mapping_lifecycle` of src/network_traversal/lifecycle.rs).
use liskov_runtime_cargo.Prelude.{
  ℕ, ◌≡◌, true, false, Option, some, List, Bytes, inl, inr, Bool-cases, arith,
}
use liskov_runtime_cargo.Prelude.Result.{ok, Result, Result-cases}
use liskov_runtime_cargo.Gateway.Control.{Url}
use liskov_runtime_cargo.Traversal.Texts.{TraversalRefusal}
use liskov_runtime_cargo.Traversal.Descriptor.{TraversalDescriptorV1, TraversalMappingConsent}
use liskov_runtime_cargo.Traversal.Validate.{validate, validate_at}
use liskov_runtime_cargo.Traversal.Validate.Accepted.{IsWithinCeilings, validate-IsAccepted}
use liskov_runtime_cargo.Traversal.Transcript.{TraversalTranscriptV1}
use liskov_runtime_cargo.Traversal.Lifecycle.{
  Accounting, Charge, MappingMethodPlan, MappingSession, MappingStop, charge, new_accounting,
}
use liskov_runtime_cargo.Traversal.Run.Reports.{
  MethodRun, MappingGateway, MappingRunReport, stopped_report,
}
use liskov_runtime_cargo.Traversal.Run.Whole.{bound_to, run_charged, run_mapping_lifecycle}

abbrev pub discovery_charge : MappingGateway → Charge
discovery_charge g = record {
  datagrams = g.discovery_datagrams;
  controls = g.discovery_control_requests;
  dialbacks = 0;
  cleanup = false;
}

module _ (serialized_len : TraversalDescriptorV1 → Option ℕ)
    (descriptor_digest : TraversalDescriptorV1 → Result TraversalRefusal Bytes)
    (transcript_len : TraversalTranscriptV1 → Option ℕ) (hex_encode : Bytes → Bytes)
    (parse_url : Bytes → Option Url) where
  pub bound_to-within :
      (d : TraversalDescriptorV1) (consent : TraversalMappingConsent)
      (plans : List MappingMethodPlan) (g : MappingGateway) (now_ms : ℕ)
      → bound_to serialized_len descriptor_digest transcript_len hex_encode parse_url d consent
          plans g now_ms
        ≡ true
      → IsWithinCeilings d.budgets
  unfolding bound_to validate_at
  bound_to-within d consent plans g now_ms h = elim (Result-cases (validate serialized_len d)) [
    | inl (tt, accepted) ↦ (validate-IsAccepted serialized_len d accepted).0
    | inr (refusal, bad) ↦ absurd (ground arith)
  ]

  -- What holds of a report of a run that stopped early, and of one that ran, holds of a report.
  pub run_mapping_lifecycle-returned :
      (session : MappingSession) (plans : List MappingMethodPlan) (g : MappingGateway)
      (first_ms second_ms : ℕ) (runs : MappingMethodPlan → MethodRun)
      {consent : TraversalMappingConsent} (P : MappingRunReport → Type 0)
      → ((stop : MappingStop) → P (stopped_report stop))
      → ((a : Accounting)
          → bound_to serialized_len descriptor_digest transcript_len hex_encode parse_url
              session.descriptor consent plans g first_ms
            ≡ true
          → charge (new_accounting session.descriptor.budgets) (discovery_charge g) ≡ ok a
          → P (
              run_charged serialized_len descriptor_digest transcript_len hex_encode parse_url
                session consent plans g second_ms runs a))
      → session.descriptor.mapping ≡ some consent
      → (report : MappingRunReport) × (run_mapping_lifecycle serialized_len descriptor_digest
            transcript_len hex_encode parse_url session plans g first_ms second_ms runs
          ≡ some report)
        × P report
  unfolding run_mapping_lifecycle
  run_mapping_lifecycle-returned session plans g first_ms second_ms runs {consent} P early ran
        granted =
      let d = session.descriptor in
      let bound =
        bound_to serialized_len descriptor_digest transcript_len hex_encode parse_url d consent
          plans g first_ms in
      elim (Bool-cases bound) [
        | inr unbound ↦ (
          stopped_report MappingStop.invalid_binding,
          simp (granted, unbound, run_mapping_lifecycle),
          early MappingStop.invalid_binding,
        )
        | inl is_bound ↦
            elim (Result-cases (charge (new_accounting d.budgets) (discovery_charge g))) [
              | inr (stop, refused) ↦ (
                stopped_report MappingStop.budget,
                simp (granted, is_bound, refused, run_mapping_lifecycle),
                early MappingStop.budget,
              )
              | inl (a, accepted) ↦ (
                run_charged serialized_len descriptor_digest transcript_len hex_encode parse_url
                    session consent plans g second_ms runs a,
                simp (granted, is_bound, accepted, run_mapping_lifecycle),
                ran a is_bound accepted,
              )
            ]
      ]
