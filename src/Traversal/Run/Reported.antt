-- ===== src/Traversal/Run/Reported.antt =====
-- The rows that a session's run reports are in order (src/network_traversal/lifecycle.rs).
use liskov_runtime_cargo.Prelude.{
  refl, ℕ, ◌-◌, ◌≡◌, not, Option, some, List, Bytes, inl, inr, Bool-cases,
}
use liskov_runtime_cargo.Prelude.Result.{Result}
use liskov_runtime_cargo.Gateway.Control.{Url}
use liskov_runtime_cargo.Traversal.Texts.{TraversalRefusal}
use liskov_runtime_cargo.Traversal.Descriptor.{TraversalDescriptorV1, TraversalMappingConsent}
use liskov_runtime_cargo.Traversal.Transcript.{TraversalTranscriptV1}
use liskov_runtime_cargo.Traversal.Lifecycle.{
  Accounting, MappingMethodPlan, MappingSession, MappingStop, fits,
}
use liskov_runtime_cargo.Traversal.Run.Reports.{MethodRun, MappingGateway, MappingRunReport}
use liskov_runtime_cargo.Traversal.Run.Creation.{Context}
use liskov_runtime_cargo.Traversal.Run.Whole.{
  select_plans, run_charged, run_mapping_lifecycle, sub64,
}
use liskov_runtime_cargo.Traversal.Run.Returned.{run_mapping_lifecycle-returned}
use liskov_runtime_cargo.Traversal.Run.Ordered.{IsOrderly, left_early, run_methods-IsOrderly}

module _ (serialized_len : TraversalDescriptorV1 → Option ℕ)
    (descriptor_digest : TraversalDescriptorV1 → Result TraversalRefusal Bytes)
    (transcript_len : TraversalTranscriptV1 → Option ℕ) (hex_encode : Bytes → Bytes)
    (parse_url : Bytes → Option Url) where
  run_charged-IsOrderly :
      (session : MappingSession) (consent : TraversalMappingConsent)
      (plans : List MappingMethodPlan) (g : MappingGateway) (now_ms : ℕ)
      (runs : MappingMethodPlan → MethodRun) (a : Accounting) (report : MappingRunReport)
      → report
        ≡ run_charged serialized_len descriptor_digest transcript_len hex_encode parse_url session
            consent plans g now_ms runs a
      → IsOrderly report.methods report.stopped
  unfolding run_charged
  run_charged-IsOrderly session consent plans g now_ms runs a report is =
      let active_end =
        sub64 session.reservation.collector_end_ms session.reservation.cleanup_reserve_ms in
      let x : Context = record {
        descriptor = session.descriptor;
        maximum_lease_sec = consent.maximum_lease_sec;
        active_end = active_end;
        end = session.reservation.collector_end_ms;
        gateway = g;
      } in
      let chosen = select_plans a plans (active_end - now_ms) in
      let rows =
        run_methods-IsOrderly serialized_len descriptor_digest transcript_len hex_encode parse_url x
          runs chosen.0 a in
      elim (Bool-cases (not (fits a chosen.0 (active_end - now_ms)))) [
        | inl long ↦ rw (is, long, run_charged) (left_early MappingStop.budget)
        | inr fit ↦ rw (is, fit, run_charged) rows
      ]

  -- In the report of a session's run, a method follows another only after the other stopped for
  -- nothing and left no mapping at the router or deleted it with a confirmation; nothing was created
  -- without a baseline that was measured; and the report says why the loop was left, when it was.
  pub run_mapping_lifecycle-IsOrderly :
      (session : MappingSession) (plans : List MappingMethodPlan) (g : MappingGateway)
      (first_ms second_ms : ℕ) (runs : MappingMethodPlan → MethodRun)
      {consent : TraversalMappingConsent}
      → session.descriptor.mapping ≡ some consent
      → (report : MappingRunReport) × (run_mapping_lifecycle serialized_len descriptor_digest
            transcript_len hex_encode parse_url session plans g first_ms second_ms runs
          ≡ some report)
        × IsOrderly report.methods report.stopped
  run_mapping_lifecycle-IsOrderly session plans g first_ms second_ms runs {consent} granted =
      run_mapping_lifecycle-returned serialized_len descriptor_digest transcript_len hex_encode
        parse_url session plans g first_ms second_ms runs {consent = consent}
        (λ report. IsOrderly report.methods report.stopped) left_early
        (λ a bound accepted. run_charged-IsOrderly session consent plans g second_ms runs a _ refl)
        granted
