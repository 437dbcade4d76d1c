-- ===== src/Traversal/Run/Spends.antt =====
-- What a session's run sends stays within the budgets of its descriptor
-- (src/network_traversal/lifecycle.rs).
use liskov_runtime_cargo.Prelude.{
  ℕ, ◌-◌, ◌≡◌, ◌≤◌, not, Option, some, List, [], ◌∷◌, Bytes, inl, inr, Bool-cases, Option-cases,
  arith,
}
use liskov_runtime_cargo.Prelude.Result.{Result}
use liskov_runtime_cargo.Gateway.Control.{Url}
use liskov_runtime_cargo.Traversal.Texts.{TraversalRefusal}
use liskov_runtime_cargo.Traversal.Descriptor.{
  TraversalBudgets, TraversalDescriptorV1, TraversalMappingConsent,
}
use liskov_runtime_cargo.Traversal.Validate.Accepted.{IsWithinCeilings}
use liskov_runtime_cargo.Traversal.Transcript.{TraversalTranscriptV1}
use liskov_runtime_cargo.Traversal.Lifecycle.{Accounting, MappingMethodPlan, MappingSession, fits}
use liskov_runtime_cargo.Traversal.Lifecycle.Balance.{
  IsBalanced, charge-IsBalanced, new_accounting-IsBalanced,
}
use liskov_runtime_cargo.Traversal.Run.Reports.{Pass, MethodRun, MappingGateway, MappingRunReport}
use liskov_runtime_cargo.Traversal.Run.Creation.{Context}
use liskov_runtime_cargo.Traversal.Run.Passes.{run_method}
use liskov_runtime_cargo.Traversal.Run.Whole.{
  Rows, joined, run_methods, select_plans, run_charged, run_mapping_lifecycle, sub64,
}
use liskov_runtime_cargo.Traversal.Run.Balanced.{run_method-IsBalanced}
use liskov_runtime_cargo.Traversal.Run.Returned.{
  discovery_charge, bound_to-within, run_mapping_lifecycle-returned,
}

-- A report within the budgets.
abbrev pub IsFrugal : TraversalBudgets → MappingRunReport → Type 0
IsFrugal b report =
    (report.sent_datagrams ≤ b.outbound_datagrams)
    × (report.control_requests ≤ b.control_requests)
    × (report.external_dialbacks ≤ b.external_dialbacks)

joined-IsBalanced :
    (b : TraversalBudgets) (pass : Pass) (rest : Rows)
    → IsBalanced b pass.accounting
    → IsBalanced b rest.accounting
    → IsBalanced b (joined pass rest).accounting
unfolding joined
joined-IsBalanced b pass rest over goes_on = elim (Option-cases pass.stopped) [
  | inl none_yet ↦ rw (none_yet) goes_on
  | inr (stop, stopped) ↦ rw (stopped) over
]

module _ (serialized_len : TraversalDescriptorV1 → Option ℕ)
    (descriptor_digest : TraversalDescriptorV1 → Result TraversalRefusal Bytes)
    (transcript_len : TraversalTranscriptV1 → Option ℕ) (hex_encode : Bytes → Bytes)
    (parse_url : Bytes → Option Url) where
  module _ (b : TraversalBudgets) (valid : IsWithinCeilings b) where
    run_methods-IsBalanced :
        (x : Context) (runs : MappingMethodPlan → MethodRun) (plans : List MappingMethodPlan)
        (a : Accounting)
        → IsBalanced b a
        → IsBalanced b
            (run_methods serialized_len descriptor_digest transcript_len hex_encode parse_url x runs
              a plans).accounting
    unfolding run_methods
    run_methods-IsBalanced x runs [] a balanced = balanced
    run_methods-IsBalanced x runs (plan ∷ plans) a balanced =
        let pass =
          run_method serialized_len descriptor_digest transcript_len hex_encode parse_url x a plan
            (runs plan) in
        let left =
          run_method-IsBalanced b valid serialized_len descriptor_digest transcript_len hex_encode
            parse_url x a plan (runs plan) balanced in
        joined-IsBalanced b pass _ left (run_methods-IsBalanced x runs plans pass.accounting left)

    run_charged-IsFrugal :
        (session : MappingSession) (consent : TraversalMappingConsent)
        (plans : List MappingMethodPlan) (g : MappingGateway) (now_ms : ℕ)
        (runs : MappingMethodPlan → MethodRun) (a : Accounting)
        → IsBalanced b a
        → IsFrugal b (
            run_charged serialized_len descriptor_digest transcript_len hex_encode parse_url session
              consent plans g now_ms runs a)
    unfolding run_charged
    run_charged-IsFrugal session consent plans g now_ms runs a balanced =
        let active_end =
          sub64 session.reservation.collector_end_ms session.reservation.cleanup_reserve_ms in
        let x : Context = record {
          descriptor = session.descriptor;
          maximum_lease_sec = consent.maximum_lease_sec;
          active_end = active_end;
          end = session.reservation.collector_end_ms;
          gateway = g;
        } in
        let chosen = select_plans a plans (active_end - now_ms) in
        let left = run_methods-IsBalanced x runs chosen.0 a balanced in
        elim (Bool-cases (not (fits a chosen.0 (active_end - now_ms)))) [
          | inl long ↦
              rw (long, run_charged) (omega (arith, balanced), omega (arith, balanced), omega arith)
          | inr fit ↦
              rw (fit, run_charged) (omega (arith, left), omega (arith, left), omega (arith, left))
        ]

  -- A session's run returns a report, whatever the router, the prober and the clock do, and the
  -- datagrams, the control requests and the dialbacks that it reports are within the budgets of the
  -- descriptor.
  pub run_mapping_lifecycle-IsFrugal :
      (session : MappingSession) (plans : List MappingMethodPlan) (g : MappingGateway)
      (first_ms second_ms : ℕ) (runs : MappingMethodPlan → MethodRun)
      {consent : TraversalMappingConsent}
      → session.descriptor.mapping ≡ some consent
      → (report : MappingRunReport) × (run_mapping_lifecycle serialized_len descriptor_digest
            transcript_len hex_encode parse_url session plans g first_ms second_ms runs
          ≡ some report)
        × IsFrugal session.descriptor.budgets report
  run_mapping_lifecycle-IsFrugal session plans g first_ms second_ms runs {consent} granted =
      let d = session.descriptor in
      run_mapping_lifecycle-returned serialized_len descriptor_digest transcript_len hex_encode
        parse_url session plans g first_ms second_ms runs {consent = consent} (IsFrugal d.budgets)
        (λ stop. (omega arith, omega arith, omega arith))
        (λ a bound accepted.
          let valid =
            bound_to-within serialized_len descriptor_digest transcript_len hex_encode parse_url d
              consent plans g first_ms bound in
          run_charged-IsFrugal d.budgets valid session consent plans g second_ms runs a (
            charge-IsBalanced d.budgets valid _ a (discovery_charge g)
              (new_accounting-IsBalanced d.budgets valid) accepted))
        granted
