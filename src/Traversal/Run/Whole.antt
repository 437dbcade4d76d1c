-- ===== src/Traversal/Run/Whole.antt =====
-- The loop and the whole of `run_mapping_lifecycle`, of src/network_traversal/lifecycle.rs.
use liskov_runtime_cargo.Prelude.{
  ℕ, ◌+◌, ◌-◌, ◌%◌, ◌^◌, Bool, false, not, ◌&&◌, ◌||◌, Option, none, some, List, [], ◌∷◌, ◌++◌,
  Bytes, bytes_eq, codes, take, ◌==◌, leb, if◌then◌else◌, length, any,
}
use liskov_runtime_cargo.Prelude.Result.{Result, ok, err, is_ok}
use liskov_runtime_cargo.Gateway.Routes.{SelectedGateway}
use liskov_runtime_cargo.Gateway.Control.{RouterProtocol, pcp, nat_pmp, upnp_igd, Url}
use liskov_runtime_cargo.Traversal.Texts.{TraversalRefusal}
use liskov_runtime_cargo.Traversal.Outcomes.{TraversalOutcome}
use liskov_runtime_cargo.Traversal.Descriptor.{
  TraversalDescriptorV1, TraversalOperation, TraversalMappingConsent, has_operation,
}
use liskov_runtime_cargo.Traversal.Validate.{validate_at}
use liskov_runtime_cargo.Traversal.Transcript.{TraversalTranscriptV1}
use liskov_runtime_cargo.Traversal.Lifecycle.{
  MappingStop, MappingSession, MappingMethodPlan, Accounting, new_accounting, charge, fits, one_if,
}
use liskov_runtime_cargo.Mapping.Effects.{ExclusiveReservation, authorizes}
use liskov_runtime_cargo.Traversal.Run.Reports.{
  MappingGateway, MethodRun, MappingMethodReport, MappingRunReport, stopped_report, Pass,
}
use liskov_runtime_cargo.Traversal.Run.Creation.{Context}
use liskov_runtime_cargo.Traversal.Run.Passes.{run_method}

abbrev pub map_operation : RouterProtocol → TraversalOperation
map_operation pcp = TraversalOperation.map_pcp
map_operation nat_pmp = TraversalOperation.map_nat_pmp
map_operation upnp_igd = TraversalOperation.map_upnp

abbrev pub router_rank : RouterProtocol → ℕ
router_rank pcp = 0
router_rank nat_pmp = 1
router_rank upnp_igd = 2

-- `plan_ok`.
abbrev pub plan_ok : TraversalDescriptorV1 → MappingMethodPlan → Bool
plan_ok d plan =
    has_operation d.operations (map_operation plan.protocol)
    && has_operation d.operations
        (if plan.is_udp then TraversalOperation.baseline_udp else TraversalOperation.baseline_tcp)

abbrev pub same_plan : MappingMethodPlan → MappingMethodPlan → Bool
same_plan p q =
    router_rank p.protocol == router_rank q.protocol && one_if p.is_udp == one_if q.is_udp

-- An entry equals an earlier one.
unfoldable pub repeats : List MappingMethodPlan → List MappingMethodPlan → Bool
repeats seen [] = false
repeats seen (p ∷ plans) = any (same_plan p) seen || repeats (seen ++ p ∷ []) plans

-- A u64 wraps around.
abbrev pub sub64 : ℕ → ℕ → ℕ
sub64 a b = (2 ^ 64 + a - b) % 2 ^ 64

abbrev pub with_row :
    Option MappingMethodReport → List MappingMethodReport → List MappingMethodReport
with_row none rows = rows
with_row (some row) rows = row ∷ rows

-- The rows, why the loop was left, and the accounting.
pub record Rows : Type 0 where
  pub methods : List MappingMethodReport
  pub stopped : Option MappingStop
  pub accounting : Accounting

-- A pass, and what the rest of the loop would give.
unfoldable pub joined : Pass → Rows → Rows
joined pass rest = elim pass.stopped [
  | some stop ↦ record {
    methods = with_row pass.row [];
    stopped = some stop;
    accounting = pass.accounting;
  }
  | none ↦ record rest { methods = with_row pass.row rest.methods }
]

-- The methods that the allowances and the time that is left can hold: all, or the first alone.
unfoldable pub select_plans : Accounting → List MappingMethodPlan → ℕ → List MappingMethodPlan × ℕ
select_plans a plans available =
    if fits a plans available then (plans, 0) else (take 1 plans, length plans - 1)

module _ (serialized_len : TraversalDescriptorV1 → Option ℕ)
    (descriptor_digest : TraversalDescriptorV1 → Result TraversalRefusal Bytes)
    (transcript_len : TraversalTranscriptV1 → Option ℕ) (hex_encode : Bytes → Bytes)
    (parse_url : Bytes → Option Url) where
  -- The loop.
  unfoldable pub run_methods :
      Context → (MappingMethodPlan → MethodRun) → Accounting → List MappingMethodPlan → Rows
  run_methods x runs a [] = record { methods = []; stopped = none; accounting = a }
  run_methods x runs a (plan ∷ plans) =
      let pass =
        run_method serialized_len descriptor_digest transcript_len hex_encode parse_url x a plan
          (runs plan) in
      joined pass (run_methods x runs pass.accounting plans)

  -- `matches_binding` of a reservation.
  abbrev pub matches_binding : ExclusiveReservation → SelectedGateway → Bytes → Bool
  matches_binding reservation gateway digest =
      authorizes reservation gateway
      && bytes_eq digest (codes "sha256:" ++ hex_encode reservation.digest)

  -- The binding of the plans and of the gateway to the session, at the first reading of the clock.
  unfoldable pub bound_to :
      TraversalDescriptorV1
      → TraversalMappingConsent
      → List MappingMethodPlan
      → MappingGateway
      → ℕ
      → Bool
  bound_to d consent plans g now_ms =
      is_ok (validate_at serialized_len d now_ms)
      && not (length plans == 0)
      && leb (length plans) 3
      && not (any (λ p. not (plan_ok d p)) plans)
      && not (repeats [] plans)
      && matches_binding g.reservation g.gateway consent.exclusive_reservation_digest

  -- What follows the charge of the discovery; `now_ms` is the second reading of the clock.
  unfoldable pub run_charged :
      MappingSession
      → TraversalMappingConsent
      → List MappingMethodPlan
      → MappingGateway
      → ℕ
      → (MappingMethodPlan → MethodRun)
      → Accounting
      → MappingRunReport
  run_charged session consent plans g now_ms runs a =
      let end = session.reservation.collector_end_ms in
      let active_end = sub64 end session.reservation.cleanup_reserve_ms in
      let available = active_end - now_ms in
      let (chosen, deferred) = select_plans a plans available in
      let x : Context = record {
        descriptor = session.descriptor;
        maximum_lease_sec = consent.maximum_lease_sec;
        active_end = active_end;
        end = end;
        gateway = g;
      } in
      let rows = run_methods x runs a chosen in
      if not (fits a chosen available)
      then record (stopped_report MappingStop.budget) {
        discovery = TraversalOutcome.succeeded;
        deferred_methods = deferred;
        sent_datagrams = a.sent_datagrams;
        control_requests = a.control_requests;
      }
      else record {
        discovery = TraversalOutcome.succeeded;
        methods = rows.methods;
        deferred_methods = deferred;
        stopped = rows.stopped;
        sent_datagrams = rows.accounting.sent_datagrams;
        control_requests = rows.accounting.control_requests;
        external_dialbacks = rows.accounting.external_dialbacks;
      }

  -- The run; `none` is the panic of a session without a consent.
  unfoldable pub run_mapping_lifecycle :
      MappingSession
      → List MappingMethodPlan
      → MappingGateway
      → ℕ
      → ℕ
      → (MappingMethodPlan → MethodRun)
      → Option MappingRunReport
  run_mapping_lifecycle session plans g first_ms second_ms runs = elim session.descriptor.mapping [
    | none ↦ none
    | some consent ↦
        if not (bound_to session.descriptor consent plans g first_ms)
        then some (stopped_report MappingStop.invalid_binding)
        else elim (charge (new_accounting session.descriptor.budgets) (record {
          datagrams = g.discovery_datagrams;
          controls = g.discovery_control_requests;
          dialbacks = 0;
          cleanup = false;
        })) [
          | err stop ↦ some (stopped_report MappingStop.budget)
          | ok a ↦ some (run_charged session consent plans g second_ms runs a)
        ]
  ]
