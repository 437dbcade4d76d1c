-- ===== src/Traversal/Run/Ordered.antt =====
-- The order of the rows of a session's run: when a method follows another, and what a creation needs
-- (src/network_traversal/lifecycle.rs).
use liskov_runtime_cargo.Prelude.{
  is_some, ℕ, ◌≡◌, refl, ◌⊎◌, inl, inr, Bool, true, false, not, ◌||◌, ◌==◌, Option, none, some,
  List, [], ◌∷◌, Bytes, Bool-cases, Option-cases, arith, ltb, leb, saturating_add, u64_max,
}
use liskov_runtime_cargo.Prelude.Result.{Result, Result-cases}
use liskov_runtime_cargo.Gateway.Control.{Url}
use liskov_runtime_cargo.Traversal.Texts.{TraversalRefusal}
use liskov_runtime_cargo.Traversal.Outcomes.{TraversalCleanup, TraversalOutcome, is_outcome}
use liskov_runtime_cargo.Traversal.Descriptor.{TraversalDescriptorV1}
use liskov_runtime_cargo.Traversal.Transcript.{TraversalTranscriptV1, some_and}
use liskov_runtime_cargo.Traversal.Lifecycle.{
  Accounting, MappingMethodPlan, MappingStop, one_if, udp_router,
}
use liskov_runtime_cargo.Traversal.Control.{ordinary, path}
use liskov_runtime_cargo.Mapping.Effects.{OwnedMappingHandle, MappingEffect}
use liskov_runtime_cargo.Traversal.Run.Reports.{
  MappingMethodReport, MethodRun, Pass, after_deletion, begun_row, is_cleaned, finish, leave,
  pending, port_ok,
}
use liskov_runtime_cargo.Traversal.Run.Creation.{Context, create_mapping}
use liskov_runtime_cargo.Traversal.Run.Passes.{
  verified, mapped_address, verify_check, baseline_check, after_creation, after_baseline,
  run_method, measured,
}
use liskov_runtime_cargo.Traversal.Run.Whole.{Rows, joined, run_methods}

-- Its baseline was measured.
abbrev pub IsMeasured : MappingMethodReport → Type 0
IsMeasured row = some_and row.baseline (λ s. measured s.outcome) ≡ true

-- Nothing was created without a measured baseline.
abbrev pub IsAuthorized : MappingMethodReport → Type 0
IsAuthorized row = (row.create ≡ none) ⊎ IsMeasured row

-- Nothing is left at the router, and nothing stopped the method.
abbrev pub IsSettled : MappingMethodReport → Type 0
IsSettled row = (is_cleaned row.cleanup ≡ true) × (row.stopped ≡ none)

-- The rows of a run, and why its loop was left.
pub data IsOrderly : List MappingMethodReport → Option MappingStop → Type 0 where
  finished : IsOrderly [] none
  left_early : (stop : MappingStop) → IsOrderly [] (some stop)
  left_after :
      (row : MappingMethodReport) (stop : MappingStop)
      → IsAuthorized row
      → IsOrderly (row ∷ []) (some stop)
  followed :
      (row : MappingMethodReport) {rows : List MappingMethodReport} {stopped : Option MappingStop}
      → IsAuthorized row
      → IsSettled row
      → IsOrderly rows stopped
      → IsOrderly (row ∷ rows) stopped

-- A pass goes on after a settled row, or leaves the loop.
abbrev IsStep : Pass → Type 0
IsStep p =
    ((p.stopped ≡ none)
      × ((row : MappingMethodReport) × (p.row ≡ some row) × IsAuthorized row × IsSettled row))
    ⊎ ((stop : MappingStop) × (p.stopped ≡ some stop)
        × ((p.row ≡ none) ⊎ ((row : MappingMethodReport) × (p.row ≡ some row) × IsAuthorized row)))

joined-IsOrderly :
    (p : Pass) (rest : Rows)
    → IsStep p
    → IsOrderly rest.methods rest.stopped
    → IsOrderly (joined p rest).methods (joined p rest).stopped
unfolding joined
joined-IsOrderly p rest (inl (goes_on, (row, is, authorized, settled))) orderly =
    rw (goes_on, is) (followed row authorized settled orderly)
joined-IsOrderly p rest (inr (stop, stops, inl no_row)) orderly =
    rw (stops, no_row) (left_early stop)
joined-IsOrderly p rest (inr (stop, stops, inr (row, is, authorized))) orderly =
    rw (stops, is) (left_after row stop authorized)

finish-IsStep :
    (row : MappingMethodReport) (a : Accounting) → IsMeasured row → IsStep (finish row a)
unfolding finish
finish-IsStep row a known =
    elim (Bool-cases (not (is_cleaned row.cleanup) || is_some row.stopped)) [
      | inl uncertain ↦ rw (uncertain) (inr (_, refl, inr (_, refl, inr known)))
      | inr sure ↦ elim (Option-cases row.stopped) [
        | inr (stop, stops) ↦ absurd (ground arith)
        | inl none_yet ↦ inl (ground arith, (_, refl, inr known, (ground arith, none_yet)))
      ]
    ]

after_deletion-IsMeasured :
    (row : MappingMethodReport) (cleanup : TraversalCleanup) (unsent : Bool)
    → IsMeasured row
    → IsMeasured (after_deletion row cleanup unsent)
unfolding after_deletion
after_deletion-IsMeasured row TraversalCleanup.confirmed_deleted unsent known = known
after_deletion-IsMeasured row cleanup true known = known
after_deletion-IsMeasured row cleanup false known = known

module _ (serialized_len : TraversalDescriptorV1 → Option ℕ)
    (descriptor_digest : TraversalDescriptorV1 → Result TraversalRefusal Bytes)
    (transcript_len : TraversalTranscriptV1 → Option ℕ) (hex_encode : Bytes → Bytes)
    (parse_url : Bytes → Option Url) (x : Context) where
  verified-IsMeasured :
      (plan : MappingMethodPlan) (h : OwnedMappingHandle) (row : MappingMethodReport)
      (a : Accounting) (run : MethodRun)
      → IsMeasured row
      → IsMeasured
          (verified serialized_len descriptor_digest transcript_len hex_encode parse_url x plan h
            row a run).0
  unfolding verified
  verified-IsMeasured plan h row a run known =
      elim (Option-cases (mapped_address plan.protocol h x.gateway)) [
        | inl missing ↦ rw (missing, verified) known
        | inr (address, is) ↦ elim (Bool-cases (not (port_ok h.external_port))) [
          | inl low ↦ rw (is, low, verified) known
          | inr high ↦ elim (Bool-cases (not (address == run.observed_address))) [
            | inl other ↦ rw (is, high, other, verified) known
            | inr same ↦
                elim (Result-cases
                  (path serialized_len descriptor_digest transcript_len hex_encode a x.descriptor
                    (verify_check plan h.external_port) run.verify x.active_end).0) [
                      | inl (summary, e) ↦ rw (is, high, same, e, verified) known
                      | inr (stop, e) ↦ rw (is, high, same, e, verified) known
                    ]
          ]
        ]
      ]

  after_creation-IsStep :
      (plan : MappingMethodPlan) (row : MappingMethodReport) (effect : MappingEffect)
      (a : Accounting) (run : MethodRun)
      → IsMeasured row
      → IsStep (
          after_creation serialized_len descriptor_digest transcript_len hex_encode parse_url x plan
            row effect a run)
  unfolding after_creation
  after_creation-IsStep plan row effect a run known =
      let named = record row {
        create = some effect.outcome;
        granted_lease_sec = effect.granted_lifetime_sec;
        cleanup = effect.cleanup;
      } in
      elim (Option-cases (pending effect.cleanup effect.handle)) [
        | inl settled ↦ rw (settled, after_creation) (finish-IsStep named a known)
        | inr (h, left) ↦ elim (Bool-cases (is_outcome effect.outcome TraversalOutcome.succeeded)) [
          | inl success ↦
              rw (left, success, after_creation)
                (finish-IsStep _ _
                  (after_deletion-IsMeasured _ _ _ (verified-IsMeasured plan h named a run known)))
          | inr failure ↦
              rw (left, failure, after_creation)
                (finish-IsStep _ _ (after_deletion-IsMeasured named _ _ known))
        ]
      ]

  leave-IsStep :
      (row : MappingMethodReport) (stop : MappingStop) (a : Accounting)
      → IsAuthorized row
      → IsStep (leave row stop a)
  leave-IsStep row stop a authorized = inr (stop, refl, inr (_, refl, authorized))

  after_baseline-IsStep :
      (plan : MappingMethodPlan) (port : ℕ) (row : MappingMethodReport) (a : Accounting)
      (run : MethodRun)
      → IsMeasured row
      → IsStep (
          after_baseline serialized_len descriptor_digest transcript_len hex_encode parse_url x plan
            port row a run)
  unfolding after_baseline
  after_baseline-IsStep plan port row a run known =
      elim (Result-cases (ordinary run.ready x.active_end)) [
        | inr (stop, over) ↦ rw (over, after_baseline) (leave-IsStep row stop a (inr known))
        | inl (ready, goes_on) ↦
            elim (Bool-cases (
              a.cleanup_control == 0
              || ltb a.cleanup_datagrams (one_if (udp_router plan.protocol))
              || leb x.active_end (saturating_add u64_max run.create_ms 1_000))) [
                | inl poor ↦
                    rw (goes_on, poor, after_baseline)
                      (leave-IsStep row MappingStop.budget a (inr known))
                | inr rich ↦
                    elim (Result-cases (create_mapping parse_url plan.protocol x plan port a run)) [
                      | inr (stop, failed) ↦
                          rw (goes_on, rich, failed, after_baseline)
                            (leave-IsStep row stop a (inr known))
                      | inl ((effect, left), done) ↦
                          rw (goes_on, rich, done, after_baseline)
                            (after_creation-IsStep plan row effect left run known)
                    ]
              ]
      ]

  run_method-IsStep :
      (a : Accounting) (plan : MappingMethodPlan) (run : MethodRun)
      → IsStep (
          run_method serialized_len descriptor_digest transcript_len hex_encode parse_url x a plan
            run)
  unfolding run_method
  run_method-IsStep a plan run = elim (Result-cases (ordinary run.start x.active_end)) [
    | inr (stop, over) ↦ rw (over, run_method) (inr (stop, refl, inl refl))
    | inl (started, goes_on) ↦ elim (Result-cases run.bound) [
      | inr (stop, unbound) ↦ rw (goes_on, unbound, run_method) (inr (stop, refl, inl refl))
      | inl (port, bound) ↦ elim (Bool-cases (not (port_ok port))) [
        | inl low ↦
            rw (goes_on, bound, low, run_method) (inr (MappingStop.invalid_binding, refl, inl refl))
        | inr high ↦
            let checked =
              path serialized_len descriptor_digest transcript_len hex_encode a x.descriptor
                (baseline_check plan port) run.baseline x.active_end in
            elim (Result-cases checked.0) [
              | inr (stop, e) ↦
                  rw (goes_on, bound, high, e, run_method)
                    (leave-IsStep (begun_row plan) stop checked.1 (inl refl))
              | inl (summary, e) ↦ elim (Bool-cases (not (measured summary.outcome))) [
                | inl unmeasured ↦
                    rw (goes_on, bound, high, e, unmeasured, run_method)
                      (leave-IsStep (record (begun_row plan) { baseline = some summary })
                        MappingStop.unsupported checked.1 (inl refl))
                | inr known ↦
                    rw (goes_on, bound, high, e, known, run_method)
                      (after_baseline-IsStep plan port
                        (record (begun_row plan) { baseline = some summary }) checked.1 run
                        (ground arith))
              ]
            ]
      ]
    ]
  ]

  pub run_methods-IsOrderly :
      (runs : MappingMethodPlan → MethodRun) (plans : List MappingMethodPlan) (a : Accounting)
      → IsOrderly
          (run_methods serialized_len descriptor_digest transcript_len hex_encode parse_url x runs a
            plans).methods
          (run_methods serialized_len descriptor_digest transcript_len hex_encode parse_url x runs a
            plans).stopped
  unfolding run_methods
  run_methods-IsOrderly runs [] a = finished
  run_methods-IsOrderly runs (plan ∷ plans) a =
      let pass =
        run_method serialized_len descriptor_digest transcript_len hex_encode parse_url x a plan
          (runs plan) in
      joined-IsOrderly pass _ (run_method-IsStep a plan (runs plan))
        (run_methods-IsOrderly runs plans pass.accounting)
