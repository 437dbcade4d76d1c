-- ===== src/Traversal/Run/Balanced.antt =====
-- The accounting stays balanced over a pass of a session's run
-- (src/network_traversal/lifecycle.rs).
use liskov_runtime_cargo.Prelude.{
  ℕ, not, ◌||◌, Option, some, Bytes, inl, inr, Bool-cases, Option-cases, ltb, leb, ◌==◌,
  saturating_add, u64_max,
}
use liskov_runtime_cargo.Prelude.Result.{Result, Result-cases, ensures-ok}
use liskov_runtime_cargo.Gateway.Control.{Url}
use liskov_runtime_cargo.Traversal.Texts.{TraversalRefusal}
use liskov_runtime_cargo.Traversal.Outcomes.{TraversalOutcome, is_outcome}
use liskov_runtime_cargo.Traversal.Descriptor.{TraversalBudgets, TraversalDescriptorV1}
use liskov_runtime_cargo.Traversal.Validate.Accepted.{IsWithinCeilings}
use liskov_runtime_cargo.Traversal.Transcript.{TraversalTranscriptV1}
use liskov_runtime_cargo.Traversal.Lifecycle.{Accounting, MappingMethodPlan, one_if, udp_router}
use liskov_runtime_cargo.Traversal.Lifecycle.Balance.{IsBalanced}
use liskov_runtime_cargo.Traversal.Control.{path, ordinary}
use liskov_runtime_cargo.Mapping.Effects.{OwnedMappingHandle, MappingEffect}
use liskov_runtime_cargo.Traversal.Run.Reports.{
  MethodRun, MappingMethodReport, finish, pending, port_ok,
}
use liskov_runtime_cargo.Traversal.Run.Creation.{Context, create_mapping}
use liskov_runtime_cargo.Traversal.Run.Passes.{
  verified, mapped_address, verify_check, baseline_check, after_creation, after_baseline,
  run_method, measured,
}
use liskov_runtime_cargo.Traversal.Run.Charged.{
  path-IsBalanced, create_mapping-IsBalanced, delete_mapping-IsBalanced,
}

module _ (b : TraversalBudgets) (valid : IsWithinCeilings b)
    (serialized_len : TraversalDescriptorV1 → Option ℕ)
    (descriptor_digest : TraversalDescriptorV1 → Result TraversalRefusal Bytes)
    (transcript_len : TraversalTranscriptV1 → Option ℕ) (hex_encode : Bytes → Bytes)
    (parse_url : Bytes → Option Url) (x : Context) where
  verified-IsBalanced :
      (plan : MappingMethodPlan) (h : OwnedMappingHandle) (row : MappingMethodReport)
      (a : Accounting) (run : MethodRun)
      → IsBalanced b a
      → IsBalanced b
          (verified serialized_len descriptor_digest transcript_len hex_encode parse_url x plan h
            row a run).1
  unfolding verified
  verified-IsBalanced plan h row a run balanced =
      elim (Option-cases (mapped_address plan.protocol h x.gateway)) [
        | inl missing ↦ rw (missing, verified) balanced
        | inr (address, known) ↦ elim (Bool-cases (not (port_ok h.external_port))) [
          | inl low ↦ rw (known, low, verified) balanced
          | inr high ↦ elim (Bool-cases (not (address == run.observed_address))) [
            | inl other ↦ rw (known, high, other, verified) balanced
            | inr same ↦
                let paid =
                  path-IsBalanced b valid serialized_len descriptor_digest transcript_len hex_encode
                    a x.descriptor (verify_check plan h.external_port) run.verify x.active_end
                    balanced in
                elim (Result-cases
                  (path serialized_len descriptor_digest transcript_len hex_encode a x.descriptor
                    (verify_check plan h.external_port) run.verify x.active_end).0) [
                      | inl (summary, e) ↦ rw (known, high, same, e, verified) paid
                      | inr (stop, e) ↦ rw (known, high, same, e, verified) paid
                    ]
          ]
        ]
      ]

  after_creation-IsBalanced :
      (plan : MappingMethodPlan) (row : MappingMethodReport) (effect : MappingEffect)
      (a : Accounting) (run : MethodRun)
      → IsBalanced b a
      → IsBalanced b
          (after_creation serialized_len descriptor_digest transcript_len hex_encode parse_url x
            plan row effect a run).accounting
  unfolding after_creation finish
  after_creation-IsBalanced plan row effect a run balanced =
      let named = record row {
        create = some effect.outcome;
        granted_lease_sec = effect.granted_lifetime_sec;
        cleanup = effect.cleanup;
      } in
      elim (Option-cases (pending effect.cleanup effect.handle)) [
        | inl settled ↦ rw (settled, after_creation, finish) balanced
        | inr (h, left) ↦ elim (Bool-cases (is_outcome effect.outcome TraversalOutcome.succeeded)) [
          | inl success ↦
              rw (left, success, after_creation, finish)
                (delete_mapping-IsBalanced b valid parse_url x plan h effect.epoch _ run
                  (verified-IsBalanced plan h named a run balanced))
          | inr failure ↦
              rw (left, failure, after_creation, finish)
                (delete_mapping-IsBalanced b valid parse_url x plan h effect.epoch a run balanced)
        ]
      ]

  after_baseline-IsBalanced :
      (plan : MappingMethodPlan) (port : ℕ) (row : MappingMethodReport) (a : Accounting)
      (run : MethodRun)
      → IsBalanced b a
      → IsBalanced b
          (after_baseline serialized_len descriptor_digest transcript_len hex_encode parse_url x
            plan port row a run).accounting
  unfolding after_baseline
  after_baseline-IsBalanced plan port row a run balanced =
      elim (Result-cases (ordinary run.ready x.active_end)) [
        | inr (stop, over) ↦ rw (over, after_baseline) balanced
        | inl (ready, goes_on) ↦
            elim (Bool-cases (
              a.cleanup_control == 0
              || ltb a.cleanup_datagrams (one_if (udp_router plan.protocol))
              || leb x.active_end (saturating_add u64_max run.create_ms 1_000))) [
                | inl poor ↦ rw (goes_on, poor, after_baseline) balanced
                | inr rich ↦
                    elim (Result-cases (create_mapping parse_url plan.protocol x plan port a run)) [
                      | inr (stop, failed) ↦ rw (goes_on, rich, failed, after_baseline) balanced
                      | inl ((effect, left), done) ↦
                          rw (goes_on, rich, done, after_baseline)
                            (after_creation-IsBalanced plan row effect left run (
                              ensures-ok (λ r. IsBalanced b r.1)
                                (create_mapping parse_url plan.protocol x plan port a run)
                                (create_mapping-IsBalanced b valid parse_url x plan.protocol plan
                                  port a run balanced)
                                done))
                    ]
              ]
      ]

  pub run_method-IsBalanced :
      (a : Accounting) (plan : MappingMethodPlan) (run : MethodRun)
      → IsBalanced b a
      → IsBalanced b
          (run_method serialized_len descriptor_digest transcript_len hex_encode parse_url x a plan
            run).accounting
  unfolding run_method
  run_method-IsBalanced a plan run balanced =
      elim (Result-cases (ordinary run.start x.active_end)) [
        | inr (stop, over) ↦ rw (over, run_method) balanced
        | inl (started, goes_on) ↦ elim (Result-cases run.bound) [
          | inr (stop, unbound) ↦ rw (goes_on, unbound, run_method) balanced
          | inl (port, bound) ↦ elim (Bool-cases (not (port_ok port))) [
            | inl low ↦ rw (goes_on, bound, low, run_method) balanced
            | inr high ↦
                let paid =
                  path-IsBalanced b valid serialized_len descriptor_digest transcript_len hex_encode
                    a x.descriptor (baseline_check plan port) run.baseline x.active_end balanced in
                elim (Result-cases
                  (path serialized_len descriptor_digest transcript_len hex_encode a x.descriptor
                    (baseline_check plan port) run.baseline x.active_end).0) [
                      | inr (stop, e) ↦ rw (goes_on, bound, high, e, run_method) paid
                      | inl (summary, e) ↦ elim (Bool-cases (not (measured summary.outcome))) [
                        | inl unmeasured ↦ rw (goes_on, bound, high, e, unmeasured, run_method) paid
                        | inr known ↦
                            rw (goes_on, bound, high, e, known, run_method)
                              (after_baseline-IsBalanced plan port _ _ run paid)
                      ]
                    ]
          ]
        ]
      ]
