-- ===== src/Traversal/Lifecycle/Cleanup.antt =====
-- What is set aside for cleanup is enough for the methods that `fits` accepts
-- (src/network_traversal/lifecycle.rs).
use liskov_runtime_cargo.Prelude.{
  ℕ, ◌+◌, ◌≤◌, ◌≡◌, refl, ◌∙◌, Bool, true, false, List, [], ◌∷◌, inl, inr, arith, length, All,
}
use liskov_runtime_cargo.Prelude.Result.{ok, err, Result-cases}
use liskov_runtime_cargo.Traversal.Descriptor.{TraversalBudgets}
use liskov_runtime_cargo.Traversal.Validate.{validate_budgets}
use liskov_runtime_cargo.Traversal.Validate.Accepted.{validate_budgets-IsWithinCeilings}
use liskov_runtime_cargo.Traversal.Lifecycle.{
  Accounting, new_accounting, Charge, charge, charge_all, MappingMethodPlan, udp_router, one_if,
  plan_deletes, fits,
}

-- The delete of the mapping of a method: one control request, and a datagram for a UDP router.
abbrev pub delete_of : MappingMethodPlan → Charge
delete_of plan = record {
  datagrams = one_if (udp_router plan.protocol);
  controls = 1;
  dialbacks = 0;
  cleanup = true;
}

abbrev pub deletes : List MappingMethodPlan → List Charge
deletes [] = []
deletes (plan ∷ plans) = delete_of plan ∷ deletes plans

-- Whether every charge of a sequence is accepted.
unfoldable pub all_accepted : Accounting → List Charge → Bool
all_accepted a [] = true
all_accepted a (x ∷ xs) = elim (charge a x) [ ok paid ↦ all_accepted paid xs | err stop ↦ false ]

abbrev pub IsOrdinary : Charge → Type 0
IsOrdinary x = x.cleanup ≡ false

abbrev SameAllowance : Accounting → Accounting → Type 0
SameAllowance a c =
    (c.cleanup_datagrams ≡ a.cleanup_datagrams) × (c.cleanup_control ≡ a.cleanup_control)

charge-SameAllowance :
    (a paid : Accounting) (x : Charge) → IsOrdinary x → charge a x ≡ ok paid → SameAllowance a paid
unfolding charge
charge-SameAllowance a paid x h e = (ground (arith, h), ground (arith, h))

charge_all-SameAllowance :
    (xs : List Charge) (a : Accounting) → All IsOrdinary xs → SameAllowance a (charge_all a xs)
unfolding charge_all
charge_all-SameAllowance [] a h = (refl, refl)
charge_all-SameAllowance (x ∷ xs) a (h, hs) = elim (Result-cases (charge a x)) [
  | inl (paid, accepted) ↦
      let (d, c) = charge-SameAllowance a paid x h accepted in
      let (ds, cs) = charge_all-SameAllowance xs paid hs in
      rw (accepted, charge_all) (ds ∙ d, cs ∙ c)
  | inr (stop, refused) ↦ rw (refused, charge_all) (charge_all-SameAllowance xs a hs)
]

plan_deletes_le : (plans : List MappingMethodPlan) → plan_deletes plans ≤ length plans
unfolding plan_deletes
plan_deletes_le [] = omega arith
plan_deletes_le (plan ∷ plans) = ground (arith, plan_deletes_le plans)

-- A delete that the allowance has room for is accepted, and is paid from it.
delete_accepted :
    (plan : MappingMethodPlan) (a : Accounting)
    → 1 ≤ a.cleanup_control
    → one_if (udp_router plan.protocol) ≤ a.cleanup_datagrams
    → a.cleanup_control ≤ 12
    → a.cleanup_datagrams ≤ 64
    → (paid : Accounting) × (charge a (delete_of plan) ≡ ok paid)
      × (paid.cleanup_control + 1 ≡ a.cleanup_control)
      × (paid.cleanup_datagrams + one_if (udp_router plan.protocol) ≡ a.cleanup_datagrams)
unfolding charge
delete_accepted plan a c d small few = elim (Result-cases (charge a (delete_of plan))) [
  | inr (stop, refused) ↦ absurd (ground (arith, c, d))
  | inl (paid, accepted) ↦ (paid, accepted, ground arith, ground arith)
]

plan_deletes_cons :
    (plan : MappingMethodPlan) (plans : List MappingMethodPlan)
    → length plans ≤ 12
    → plan_deletes (plan ∷ plans) ≡ plan_deletes plans + one_if (udp_router plan.protocol)
unfolding plan_deletes
plan_deletes_cons plan plans short = ground (arith, plan_deletes_le plans)

deletes_accepted :
    (plans : List MappingMethodPlan) (a : Accounting)
    → length plans ≤ a.cleanup_control
    → plan_deletes plans ≤ a.cleanup_datagrams
    → a.cleanup_control ≤ 12
    → a.cleanup_datagrams ≤ 64
    → all_accepted a (deletes plans) ≡ true
unfolding all_accepted
deletes_accepted [] a c d small few = refl
deletes_accepted (plan ∷ plans) a c d small few =
    let count = plan_deletes_cons plan plans (omega arith) in
    let (paid, accepted, controls, datagrams) =
      delete_accepted plan a (omega arith) (omega (arith, count)) small few in
    rw (accepted, all_accepted)
      (deletes_accepted plans paid (omega arith) (omega (arith, count)) (omega arith) (omega arith))

-- If `fits` accepts the methods of a session for an accounting of valid budgets, then after any
-- ordinary traffic, accepted or refused, the delete of the mapping of every method is accepted.
pub fits-deletes :
    (b : TraversalBudgets) (plans : List MappingMethodPlan) (available_ms : ℕ) (xs : List Charge)
    → validate_budgets b ≡ ok tt
    → fits (new_accounting b) plans available_ms ≡ true
    → All IsOrdinary xs
    → all_accepted (charge_all (new_accounting b) xs) (deletes plans) ≡ true
unfolding fits new_accounting
fits-deletes b plans available_ms xs valid enough ordinary =
    let within = validate_budgets-IsWithinCeilings b valid in
    let (datagrams, controls) = charge_all-SameAllowance xs (new_accounting b) ordinary in
    let deletes_fit : plan_deletes plans ≤ b.cleanup_datagrams = ground arith in
    let methods_fit : length plans ≤ b.cleanup_control_requests = ground arith in
    deletes_accepted plans (charge_all (new_accounting b) xs) (omega (arith, controls))
      (omega (arith, datagrams)) (omega (arith, controls, within))
      (omega (arith, datagrams, within))
