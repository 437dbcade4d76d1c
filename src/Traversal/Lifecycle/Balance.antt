-- ===== src/Traversal/Lifecycle/Balance.antt =====
-- The accounting of a mapping session spends no more than its budgets, and ordinary traffic spends
-- nothing of what is set aside for cleanup (src/network_traversal/lifecycle.rs).
use liskov_runtime_cargo.Prelude.{◌+◌, ◌≡◌, List, [], ◌∷◌, inl, inr, Bool-cases, arith}
use liskov_runtime_cargo.Prelude.Result.{ok, Result-cases}
use liskov_runtime_cargo.Traversal.Descriptor.{TraversalBudgets}
use liskov_runtime_cargo.Traversal.Validate.Accepted.{
  IsWithinCeilings, validate_budgets-IsWithinCeilings,
}
use liskov_runtime_cargo.Traversal.Validate.{validate_budgets}
use liskov_runtime_cargo.Traversal.Lifecycle.{
  Accounting, new_accounting, Charge, charge, charge_all,
}

-- What is left and what was spent add up to the budgets, which are small.
abbrev pub IsBalanced : TraversalBudgets → Accounting → Type 0
IsBalanced b a =
    (a.ordinary_datagrams + a.cleanup_datagrams + a.sent_datagrams ≡ b.outbound_datagrams)
    × (a.ordinary_control + a.cleanup_control + a.control_requests ≡ b.control_requests)
    × (a.dialbacks + a.external_dialbacks ≡ b.external_dialbacks)

module _ (b : TraversalBudgets) (valid : IsWithinCeilings b) where
  pub new_accounting-IsBalanced : IsBalanced b (new_accounting b)
  unfolding new_accounting
  new_accounting-IsBalanced = (omega (arith, valid), omega (arith, valid), omega arith)

  pub charge-IsBalanced :
      (a paid : Accounting) (x : Charge) → IsBalanced b a → charge a x ≡ ok paid → IsBalanced b paid
  unfolding charge
  charge-IsBalanced a paid x h e = elim (Bool-cases x.cleanup) [
    | inl is_cleanup ↦
        (ground (arith, valid, h), ground (arith, valid, h), ground (arith, valid, h))
    | inr is_ordinary ↦
        (ground (arith, valid, h), ground (arith, valid, h), ground (arith, valid, h))
  ]

  pub charge_all-IsBalanced_from :
      (xs : List Charge) (a : Accounting) → IsBalanced b a → IsBalanced b (charge_all a xs)
  unfolding charge_all
  charge_all-IsBalanced_from [] a h = h
  charge_all-IsBalanced_from (x ∷ xs) a h = elim (Result-cases (charge a x)) [
    | inl (paid, accepted) ↦
        rw (accepted, charge_all)
          (charge_all-IsBalanced_from xs paid (charge-IsBalanced a paid x h accepted))
    | inr (stop, refused) ↦ rw (refused, charge_all) (charge_all-IsBalanced_from xs a h)
  ]

-- After any sequence of charges to an accounting of valid budgets, each accepted or refused, what
-- was spent and what is left add up to the budgets, with no wrap-around: no budget is exceeded.
pub charge_all-IsBalanced :
    (b : TraversalBudgets) (xs : List Charge)
    → validate_budgets b ≡ ok tt
    → IsBalanced b (charge_all (new_accounting b) xs)
charge_all-IsBalanced b xs valid =
    let within = validate_budgets-IsWithinCeilings b valid in
    charge_all-IsBalanced_from b within xs (new_accounting b) (new_accounting-IsBalanced b within)
