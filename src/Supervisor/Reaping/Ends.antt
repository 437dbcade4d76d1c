-- ===== src/Supervisor/Reaping/Ends.antt =====
-- The removal of a process group ends (src/supervisor.rs).
use liskov_runtime_cargo.Prelude.{
  ℕ, zero, suc, ◌+◌, ◌*◌, ◌≤◌, ◌<◌, ◌≡◌, refl, false, not, ◌&&◌, some, Bool-cases, List, [], ◌∷◌,
  ◌++◌, inl, inr, arith, length, ltb, ◌==◌, if◌then◌else◌, replicate,
}
use liskov_runtime_cargo.Supervisor.Effects.{sigkill}
use liskov_runtime_cargo.Supervisor.Reaping.{
  cleanup_grace, poll_interval, sigterm, Probe, wait_group, sent, reaped, Reaping,
  terminate_and_reap_group,
}

-- The clock of successive probes advances by at least the poll interval that the body sleeps.
abbrev pub Ticks : ℕ → List Probe → Type 0
Ticks from [] = Unit
Ticks from (p ∷ ps) = (from ≤ p.now) × Ticks (p.now + poll_interval) ps

wait_group-Returns :
    (ps : List Probe) (k from deadline : ℕ)
    → Ticks from ps
    → deadline ≤ from + k * poll_interval
    → k < length ps
    → (n : ℕ) × (wait_group deadline ps ≡ some n) × (n ≤ k)
unfolding wait_group
wait_group-Returns [] k from deadline t h l = absurd (omega arith)
wait_group-Returns (p ∷ ps) zero from deadline (t, ts) h l =
    (zero, ground (arith, t, h), omega arith)
wait_group-Returns (p ∷ ps) (suc k) from deadline (t, ts) h l =
    let (n, later, few) =
      wait_group-Returns ps k (p.now + poll_interval) deadline ts (omega (arith, t, h))
        (omega arith) in
    elim (Bool-cases (p.exists && ltb p.now deadline)) [
      | inl waits ↦ (suc n, rw (waits, later) refl, omega (arith, few))
      | inr over ↦ (zero, rw over refl, omega arith)
    ]

-- Given enough tests of the group, between which the clock advances by at least the poll interval, the
-- removal of a group with a positive number ends, each loop running its body at most 20 times. It
-- sends SIGTERM first, and SIGKILL once, exactly if the group survives the first loop, and its result
-- tells whether the group is gone at the end.
pub terminate_and_reap_group-Ends :
    (process_group : ℕ) (r : Reaping)
    → 0 < process_group
    → Ticks r.terminated_at r.first_probes
    → Ticks r.killed_at r.second_probes
    → 20 < length r.first_probes
    → 20 < length r.second_probes
    → (n m : ℕ) × (n ≤ 20)
      × (m ≤ 20)
      × (terminate_and_reap_group process_group r
          ≡ some (
            (sent sigterm ∷ replicate n reaped)
                ++ ((if r.survives then sent sigkill ∷ [] else [])
                    ++ (replicate m reaped ++ reaped ∷ [])),
            not r.remains,
          ))
unfolding terminate_and_reap_group
terminate_and_reap_group-Ends process_group r positive first_ticks second_ticks long long' =
    let (n, first_ends, n_few) =
      wait_group-Returns r.first_probes 20 r.terminated_at (r.terminated_at + cleanup_grace)
        first_ticks (omega arith) long in
    let (m, second_ends, m_few) =
      wait_group-Returns r.second_probes 20 r.killed_at (r.killed_at + cleanup_grace) second_ticks
        (omega arith) long' in
    let some_group : (process_group == 0) ≡ false = ground arith in
    (n, m, n_few, m_few, rw (some_group, first_ends, second_ends) refl)
