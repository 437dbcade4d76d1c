-- ===== src/Supervisor/Reaping/Tests.antt =====
-- A group that outlives both graces, and a cell that drops a second signal.
use liskov_runtime_cargo.Prelude.{
  ℕ, zero, suc, ◌+◌, ◌≤◌, ◌≡◌, true, not, none, some, List, [], ◌∷◌, ◌++◌, arith, if◌then◌else◌,
  replicate,
}
use liskov_runtime_cargo.Supervisor.Effects.{sigkill}
use liskov_runtime_cargo.Supervisor.Reaping.{
  poll_interval, sigterm, Probe, sent, reaped, Reaping, terminate_and_reap_group, CellEvent,
  captured, taken, takes,
}
use liskov_runtime_cargo.Supervisor.Reaping.Ends.{Ticks, terminate_and_reap_group-Ends}
use liskov_runtime_cargo.Supervisor.Reaping.Cell.{first_captured, takes-eq-first_captured}

abbrev probes : ℕ → ℕ → List Probe
probes zero now = []
probes (suc n) now = record { exists = true; now = now } ∷ probes n (now + poll_interval)

Ticks-probes : (n now : ℕ) → Ticks now (probes n now)
Ticks-probes zero now = tt
Ticks-probes (suc n) now = (omega arith, Ticks-probes n (now + poll_interval))

abbrev reaping : Reaping
reaping = record {
  terminated_at = 0;
  first_probes = probes 21 0;
  survives = true;
  killed_at = 600_000_000;
  second_probes = probes 21 600_000_000;
  remains = true;
}

terminate_and_reap_group-Ends_example :
    (n m : ℕ) × (n ≤ 20)
    × (m ≤ 20)
    × (terminate_and_reap_group 77 reaping
        ≡ some (
          (sent sigterm ∷ replicate n reaped)
              ++ ((if reaping.survives then sent sigkill ∷ [] else [])
                  ++ (replicate m reaped ++ reaped ∷ [])),
          not reaping.remains,
        ))
terminate_and_reap_group-Ends_example =
    terminate_and_reap_group-Ends 77 reaping (omega arith) (Ticks-probes 21 0)
      (Ticks-probes 21 600_000_000) (omega arith) (omega arith)

abbrev events : List CellEvent
events = captured 2 ∷ captured 15 ∷ taken ∷ taken ∷ captured 15 ∷ taken ∷ []

takes-eq-first_captured_example : takes 0 events ≡ first_captured none events
takes-eq-first_captured_example =
    takes-eq-first_captured events (omega arith, (omega arith, (omega arith, tt)))
