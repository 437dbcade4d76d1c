-- ===== src/Supervisor/Reaping.antt =====
-- The end of a process group, and the signal cell: `terminate_and_reap_group`, `capture_signal` and
-- `take_signal` of src/supervisor.rs. The answers of the kernel and the clock are inputs.
pub mod Ends
pub mod Cell
mod Tests
use liskov_runtime_cargo.Prelude.{
  ℕ, zero, suc, ◌+◌, Bool, true, false, not, ◌&&◌, Option, none, some, List, [], ◌∷◌, ◌++◌, ltb,
  ◌==◌, if◌then◌else◌, replicate,
}
use liskov_runtime_cargo.Prelude.Maybe.{◌>>=◌}
use liskov_runtime_cargo.Supervisor.Policy.{millis}
use liskov_runtime_cargo.Supervisor.Effects.{sigkill}

abbrev pub cleanup_grace : ℕ
cleanup_grace = millis 500

abbrev pub poll_interval : ℕ
poll_interval = millis 25

abbrev pub sigterm : ℕ
sigterm = 15

-- What one test of a waiting loop reads: whether the group exists, and the clock.
pub record Probe : Type 0 where
  pub exists : Bool
  pub now : ℕ

-- `while process_group_exists(..) && Instant::now() < deadline`: how often its body runs. `none`: the
-- loop still runs where the probes end.
unfoldable pub wait_group : ℕ → List Probe → Option ℕ
wait_group deadline [] = none
wait_group deadline (p ∷ ps) =
    let later = wait_group deadline ps >>= λ n. some (suc n) in
    if p.exists && ltb p.now deadline then later else some zero

pub data GroupEffect : Type 0 where
  sent : ℕ → GroupEffect
  -- `reap_descendants`.
  reaped : GroupEffect

-- The observations of a call: when each loop starts and its probes, and whether the group exists
-- after each.
pub record Reaping : Type 0 where
  pub terminated_at : ℕ
  pub first_probes : List Probe
  pub survives : Bool
  pub killed_at : ℕ
  pub second_probes : List Probe
  pub remains : Bool

unfoldable pub terminate_and_reap_group : ℕ → Reaping → Option (List GroupEffect × Bool)
terminate_and_reap_group process_group r =
    if process_group == 0
    then some ([], false)
    else wait_group (r.terminated_at + cleanup_grace) r.first_probes >>= λ n.
        wait_group (r.killed_at + cleanup_grace) r.second_probes >>= λ m. some (
          (sent sigterm ∷ replicate n reaped)
              ++ ((if r.survives then sent sigkill ∷ [] else [])
                  ++ (replicate m reaped ++ reaped ∷ [])),
          not r.remains,
        )

-- `PENDING_SIGNAL`: zero is no signal. A signal is captured only into an empty cell.
unfoldable pub capture_signal : ℕ → ℕ → ℕ
capture_signal pending s = if pending == 0 then s else pending

-- The signal that is taken, and the cell after it.
unfoldable pub take_signal : ℕ → Option ℕ × ℕ
take_signal pending = if pending == 0 then (none, 0) else (some pending, 0)

pub data CellEvent : Type 0 where
  captured : ℕ → CellEvent
  taken : CellEvent

-- What the takes give over a sequence of events, from a pending signal.
unfoldable pub takes : ℕ → List CellEvent → List (Option ℕ)
takes pending [] = []
takes pending (captured s ∷ es) = takes (capture_signal pending s) es
takes pending (taken ∷ es) = (take_signal pending).0 ∷ takes (take_signal pending).1 es
