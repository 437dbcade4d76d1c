-- ===== src/Supervisor/Effects.antt =====
-- What the supervisor of src/supervisor.rs does and reports, in order, and what it observes.
-- Reports keep the source's stages, codes and attributes; the customer's group, its signals and
-- the detached workers are effects. Times are nanoseconds, signals are their numbers.
use liskov_runtime_cargo.Prelude.{
  ℕ, Bool, true, false, Option, none, some, List, [], ◌∷◌, ◌++◌, String, saturating_add, u64_max,
}
use liskov_runtime_cargo.Prelude.Json.{Json, boolean, number, text}
use liskov_runtime_cargo.Supervisor.Policy.{
  Disposition, policy_never, attempt_limit_reached, schedule_end_reached, duration_ms,
}

pub data DiagnosticStatus : Type 0 where
  started succeeded failed info : DiagnosticStatus

abbrev pub Attrs : Type 0
Attrs = List (String × Json)

pub record Report : Type 0 where
  pub stage : String
  pub status : DiagnosticStatus
  pub code : Option String
  pub attrs : Attrs

pub data Effect : Type 0 where
  reported : Report → Effect
  began_child : Effect
  ended_child : Effect
  -- A detached worker of this name is started.
  started_task : String → Effect
  spawned : Effect
  -- A signal sent to the customer's process group.
  signalled : ℕ → Effect
  -- `terminate_and_reap_group`, and whether the group is gone.
  cleaned : Bool → Effect

pub data SupervisorExit : Type 0 where
  code : ℕ → SupervisorExit
  signal : ℕ → SupervisorExit

-- `ExitStatus`: an exit code, or a termination with the signal if it is known.
pub data ExitStatus : Type 0 where
  exited : ℕ → ExitStatus
  terminated : Option ℕ → ExitStatus

pub data FailureReason : Type 0 where
  exit_nonzero : ℕ → FailureReason
  signal_unexpected : ℕ → FailureReason

abbrev pub sigkill : ℕ
sigkill = 9

abbrev pub restart_reason : FailureReason → String
restart_reason (exit_nonzero c) = "exit_nonzero"
restart_reason (signal_unexpected s) = "signal_unexpected"

abbrev pub fatal_code : FailureReason → String
fatal_code (exit_nonzero c) = "process_exit_nonzero"
fatal_code (signal_unexpected s) = "process_signal_unexpected"

abbrev pub disposition_name : Disposition → String
disposition_name policy_never = "policy_never"
disposition_name attempt_limit_reached = "attempt_limit_reached"
disposition_name schedule_end_reached = "schedule_end_reached"

-- Whether a reporter is attached, whether output is captured, and the instance's identity.
pub record Config : Type 0 where
  pub has_reporter : Bool
  pub runtime_instance_id : List ℕ

-- `report`: nothing without a reporter.
unfoldable pub report : Config → String → DiagnosticStatus → Option String → Attrs → List Effect
report c stage status problem attrs = elim c.has_reporter [
  | true ↦ reported (record { stage = stage; status = status; code = problem; attrs = attrs }) ∷ []
  | false ↦ []
]

unfoldable pub begin_child : Config → List Effect
begin_child c = elim c.has_reporter [ true ↦ began_child ∷ [] | false ↦ [] ]

unfoldable pub end_child : Config → List Effect
end_child c = elim c.has_reporter [ true ↦ ended_child ∷ [] | false ↦ [] ]

-- The counters of the restart loop.
pub record Counters : Type 0 where
  pub process_attempt : ℕ
  pub restart_count : ℕ
  pub consecutive_failures : ℕ

abbrev pub counts : Counters → Attrs
counts n =
    ("processAttempt", number n.process_attempt) ∷ ("restartCount", number n.restart_count) ∷ []

unfoldable pub report_health_beat : Config → Counters → Attrs → List Effect
report_health_beat c n readings = report c "runtime.health" info none (counts n ++ readings)

-- `report_attempt_failure`; the readings follow the attempt's own attributes.
unfoldable pub report_attempt_failure :
    Config → FailureReason → Counters → ℕ → Bool → Bool → Attrs → List Effect
report_attempt_failure c (exit_nonzero exit_code) n uptime cleanup_complete final readings =
    report c "runtime.cargo.process.exited" failed none (
      counts n
      ++ (("exitCode", number exit_code)
          ∷ ("uptimeMs", number (duration_ms uptime))
          ∷ ("final", boolean final)
          ∷ ("cleanupComplete", boolean cleanup_complete)
          ∷ readings))
report_attempt_failure c (signal_unexpected s) n uptime cleanup_complete final readings =
    report c "runtime.cargo.process.signaled" failed none (
      counts n
      ++ (("signal", number s)
          ∷ ("signalSource", text "child_unexpected")
          ∷ ("uptimeMs", number (duration_ms uptime))
          ∷ ("final", boolean final)
          ∷ ("cleanupComplete", boolean cleanup_complete)
          ∷ readings))

abbrev failure_attr : FailureReason → String × Json
failure_attr (exit_nonzero exit_code) = ("exitCode", number exit_code)
failure_attr (signal_unexpected s) = ("signal", number s)

unfoldable pub report_final_failure :
    Config → FailureReason → Disposition → Counters → ℕ → Bool → List Effect
report_final_failure c failure disposition n uptime cleanup_complete =
    report c "runtime.fatal.cargo.process" failed (some (fatal_code failure)) (
      counts n
      ++ (("uptimeMs", number (duration_ms uptime))
          ∷ ("cleanupComplete", boolean cleanup_complete)
          ∷ ("restartDisposition", text (disposition_name disposition))
          ∷ failure_attr failure
          ∷ []))

unfoldable pub schedule_restart : Config → FailureReason → ℕ → ℕ → List Effect
schedule_restart c failure process_attempt delay =
    report c "runtime.cargo.process.restart_scheduled" info none (
      ("fromProcessAttempt", number process_attempt)
      ∷ ("toProcessAttempt", number (saturating_add u64_max process_attempt 1))
      ∷ ("reason", text (restart_reason failure))
      ∷ ("delayMs", number (duration_ms delay))
      ∷ [])
