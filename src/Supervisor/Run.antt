-- ===== src/Supervisor/Run.antt =====
-- The restart loop of `supervise_with_reporter_and_environment` in src/supervisor.rs. One `Attempt`
-- holds what the supervisor observes from one start of the customer to the next; where the list
-- ends, the supervisor still runs.
pub mod Exits
pub mod Restarts
pub mod Quiet
pub mod Starts
pub mod Groups
pub mod Reporter
use liskov_runtime_cargo.Prelude.{
  ℕ, ◌+◌, Bool, true, false, Option, none, some, List, [], ◌∷◌, ◌++◌, Bytes, leb, ◌==◌,
  if◌then◌else◌, saturating_add, String, u32_max, u64_max,
}
use liskov_runtime_cargo.Prelude.Result.{Result, ok, err}
use liskov_runtime_cargo.Prelude.Json.{Json, boolean, number, text}
use liskov_runtime_cargo.Supervisor.Policy.{
  EffectivePolicy, restart_delay, initial_health_jitter, stability_reset, duration_ms,
}
use liskov_runtime_cargo.Supervisor.Effects.{
  started, succeeded, failed, info, Report, Attrs, Effect, started_task, spawned, cleaned,
  SupervisorExit, code, signal, ExitStatus, exited, terminated, FailureReason, exit_nonzero,
  signal_unexpected, sigkill, Config, report, begin_child, end_child, Counters, counts,
  report_attempt_failure, report_final_failure, schedule_restart,
}
use liskov_runtime_cargo.Supervisor.Watch.{
  Poll, new_watch, still_running, finished, abandoned, report_access, watch,
}

-- What the supervisor observes around one start: `pending_signal` before it, whether the process
-- starts, the rounds of its watch, the clock, the cleanup of its group after it ended, and a
-- signal that interrupts the sleep before the next start.
pub record Attempt : Type 0 where
  pub access : List Report
  pub pending_signal : Option ℕ
  pub starts : Bool
  pub watched_from : ℕ
  pub polls : List Poll
  pub uptime : ℕ
  pub cleanup : Bool
  pub readings : Attrs
  pub decided_at : ℕ
  pub sleep_signal : Option ℕ

-- `status.signal().unwrap_or(SIGKILL)`.
abbrev pub signal_of : Option ℕ → ℕ
signal_of none = sigkill
signal_of (some s) = s

-- The exit that hands on a status exactly.
abbrev pub exit_of : ExitStatus → SupervisorExit
exit_of (exited c) = code c
exit_of (terminated s) = signal (signal_of s)

pub data Verdict : Type 0 where
  still_supervising : Verdict
  exiting : SupervisorExit → Verdict
  restarting : Counters → Verdict

unfoldable pub next_counters : Counters → ℕ → Counters
next_counters n uptime = record {
  process_attempt = saturating_add u64_max n.process_attempt 1;
  restart_count = saturating_add u64_max n.restart_count 1;
  consecutive_failures =
      if leb stability_reset uptime then 1 else saturating_add u32_max n.consecutive_failures 1;
}

-- The report of a process that ended after a forwarded signal.
unfoldable pub report_forwarded_end : Config → Counters → Attempt → ExitStatus → List Effect
report_forwarded_end c n a (exited exit_code) =
    report c "runtime.cargo.process.exited" (if exit_code == 0 then succeeded else failed) none (
      counts n
      ++ (("exitCode", number exit_code)
          ∷ ("uptimeMs", number (duration_ms a.uptime))
          ∷ ("final", boolean true)
          ∷ ("cleanupComplete", boolean true)
          ∷ a.readings))
report_forwarded_end c n a (terminated s) = report c "runtime.cargo.process.signaled" info none (
    counts n
    ++ (("signal", number (signal_of s))
        ∷ ("signalSource", text "supervisor_forwarded")
        ∷ ("uptimeMs", number (duration_ms a.uptime))
        ∷ ("final", boolean true)
        ∷ ("cleanupComplete", boolean true)
        ∷ a.readings))

-- The report of a customer that exited with code 0.
unfoldable pub report_success : Config → Counters → Attempt → List Effect
report_success c n a = report c "runtime.cargo.process.exited" succeeded none (
    counts n
    ++ (("exitCode", number 0)
        ∷ ("uptimeMs", number (duration_ms a.uptime))
        ∷ ("final", boolean true)
        ∷ ("cleanupComplete", boolean true)
        ∷ a.readings))

-- `for task in detached_fact_tasks.drain(..)`.
unfoldable pub start_tasks : List String → List Effect
start_tasks [] = []
start_tasks (name ∷ names) = started_task name ∷ start_tasks names

module _ (sha256 : Bytes → Bytes) (policy : EffectivePolicy) (c : Config) where
  -- A failed process: restarted after the delay, unless a signal comes, or given up.
  unfoldable pub after_failure :
      Counters → Attempt → FailureReason → SupervisorExit → List Effect × Verdict
  after_failure n a failure exit =
      elim (restart_delay sha256 policy n.process_attempt n.restart_count n.consecutive_failures
        a.uptime c.runtime_instance_id a.decided_at) [
          | ok delay ↦ (
            report_attempt_failure c failure n a.uptime true false a.readings
                ++ schedule_restart c failure n.process_attempt delay,
            elim a.sleep_signal [
              | none ↦ restarting (next_counters n a.uptime)
              | some s ↦ exiting (signal s)
            ],
          )
          | err disposition ↦
              (report_final_failure c failure disposition n a.uptime true, exiting exit)
        ]

  -- What follows a status, once the group is gone and no signal was forwarded.
  unfoldable pub after_status : Counters → Attempt → ExitStatus → List Effect × Verdict
  after_status n a (exited exit_code) =
      if exit_code == 0
      then (report_success c n a, exiting (code exit_code))
      else after_failure n a (exit_nonzero exit_code) (code exit_code)
  after_status n a (terminated s) =
      after_failure n a (signal_unexpected (signal_of s)) (signal (signal_of s))

  unfoldable pub after_end : Counters → Attempt → Bool → ExitStatus → List Effect × Verdict
  after_end n a forwarded status =
      if a.cleanup
      then (if forwarded
          then (report_forwarded_end c n a status, exiting (exit_of status))
          else after_status n a status)
      else (
        report c "runtime.fatal.cargo.supervisor" failed (some "cleanup_failed")
            (counts n ++ ("cleanupComplete", boolean false) ∷ []),
        exiting (code 70),
      )

  -- The process was started: its watch, and what follows it.
  unfoldable pub supervise_child : Counters → Attempt → List Effect × Verdict
  supervise_child n a =
      let jitter = initial_health_jitter sha256 c.runtime_instance_id n.process_attempt in
      let (watched, outcome) = watch c n (new_watch (a.watched_from + jitter)) a.polls in
      let begin = report c "runtime.cargo.process.started" started none (counts n) in
      elim outcome [
        | still_running ↦ (begin ++ watched, still_supervising)
        | abandoned exit ↦ (begin ++ watched, exiting exit)
        | finished forwarded status ↦
            let (ended, verdict) = after_end n a forwarded status in
            (begin ++ (watched ++ (cleaned a.cleanup ∷ (end_child c ++ ended))), verdict)
      ]

  unfoldable pub run_attempt : List String → Counters → Attempt → List Effect × Verdict
  run_attempt tasks n a = elim a.pending_signal [
    | some s ↦ (report_access c a.access, exiting (signal s))
    | none ↦
        let (supervised, verdict) = supervise_child n a in
        if a.starts
        then (
          report_access c a.access
              ++ (start_tasks tasks ++ (begin_child c ++ (spawned ∷ supervised))),
          verdict,
        )
        else (
          report_access c a.access
              ++ (start_tasks tasks
                  ++ (begin_child c
                      ++ (end_child c
                          ++ report c "runtime.fatal.cargo.process" failed
                              (some "process_start_failed")
                              (counts n ++ ("runtimeContactVersion", text "0.12.2") ∷ [])))),
          exiting (code 126),
        )
  ]

  -- The loop, from given counters, with the workers that still wait: they are drained at the
  -- first start. `none`: the supervisor still runs.
  unfoldable pub supervise_from :
      List String → Counters → List Attempt → List Effect × Option SupervisorExit
  supervise_from tasks n [] = ([], none)
  supervise_from tasks n (a ∷ rest) =
      let (effects, verdict) = run_attempt tasks n a in
      elim verdict [
        | still_supervising ↦ (effects, none)
        | exiting exit ↦ (effects, some exit)
        | restarting m ↦ let (later, exit) = supervise_from [] m rest in (effects ++ later, exit)
      ]
