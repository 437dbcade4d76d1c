-- ===== src/Supervisor/Tests.antt =====
-- Runs of the supervisor of src/supervisor.rs: a customer that fails once, is started again, and is
-- stopped by a signal that it handles.
use liskov_runtime_cargo.Prelude.{
  ℕ, ◌/◌, ◌≤◌, ◌≡◌, refl, ◌⊎◌, ◌↔◌, true, false, Option, none, some, List, [], ◌∷◌, ◌++◌, Memᴰ,
  String, Bytes, replicate, from_be_bytes, to_be_bytes,
}
use liskov_runtime_cargo.Prelude.Result.{err}
use liskov_runtime_cargo.Prelude.Json.{Json, object, field, end, text, number}
use liskov_runtime_cargo.Supervisor.Policy.{
  EffectivePolicy, SupervisionPolicy, on_failure, attempts, seconds, millis, restart_delay,
  deterministic_backoff, jittered_ms, ceiling_ms, initial_health_jitter, attempt_limit_reached,
}
use liskov_runtime_cargo.Supervisor.Policy.Limits.{Refuses, restart_delay-eq-err_iff}
use liskov_runtime_cargo.Supervisor.Policy.Backoff.{deterministic_backoff_bounds}
use liskov_runtime_cargo.Supervisor.Effects.{
  Config, Counters, exited, terminated, signal, report, begin_child, end_child,
  report_attempt_failure, schedule_restart, spawned,
}
use liskov_runtime_cargo.Supervisor.Watch.{
  Poll, ended, running, report_access, forward_signal, force_cleanup, beat_health, try_wait, settle,
  poll_round, watch,
}
use liskov_runtime_cargo.Supervisor.Watch.Silent.{Alike}
use liskov_runtime_cargo.Supervisor.Run.{
  Attempt, next_counters, report_forwarded_end, start_tasks, after_failure, after_status, after_end,
  supervise_child, run_attempt, supervise_from,
}
use liskov_runtime_cargo.Supervisor.Run.Exits.{Explains, supervise_from-exit}
use liskov_runtime_cargo.Supervisor.Run.Restarts.{Restarts, run_attempt-Restarts}
use liskov_runtime_cargo.Supervisor.Run.Groups.{Alone, supervise_from-Alone}
use liskov_runtime_cargo.Supervisor.Run.Reporter.{supervise_from-Alike}
use liskov_runtime_cargo.Supervisor.Run.Starts.{starts}
use liskov_runtime_cargo.Supervisor.Start.{Startup, no_counters, supervise}
use liskov_runtime_cargo.Supervisor.Start.Spawns.{Allows, mode_in_effect, starts-supervise}

abbrev toy_sha256 : Bytes → Bytes
toy_sha256 message = replicate 32 7

abbrev config : Config
config = record { has_reporter = true; runtime_instance_id = 49 ∷ 50 ∷ [] }

abbrev policy : EffectivePolicy
policy = record { mode = on_failure (attempts 2); schedule_deadline = some (seconds 3_600) }

abbrev decision : Option Json
decision = some (
    object (
      field "mode" (text "on_failure") (
        field "restartLimit"
          (object (field "kind" (text "attempts") (field "maxRestarts" (number 2) end)))
          (field "serverTimeMs" (number 1_000) (field "scheduleEndMs" (number 3_601_000) end)))))

abbrev startup : Startup
startup = record {
  command_is_empty = false;
  has_authority = true;
  supervision = decision;
  bootstrap_elapsed = 0;
  now = 0;
  normalized = [];
  tasks = "hardware" ∷ [];
}

abbrev still_runs : Poll
still_runs = record {
  access = [];
  signal = none;
  forwarded = true;
  forwarded_at = seconds 10;
  grace_checked_at = seconds 10;
  wait = running;
  cleanup = true;
  health_checked_at = seconds 10;
  readings = [];
  beaten_at = seconds 10;
}

abbrev fails : List Poll
fails = still_runs ∷ record still_runs { wait = ended (exited 3) } ∷ []

abbrev is_stopped : List Poll
is_stopped =
    still_runs
    ∷ record still_runs { signal = some 15 }
    ∷ record still_runs { wait = ended (terminated (some 15)) }
    ∷ []

abbrev failing : Attempt
failing = record {
  access = [];
  pending_signal = none;
  starts = true;
  watched_from = seconds 1;
  polls = fails;
  uptime = seconds 9;
  cleanup = true;
  readings = [];
  decided_at = seconds 10;
  sleep_signal = none;
}

abbrev stopped : Attempt
stopped = record failing { polls = is_stopped }

abbrev tasks : List String
tasks = "hardware" ∷ []

starts-supervise_example :
    (k : ℕ) × Allows (mode_in_effect startup) k
    × ((starts (supervise toy_sha256 config startup (failing ∷ stopped ∷ [])).0 ≡ [])
        ⊎ (starts (supervise toy_sha256 config startup (failing ∷ stopped ∷ [])).0
            ≡ start_tasks startup.tasks ++ replicate k spawned))
starts-supervise_example = starts-supervise toy_sha256 config startup (failing ∷ stopped ∷ [])

supervise_from-exit_example :
    (m : Counters) × (a : Attempt) × Memᴰ a (failing ∷ stopped ∷ [])
    × Explains toy_sha256 policy config m a (signal 15)
unfolding supervise_from run_attempt supervise_child after_end after_status after_failure
    restart_delay deterministic_backoff jittered_ms initial_health_jitter watch poll_round settle
    try_wait forward_signal force_cleanup beat_health report report_access begin_child end_child
    start_tasks next_counters report_forwarded_end report_attempt_failure schedule_restart
    from_be_bytes to_be_bytes
supervise_from-exit_example =
    supervise_from-exit toy_sha256 policy config tasks no_counters (failing ∷ stopped ∷ [])
      (signal 15) refl

supervise_from-Alone_example :
    Alone false
      (supervise_from toy_sha256 policy config tasks no_counters (failing ∷ stopped ∷ [])).0
supervise_from-Alone_example =
    supervise_from-Alone toy_sha256 policy config tasks no_counters (failing ∷ stopped ∷ [])

abbrev once : Counters
once = record { process_attempt = 1; restart_count = 1; consecutive_failures = 1 }

run_attempt-Restarts_example : Restarts toy_sha256 policy config no_counters failing once
unfolding run_attempt supervise_child after_end after_status after_failure restart_delay
    deterministic_backoff jittered_ms initial_health_jitter watch poll_round settle try_wait
    forward_signal force_cleanup beat_health report report_access begin_child end_child start_tasks
    next_counters report_attempt_failure schedule_restart from_be_bytes to_be_bytes
run_attempt-Restarts_example =
    run_attempt-Restarts toy_sha256 policy config tasks no_counters once failing refl

supervise_from-Alike_example :
    Alike (supervise_from toy_sha256 policy config tasks no_counters (failing ∷ stopped ∷ [])) (
      supervise_from toy_sha256 policy
        (record config { has_reporter = false })
        tasks
        no_counters
        (failing ∷ stopped ∷ []))
supervise_from-Alike_example =
    supervise_from-Alike toy_sha256 policy config false tasks no_counters (failing ∷ stopped ∷ [])

restart_delay-eq-err_iff_example :
    (restart_delay toy_sha256 policy 2 2 1 (seconds 9) [] (seconds 10) ≡ err attempt_limit_reached)
    ↔ Refuses toy_sha256 2 2 1
        (seconds 9)
        []
        (seconds 10)
        attempt_limit_reached
        policy.mode
        policy.schedule_deadline
restart_delay-eq-err_iff_example =
    restart_delay-eq-err_iff toy_sha256 2 2 1 (seconds 9) [] (seconds 10) policy
      attempt_limit_reached

abbrev granted_delay : ℕ
granted_delay = millis 853

abbrev accepted : SupervisionPolicy
accepted = record {
  mode = on_failure (attempts 2);
  server_time_ms = 1_000;
  schedule_end_ms = 3_601_000;
}

deterministic_backoff_bounds_example :
    (millis (ceiling_ms 3 / 2) ≤ deterministic_backoff toy_sha256 [] 4 3)
    × (deterministic_backoff toy_sha256 [] 4 3 ≤ millis (ceiling_ms 3))
    × (1_000 ≤ ceiling_ms 3)
    × (ceiling_ms 3 ≤ 60_000)
deterministic_backoff_bounds_example = deterministic_backoff_bounds toy_sha256 [] 4 3
