-- ===== src/Supervisor/Run/Quiet.antt =====
-- What follows a start in the restart loop of src/supervisor.rs starts nothing further.
use liskov_runtime_cargo.Prelude.{ℕ, ◌≡◌, inl, inr, Bool, true, false, Bytes, ◌==◌, Bool-cases}
use liskov_runtime_cargo.Prelude.Result.{Result-cases}
use liskov_runtime_cargo.Supervisor.Policy.{EffectivePolicy}
use liskov_runtime_cargo.Supervisor.Effects.{
  Attrs, code, Config, Counters, ExitStatus, exited, terminated, report_attempt_failure,
  report_final_failure, schedule_restart, FailureReason, exit_nonzero, signal_unexpected,
  SupervisorExit, signal,
}
use liskov_runtime_cargo.Supervisor.Watch.{Outcome, still_running, finished, abandoned}
use liskov_runtime_cargo.Supervisor.Watch.Quiet.{
  Quiet, Quiet-append, report-Quiet, end_child-Quiet, watch-Quiet,
}
use liskov_runtime_cargo.Supervisor.Run.{
  Attempt, signal_of, after_failure, after_status, after_end, report_success, report_forwarded_end,
  supervise_child,
}
use liskov_runtime_cargo.Supervisor.Run.Exits.{outcome_of}
use liskov_runtime_cargo.Supervisor.Run.Restarts.{delay_of}

report_attempt_failure-Quiet :
    (c : Config) (failure : FailureReason) (n : Counters) (uptime : ℕ) (cleanup final : Bool)
    (readings : Attrs)
    → Quiet (report_attempt_failure c failure n uptime cleanup final readings)
unfolding report_attempt_failure
report_attempt_failure-Quiet c (exit_nonzero k) n uptime cleanup final readings =
    report-Quiet c _ _ _ _
report_attempt_failure-Quiet c (signal_unexpected s) n uptime cleanup final readings =
    report-Quiet c _ _ _ _

report_forwarded_end-Quiet :
    (c : Config) (n : Counters) (a : Attempt) (status : ExitStatus)
    → Quiet (report_forwarded_end c n a status)
unfolding report_forwarded_end
report_forwarded_end-Quiet c n a (exited k) = report-Quiet c _ _ _ _
report_forwarded_end-Quiet c n a (terminated s) = report-Quiet c _ _ _ _

module _ (sha256 : Bytes → Bytes) (policy : EffectivePolicy) (c : Config) where
  after_failure-Quiet :
      (n : Counters) (a : Attempt) (failure : FailureReason) (exit : SupervisorExit)
      → Quiet (after_failure sha256 policy c n a failure exit).0
  unfolding after_failure report_final_failure schedule_restart
  after_failure-Quiet n a failure exit = elim (Result-cases (delay_of sha256 policy c n a)) [
    | inl (d, granted) ↦
        rw (granted, after_failure)
          (Quiet-append (report_attempt_failure c failure n a.uptime true false a.readings) _
            (report_attempt_failure-Quiet c failure n a.uptime true false a.readings)
            (report-Quiet c _ _ _ _))
    | inr (r, refused) ↦ rw (refused, after_failure) (report-Quiet c _ _ _ _)
  ]

  after_status-Quiet :
      (n : Counters) (a : Attempt) (status : ExitStatus)
      → Quiet (after_status sha256 policy c n a status).0
  unfolding after_status report_success
  after_status-Quiet n a (exited k) = elim (Bool-cases (k == 0)) [
    | inl success ↦ rw success (report-Quiet c _ _ _ _)
    | inr failure ↦ rw failure (after_failure-Quiet n a (exit_nonzero k) (code k))
  ]
  after_status-Quiet n a (terminated s) =
      after_failure-Quiet n a (signal_unexpected (signal_of s)) (signal (signal_of s))

  pub after_end-Quiet :
      (n : Counters) (a : Attempt) (forwarded : Bool) (status : ExitStatus)
      → Quiet (after_end sha256 policy c n a forwarded status).0
  unfolding after_end report_forwarded_end after_status report_success after_failure
  after_end-Quiet n a forwarded status = elim (Bool-cases a.cleanup) [
    | inr dirty ↦ rw (dirty, after_end) (report-Quiet c _ _ _ _)
    | inl clean ↦ elim (Bool-cases forwarded) [
      | inl was ↦ rw (clean, was, after_end) (report_forwarded_end-Quiet c n a status)
      | inr not ↦ rw (clean, not, after_end) (after_status-Quiet n a status)
    ]
  ]

  pub supervise_child-Quiet :
      (n : Counters) (a : Attempt) (o : Outcome)
      → outcome_of sha256 policy c n a ≡ o
      → Quiet (supervise_child sha256 policy c n a).0
  unfolding supervise_child
  supervise_child-Quiet n a still_running e =
      rw (e, supervise_child)
        (Quiet-append _ _ (report-Quiet c _ _ _ _) (watch-Quiet c n _ a.polls))
  supervise_child-Quiet n a (abandoned exit) e =
      rw (e, supervise_child)
        (Quiet-append _ _ (report-Quiet c _ _ _ _) (watch-Quiet c n _ a.polls))
  supervise_child-Quiet n a (finished forwarded status) e =
      rw (e, supervise_child)
        (Quiet-append _ _ (report-Quiet c _ _ _ _) (
          Quiet-append _ _ (watch-Quiet c n _ a.polls)
            (tt, Quiet-append _ _ (end_child-Quiet c) (after_end-Quiet n a forwarded status))))
