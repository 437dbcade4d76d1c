-- ===== src/Supervisor/Run/Reporter.antt =====
-- Reporting never changes what the restart loop of src/supervisor.rs does.
use liskov_runtime_cargo.Prelude.{
  ◌+◌, ◌≡◌, refl, sym, ◌∙◌, Bool, true, false, none, some, List, [], ◌∷◌, ◌++◌, inl, inr, String,
  Bytes, arith, Bool-cases, Option-cases, ◌==◌,
}
use liskov_runtime_cargo.Prelude.Json.{boolean}
use liskov_runtime_cargo.Prelude.Result.{Result-cases}
use liskov_runtime_cargo.Supervisor.Policy.{EffectivePolicy, initial_health_jitter}
use liskov_runtime_cargo.Supervisor.Effects.{
  Effect, spawned, cleaned, Config, Counters, counts, ExitStatus, exited, terminated, started,
  report, report_final_failure, schedule_restart, FailureReason, exit_nonzero, signal_unexpected,
  SupervisorExit, code, signal, failed,
}
use liskov_runtime_cargo.Supervisor.Watch.{
  report_access, watch, new_watch, Outcome, still_running, finished, abandoned,
}
use liskov_runtime_cargo.Supervisor.Watch.Silent.{
  acts, acts_both, acts_cons, Alike, acts-report, acts-begin_child, acts-end_child,
  acts-report_access, acts-report_attempt_failure, watch-Alike,
}
use liskov_runtime_cargo.Supervisor.Run.{
  Attempt, signal_of, start_tasks, after_failure, after_status, after_end, supervise_child,
  run_attempt, supervise_from, report_success, report_forwarded_end,
}
use liskov_runtime_cargo.Supervisor.Run.Exits.{outcome_of, Verdict-cases}
use liskov_runtime_cargo.Supervisor.Run.Starts.{run_attempt_started}
use liskov_runtime_cargo.Supervisor.Run.Restarts.{delay_of}

module _ (c : Config) where
  acts-report_forwarded_end :
      (n : Counters) (a : Attempt) (status : ExitStatus)
      → acts (report_forwarded_end c n a status) ≡ []
  unfolding report_forwarded_end
  acts-report_forwarded_end n a (exited k) = acts-report c _ _ _ _
  acts-report_forwarded_end n a (terminated s) = acts-report c _ _ _ _

module _ (sha256 : Bytes → Bytes) (policy : EffectivePolicy) (c : Config) (reporting : Bool) where
  -- The same supervisor with or without a reporter.
  abbrev d : Config
  d = record c { has_reporter = reporting }

  after_failure-Alike :
      (n : Counters) (a : Attempt) (failure : FailureReason) (exit : SupervisorExit)
      → Alike
          (after_failure sha256 policy c n a failure exit)
          (after_failure sha256 policy d n a failure exit)
  unfolding after_failure report_final_failure schedule_restart
  after_failure-Alike n a failure exit = elim (Result-cases (delay_of sha256 policy c n a)) [
    | inl (t, granted) ↦
        rw (granted, after_failure)
          (
            acts_both _ _ _ _
                (acts-report_attempt_failure c failure n a.uptime true false a.readings
                  ∙ sym (acts-report_attempt_failure d failure n a.uptime true false a.readings))
                (acts-report c _ _ _ _ ∙ sym (acts-report d _ _ _ _)),
            refl,
          )
    | inr (r, refused) ↦
        rw (refused, after_failure) (acts-report c _ _ _ _ ∙ sym (acts-report d _ _ _ _), refl)
  ]

  after_status-Alike :
      (n : Counters) (a : Attempt) (status : ExitStatus)
      → Alike (after_status sha256 policy c n a status) (after_status sha256 policy d n a status)
  unfolding after_status report_success
  after_status-Alike n a (exited k) = elim (Bool-cases (k == 0)) [
    | inl success ↦ rw success (acts-report c _ _ _ _ ∙ sym (acts-report d _ _ _ _), refl)
    | inr failure ↦ rw failure (after_failure-Alike n a (exit_nonzero k) (code k))
  ]
  after_status-Alike n a (terminated s) =
      after_failure-Alike n a (signal_unexpected (signal_of s)) (signal (signal_of s))

  after_end-Alike :
      (n : Counters) (a : Attempt) (forwarded : Bool) (status : ExitStatus)
      → Alike
          (after_end sha256 policy c n a forwarded status)
          (after_end sha256 policy d n a forwarded status)
  unfolding after_end
  after_end-Alike n a forwarded status = (
    ground (
      arith,
      after_status-Alike n a status,
      acts-report_forwarded_end c n a status,
      acts-report_forwarded_end d n a status,
      acts-report c "runtime.fatal.cargo.supervisor" failed (some "cleanup_failed")
          (counts n ++ ("cleanupComplete", boolean false) ∷ []),
      acts-report d "runtime.fatal.cargo.supervisor" failed (some "cleanup_failed")
          (counts n ++ ("cleanupComplete", boolean false) ∷ []),
    ),
    ground (arith, after_status-Alike n a status),
  )

  abbrev begun : Config → Counters → List Effect
  begun e n = report e "runtime.cargo.process.started" started none (counts n)

  begun_alike : (n : Counters) → acts (begun c n) ≡ acts (begun d n)
  begun_alike n = acts-report c _ _ _ _ ∙ sym (acts-report d _ _ _ _)

  watched-Alike :
      (n : Counters) (a : Attempt)
      → let w =
          new_watch (
            a.watched_from
            + initial_health_jitter sha256 c.runtime_instance_id n.process_attempt) in
        Alike (watch c n w a.polls) (watch d n w a.polls)
  watched-Alike n a = watch-Alike c d n _ a.polls

  supervise_child-Alike :
      (n : Counters) (a : Attempt) (o : Outcome)
      → outcome_of sha256 policy c n a ≡ o
      → Alike (supervise_child sha256 policy c n a) (supervise_child sha256 policy d n a)
  unfolding supervise_child
  supervise_child-Alike n a still_running e =
      rw (e, sym (watched-Alike n a).1 ∙ e, supervise_child)
        (acts_both _ _ _ _ (begun_alike n) (watched-Alike n a).0, refl)
  supervise_child-Alike n a (abandoned exit) e =
      rw (e, sym (watched-Alike n a).1 ∙ e, supervise_child)
        (acts_both _ _ _ _ (begun_alike n) (watched-Alike n a).0, refl)
  supervise_child-Alike n a (finished forwarded status) e =
      rw (e, sym (watched-Alike n a).1 ∙ e, supervise_child)
        (
          acts_both _ _ _ _ (begun_alike n) (
              acts_both _ _ _ _ (watched-Alike n a).0 (
                acts_cons (cleaned a.cleanup) _ _ (
                  acts_both _ _ _ _ (acts-end_child c ∙ sym (acts-end_child d))
                    (after_end-Alike n a forwarded status).0))),
          (after_end-Alike n a forwarded status).1,
        )

  child-Alike :
      (n : Counters) (a : Attempt)
      → Alike (supervise_child sha256 policy c n a) (supervise_child sha256 policy d n a)
  child-Alike n a = supervise_child-Alike n a (outcome_of sha256 policy c n a) refl

  access_alike : (a : Attempt) → acts (report_access c a.access) ≡ acts (report_access d a.access)
  access_alike a = acts-report_access c a.access ∙ sym (acts-report_access d a.access)

  run_attempt-Alike :
      (tasks : List String) (n : Counters) (a : Attempt)
      → Alike (run_attempt sha256 policy c tasks n a) (run_attempt sha256 policy d tasks n a)
  unfolding run_attempt
  run_attempt-Alike tasks n a = elim (Option-cases a.pending_signal) [
    | inr (s, came) ↦ rw (came, run_attempt) (access_alike a, refl)
    | inl calm ↦ elim (Bool-cases a.starts) [
      | inl began ↦
          rw
            (
              run_attempt_started sha256 policy c tasks n a calm began,
              run_attempt_started sha256 policy d tasks n a calm began,
            )
            (
              acts_both _ _ _ _ (access_alike a) (
                  acts_both (start_tasks tasks) _ _ _ refl (
                    acts_both _ _ _ _ (acts-begin_child c ∙ sym (acts-begin_child d))
                      (acts_cons spawned _ _ (child-Alike n a).0))),
              (child-Alike n a).1,
            )
      | inr not ↦
          rw (calm, not, run_attempt)
            (
              acts_both _ _ _ _ (access_alike a) (
                  acts_both (start_tasks tasks) _ _ _ refl (
                    acts_both _ _ _ _ (acts-begin_child c ∙ sym (acts-begin_child d)) (
                      acts_both _ _ _ _ (acts-end_child c ∙ sym (acts-end_child d))
                        (acts-report c _ _ _ _ ∙ sym (acts-report d _ _ _ _))))),
              refl,
            )
    ]
  ]

  -- With or without a reporter, the loop does the same to processes and workers, in the same order,
  -- and returns the same exit.
  pub supervise_from-Alike :
      (tasks : List String) (n : Counters) (l : List Attempt)
      → Alike (supervise_from sha256 policy c tasks n l) (supervise_from sha256 policy d tasks n l)
  unfolding supervise_from
  supervise_from-Alike tasks n [] = (refl, refl)
  supervise_from-Alike tasks n (a ∷ l) =
      let (same, ends) = run_attempt-Alike tasks n a in
      elim (Verdict-cases (run_attempt sha256 policy c tasks n a).1) [
        | inl still ↦ rw (still, sym ends ∙ still, supervise_from) (same, refl)
        | inr (inl (x, leaves)) ↦ rw (leaves, sym ends ∙ leaves, supervise_from) (same, refl)
        | inr (inr (m, again)) ↦
            rw (again, sym ends ∙ again, supervise_from)
              (
                acts_both _ _ _ _ same (supervise_from-Alike [] m l).0,
                (supervise_from-Alike [] m l).1,
              )
      ]
