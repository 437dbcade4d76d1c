-- ===== src/Supervisor/Run/Restarts.antt =====
-- When the restart loop of src/supervisor.rs starts the customer again.
use liskov_runtime_cargo.Prelude.{
  ℕ, ◌≡◌, ◌≢◌, refl, true, false, none, List, Bytes, String, arith, inl, inr, ◌==◌, Bool-cases,
  Option-cases,
}
use liskov_runtime_cargo.Prelude.Result.{Result, ok, Result-cases}
use liskov_runtime_cargo.Supervisor.Policy.{EffectivePolicy, Disposition, restart_delay}
use liskov_runtime_cargo.Supervisor.Effects.{
  SupervisorExit, code, signal, ExitStatus, exited, terminated, FailureReason, exit_nonzero,
  signal_unexpected, Config, Counters,
}
use liskov_runtime_cargo.Supervisor.Watch.{Outcome, still_running, finished, abandoned}
use liskov_runtime_cargo.Supervisor.Run.{
  Attempt, signal_of, restarting, next_counters, after_failure, after_status, after_end,
  supervise_child, run_attempt,
}
use liskov_runtime_cargo.Supervisor.Run.Exits.{outcome_of}

module _ (sha256 : Bytes → Bytes) (policy : EffectivePolicy) (c : Config) where
  abbrev pub delay_of : Counters → Attempt → Result Disposition ℕ
  delay_of n a =
      restart_delay sha256 policy n.process_attempt n.restart_count n.consecutive_failures a.uptime
        c.runtime_instance_id a.decided_at

  -- What is known of an attempt that a restart follows.
  pub record Restarts (n : Counters) (a : Attempt) (m : Counters) : Type 0 where
    pub no_signal_before : a.pending_signal ≡ none
    pub started : a.starts ≡ true
    pub status : ExitStatus
    -- It ended by itself: no signal was forwarded to it.
    pub finished_alone : outcome_of sha256 policy c n a ≡ finished false status
    pub failed : status ≢ exited 0
    pub group_gone : a.cleanup ≡ true
    pub no_signal_in_delay : a.sleep_signal ≡ none
    pub delay : ℕ
    pub granted : delay_of n a ≡ ok delay
    pub counted : m ≡ next_counters n a.uptime

  after_failure_restart :
      (n m : Counters) (a : Attempt) (failure : FailureReason) (exit : SupervisorExit)
      → (after_failure sha256 policy c n a failure exit).1 ≡ restarting m
      → (d : ℕ) × (delay_of n a ≡ ok d) × (a.sleep_signal ≡ none) × (m ≡ next_counters n a.uptime)
  unfolding after_failure
  after_failure_restart n m a failure exit e = elim (Result-cases (delay_of n a)) [
    | inr (r, refused) ↦ absurd (ground arith)
    | inl (d, granted) ↦ (d, granted, ground arith, ground arith)
  ]

  after_status_restart :
      (n m : Counters) (a : Attempt) (status : ExitStatus)
      → (after_status sha256 policy c n a status).1 ≡ restarting m
      → (d : ℕ) × (delay_of n a ≡ ok d)
        × (a.sleep_signal ≡ none)
        × (m ≡ next_counters n a.uptime)
        × (status ≢ exited 0)
  unfolding after_status
  after_status_restart n m a (exited k) e = elim (Bool-cases (k == 0)) [
    | inl success ↦ absurd (ground arith)
    | inr failure ↦
        let (d, granted, calm, counted) =
          after_failure_restart n m a (exit_nonzero k) (code k) (rw failure at e) in
        (d, granted, calm, counted, ground arith)
  ]
  after_status_restart n m a (terminated s) e =
      let (d, granted, calm, counted) =
        after_failure_restart n m a (signal_unexpected (signal_of s)) (signal (signal_of s)) e in
      (d, granted, calm, counted, λ same. cc)

  supervise_child_restart :
      (n m : Counters) (a : Attempt) (o : Outcome)
      → a.pending_signal ≡ none
      → a.starts ≡ true
      → outcome_of sha256 policy c n a ≡ o
      → (supervise_child sha256 policy c n a).1 ≡ restarting m
      → Restarts n a m
  unfolding supervise_child after_end
  supervise_child_restart n m a still_running before starts o e = absurd (ground arith)
  supervise_child_restart n m a (abandoned exit) before starts o e = absurd (ground arith)
  supervise_child_restart n m a (finished true status) before starts o e = absurd (ground arith)
  supervise_child_restart n m a (finished false status) before starts o e =
      let gone : a.cleanup ≡ true = ground arith in
      let (d, granted, calm, counted, bad) = after_status_restart n m a status (ground arith) in
      record {
        no_signal_before = before;
        started = starts;
        status = status;
        finished_alone = o;
        failed = bad;
        group_gone = gone;
        no_signal_in_delay = calm;
        delay = d;
        granted = granted;
        counted = counted;
      }

  -- The customer is started again only if it was started, ended by itself (no signal was
  -- forwarded) and not with exit code 0, its group is gone, the policy grants a delay, and no
  -- signal comes before the end of the delay; the counters are then the next ones.
  pub run_attempt-Restarts :
      (tasks : List String) (n m : Counters) (a : Attempt)
      → (run_attempt sha256 policy c tasks n a).1 ≡ restarting m
      → Restarts n a m
  unfolding run_attempt
  run_attempt-Restarts tasks n m a e = elim (Option-cases a.pending_signal) [
    | inr (s, came) ↦ absurd (ground arith)
    | inl calm ↦ elim (Bool-cases a.starts) [
      | inr not ↦ absurd (ground arith)
      | inl starts ↦
          supervise_child_restart n m a (outcome_of sha256 policy c n a) calm starts refl
            (ground arith)
    ]
  ]
