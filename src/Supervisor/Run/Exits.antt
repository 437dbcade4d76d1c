-- ===== src/Supervisor/Run/Exits.antt =====
-- Which exit the restart loop of src/supervisor.rs returns.
use liskov_runtime_cargo.Prelude.{
  ℕ, ◌+◌, ◌≡◌, refl, Bool, true, false, some, List, [], ◌∷◌, Bytes, arith, ◌⊎◌, inl, inr,
  Bool-cases, Option-cases, String, ◌==◌, Memᴰ, ap, ◌∙◌,
}
use liskov_runtime_cargo.Prelude.Result.{Result, Result-cases}
use liskov_runtime_cargo.Supervisor.Policy.{
  EffectivePolicy, restart_delay, initial_health_jitter, Disposition,
}
use liskov_runtime_cargo.Supervisor.Effects.{
  SupervisorExit, code, signal, ExitStatus, exited, terminated, Config, Counters, exit_nonzero,
  signal_unexpected, FailureReason,
}
use liskov_runtime_cargo.Supervisor.Watch.{
  new_watch, Outcome, still_running, finished, abandoned, watch,
}
use liskov_runtime_cargo.Supervisor.Watch.Rounds.{watch-abandoned}
use liskov_runtime_cargo.Supervisor.Run.{
  Attempt, signal_of, exit_of, Verdict, still_supervising, exiting, restarting, after_failure,
  after_status, after_end, supervise_child, run_attempt, supervise_from,
}

pub Verdict-cases :
    (v : Verdict)
    → (v ≡ still_supervising)
      ⊎ (((x : SupervisorExit) × (v ≡ exiting x)) ⊎ ((m : Counters) × (v ≡ restarting m)))
Verdict-cases still_supervising = inl refl
Verdict-cases (exiting x) = inr (inl (x, refl))
Verdict-cases (restarting m) = inr (inr (m, refl))

module _ (sha256 : Bytes → Bytes) (policy : EffectivePolicy) (c : Config) where
  -- How the process of an attempt ended.
  abbrev pub outcome_of : Counters → Attempt → Outcome
  outcome_of n a =
      (watch c n
        (new_watch
          (a.watched_from + initial_health_jitter sha256 c.runtime_instance_id n.process_attempt))
        a.polls).1

  -- Why the loop returns an exit at an attempt.
  pub data Explains (n : Counters) (a : Attempt) : SupervisorExit → Type 0 where
    -- A signal came before the start.
    before_start : {s : ℕ} → a.pending_signal ≡ some s → Explains n a (signal s)
    -- The command could not be started.
    not_started : a.starts ≡ false → Explains n a (code 126)
    -- The supervisor could not forward a signal or wait.
    watch_failed : outcome_of n a ≡ abandoned (code 70) → Explains n a (code 70)
    -- The process ended, and its group could not be removed.
    not_cleaned :
        {forwarded : Bool} {status : ExitStatus}
        → outcome_of n a ≡ finished forwarded status
        → a.cleanup ≡ false
        → Explains n a (code 70)
    -- A failed process was to be started again, and a signal came during the delay.
    in_delay :
        {status : ExitStatus} {s : ℕ}
        → outcome_of n a ≡ finished false status
        → a.cleanup ≡ true
        → a.sleep_signal ≡ some s
        → Explains n a (signal s)
    -- The process ended, its group is gone, and its status is handed on exactly.
    ended :
        {forwarded : Bool} {status : ExitStatus} {x : SupervisorExit}
        → outcome_of n a ≡ finished forwarded status
        → a.cleanup ≡ true
        → x ≡ exit_of status
        → Explains n a x

  after_failure_exit :
      (n : Counters) (a : Attempt) (failure : FailureReason) (exit x : SupervisorExit)
      → (after_failure sha256 policy c n a failure exit).1 ≡ exiting x
      → (x ≡ exit) ⊎ ((s : ℕ) × (a.sleep_signal ≡ some s) × (x ≡ signal s))
  unfolding after_failure
  after_failure_exit n a failure exit x e = elim (Result-cases delay) [
    | inl (d, granted) ↦ elim (Option-cases a.sleep_signal) [
      | inl calm ↦ absurd (ground arith)
      | inr (s, woken) ↦ inr (s, woken, ground arith)
    ]
    | inr (r, refused) ↦ inl (ground arith)
  ]
    where
      delay : Result Disposition ℕ
      delay =
          restart_delay sha256 policy n.process_attempt n.restart_count n.consecutive_failures
            a.uptime c.runtime_instance_id a.decided_at

  after_status_exit :
      (n : Counters) (a : Attempt) (status : ExitStatus) (x : SupervisorExit)
      → (after_status sha256 policy c n a status).1 ≡ exiting x
      → (x ≡ exit_of status) ⊎ ((s : ℕ) × (a.sleep_signal ≡ some s) × (x ≡ signal s))
  unfolding after_status
  after_status_exit n a (exited k) x e = elim (Bool-cases (k == 0)) [
    | inl zero_code ↦ inl (ground arith)
    | inr other ↦ after_failure_exit n a (exit_nonzero k) (code k) x (rw other at e)
  ]
  after_status_exit n a (terminated s) x e =
      after_failure_exit n a (signal_unexpected (signal_of s)) (signal (signal_of s)) x e

  after_end-Explains :
      (n : Counters) (a : Attempt) (forwarded : Bool) (status : ExitStatus) (x : SupervisorExit)
      → outcome_of n a ≡ finished forwarded status
      → (after_end sha256 policy c n a forwarded status).1 ≡ exiting x
      → Explains n a x
  unfolding after_end
  after_end-Explains n a true status x o e = elim (Bool-cases a.cleanup) [
    | inr dirty ↦ let same : x ≡ code 70 = ground arith in rw same (not_cleaned o dirty)
    | inl clean ↦ ended o clean (ground arith)
  ]
  after_end-Explains n a false status x o e = elim (Bool-cases a.cleanup) [
    | inr dirty ↦ let same : x ≡ code 70 = ground arith in rw same (not_cleaned o dirty)
    | inl clean ↦
        let e' : (after_status sha256 policy c n a status).1 ≡ exiting x = ground arith in
        elim (after_status_exit n a status x e') [
          | inl same ↦ ended o clean same
          | inr (s, woken, same) ↦ rw same (in_delay o clean woken)
        ]
  ]

  supervise_child-Explains :
      (n : Counters) (a : Attempt) (o : Outcome) (x : SupervisorExit)
      → outcome_of n a ≡ o
      → (supervise_child sha256 policy c n a).1 ≡ exiting x
      → Explains n a x
  unfolding supervise_child
  supervise_child-Explains n a still_running x o e = ground arith
  supervise_child-Explains n a (abandoned exit) x o e =
      let same : exit ≡ x = ground arith in
      let seventy : x ≡ code 70 = watch-abandoned c n _ a.polls x (o ∙ ap abandoned same) in
      rw seventy (watch_failed (o ∙ ap abandoned (same ∙ seventy)))
  supervise_child-Explains n a (finished forwarded status) x o e =
      after_end-Explains n a forwarded status x o (ground arith)

  run_attempt-Explains :
      (tasks : List String) (n : Counters) (a : Attempt) (x : SupervisorExit)
      → (run_attempt sha256 policy c tasks n a).1 ≡ exiting x
      → Explains n a x
  unfolding run_attempt
  run_attempt-Explains tasks n a x e = elim (Option-cases a.pending_signal) [
    | inr (s, came) ↦ let same : x ≡ signal s = ground arith in rw same (before_start came)
    | inl calm ↦ elim (Bool-cases a.starts) [
      | inr not ↦ let same : x ≡ code 126 = ground arith in rw same (not_started not)
      | inl starts ↦ supervise_child-Explains n a (outcome_of n a) x refl (ground arith)
    ]
  ]

  -- Whenever the loop returns, the exit comes from one of its attempts, in one of six ways: a
  -- signal before a start; 126 where the command could not be started; 70 where a signal could not
  -- be forwarded or the process not waited for; 70 where its group could not be removed; a signal
  -- during the delay before a restart; or the process's own status, exactly, with its group gone.
  pub supervise_from-exit :
      (tasks : List String) (n : Counters) (attempts : List Attempt) (x : SupervisorExit)
      → (supervise_from sha256 policy c tasks n attempts).1 ≡ some x
      → (m : Counters) × (a : Attempt) × Memᴰ a attempts × Explains m a x
  unfolding supervise_from
  supervise_from-exit tasks n [] x e = cc
  supervise_from-exit tasks n (a ∷ rest) x e =
      elim (Verdict-cases (run_attempt sha256 policy c tasks n a).1) [
        | inl still ↦ absurd (ground arith)
        | inr (inl (exit, leaves)) ↦
            let same : exit ≡ x = ground arith in
            (n, a, Memᴰ.head refl, run_attempt-Explains tasks n a x (leaves ∙ ap exiting same))
        | inr (inr (m, again)) ↦
            let (k, b, found, why) = supervise_from-exit [] m rest x (ground arith) in
            (k, b, Memᴰ.tail found, why)
      ]
