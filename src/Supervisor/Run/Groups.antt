-- ===== src/Supervisor/Run/Groups.antt =====
-- No two customer processes run at once in the restart loop of src/supervisor.rs.
use liskov_runtime_cargo.Prelude.{
  ◌+◌, ◌≡◌, refl, ◌∙◌, Bool, true, false, none, List, [], ◌∷◌, ◌++◌, inl, inr, String, Bytes,
  Bool-cases, Option-cases, append_assoc, subst, sym,
}
use liskov_runtime_cargo.Supervisor.Policy.{EffectivePolicy, initial_health_jitter}
use liskov_runtime_cargo.Supervisor.Effects.{
  Effect, reported, started_task, spawned, cleaned, Config, Counters, counts, begin_child,
  end_child, ExitStatus, started, report,
}
use liskov_runtime_cargo.Supervisor.Watch.{report_access, watch, new_watch, finished}
use liskov_runtime_cargo.Supervisor.Watch.Quiet.{
  Quiet, Quiet-append, report-Quiet, begin_child-Quiet, end_child-Quiet, report_access-Quiet,
}
use liskov_runtime_cargo.Supervisor.Run.{
  Attempt, restarting, start_tasks, after_end, supervise_child, run_attempt, supervise_from,
}
use liskov_runtime_cargo.Supervisor.Run.Exits.{outcome_of, Verdict-cases}
use liskov_runtime_cargo.Supervisor.Run.Quiet.{supervise_child-Quiet, after_end-Quiet}
use liskov_runtime_cargo.Supervisor.Run.Starts.{run_attempt_started}
use liskov_runtime_cargo.Supervisor.Run.Restarts.{run_attempt-Restarts}

-- Whether a group may be alive after effects.
unfoldable pub live_after : Bool → List Effect → Bool
live_after live [] = live
live_after live (spawned ∷ es) = live_after true es
live_after live (cleaned true ∷ es) = live_after false es
live_after live (_ ∷ es) = live_after live es

-- A customer is started only where no earlier group may be alive: none was started before, or it
-- was removed since.
abbrev pub Alone : Bool → List Effect → Type 0
Alone live [] = Unit
Alone live (spawned ∷ es) = (live ≡ false) × Alone true es
Alone live (cleaned true ∷ es) = Alone false es
Alone live (_ ∷ es) = Alone live es

Alone-append :
    (live : Bool) (es fs : List Effect)
    → Alone live es
    → Alone (live_after live es) fs
    → Alone live (es ++ fs)
unfolding live_after
Alone-append live [] fs h k = k
Alone-append live (spawned ∷ es) fs h k = (h.0, Alone-append true es fs h.1 k)
Alone-append live (cleaned true ∷ es) fs h k = Alone-append false es fs h k
Alone-append live (cleaned false ∷ es) fs h k = Alone-append live es fs h k
Alone-append live (_ ∷ es) fs h k = Alone-append live es fs h k

Alone-Quiet : (live : Bool) (es : List Effect) → Quiet es → Alone live es
Alone-Quiet live [] q = tt
Alone-Quiet live (started_task name ∷ es) q = absurd q.0
Alone-Quiet live (spawned ∷ es) q = absurd q.0
Alone-Quiet live (cleaned true ∷ es) q = Alone-Quiet false es q.1
Alone-Quiet live (cleaned false ∷ es) q = Alone-Quiet live es q.1
Alone-Quiet live (reported r ∷ es) q = Alone-Quiet live es q.1
Alone-Quiet live (_ ∷ es) q = Alone-Quiet live es q.1

live_after-append :
    (live : Bool) (es fs : List Effect)
    → live_after live (es ++ fs) ≡ live_after (live_after live es) fs
unfolding live_after
live_after-append live [] fs = refl
live_after-append live (spawned ∷ es) fs = live_after-append true es fs
live_after-append live (cleaned true ∷ es) fs = live_after-append false es fs
live_after-append live (cleaned false ∷ es) fs = live_after-append live es fs
live_after-append live (_ ∷ es) fs = live_after-append live es fs

-- Effects that start nothing leave no group alive where none was.
live_after-Quiet : (es : List Effect) → Quiet es → live_after false es ≡ false
unfolding live_after
live_after-Quiet [] q = refl
live_after-Quiet (started_task name ∷ es) q = absurd q.0
live_after-Quiet (spawned ∷ es) q = absurd q.0
live_after-Quiet (cleaned true ∷ es) q = live_after-Quiet es q.1
live_after-Quiet (cleaned false ∷ es) q = live_after-Quiet es q.1
live_after-Quiet (reported r ∷ es) q = live_after-Quiet es q.1
live_after-Quiet (_ ∷ es) q = live_after-Quiet es q.1

-- Starting the workers is not starting a customer.
start_tasks-Alone :
    (names : List String) (live : Bool) (fs : List Effect)
    → Alone live fs
    → Alone live (start_tasks names ++ fs)
unfolding start_tasks
start_tasks-Alone [] live fs h = h
start_tasks-Alone (name ∷ names) live fs h = start_tasks-Alone names live fs h

live_after-start_tasks :
    (names : List String) (live : Bool) (fs : List Effect)
    → live_after live (start_tasks names ++ fs) ≡ live_after live fs
unfolding start_tasks live_after
live_after-start_tasks [] live fs = refl
live_after-start_tasks (name ∷ names) live fs = live_after-start_tasks names live fs

Alone-before : (es fs : List Effect) → Quiet es → Alone false fs → Alone false (es ++ fs)
Alone-before es fs q h =
    Alone-append false es fs (Alone-Quiet false es q) (rw (live_after-Quiet es q) h)

live_after-before :
    (es fs : List Effect) → Quiet es → live_after false (es ++ fs) ≡ live_after false fs
live_after-before es fs q = live_after-append false es fs ∙ rw (live_after-Quiet es q)

-- Whatever came before, after the removal of the group none is alive.
live_after-cleaned :
    (live : Bool) (es fs : List Effect)
    → Quiet fs
    → live_after live (es ++ (cleaned true ∷ fs)) ≡ false
unfolding live_after
live_after-cleaned live es fs q =
    live_after-append live es (cleaned true ∷ fs) ∙ live_after-Quiet fs q

module _ (sha256 : Bytes → Bytes) (policy : EffectivePolicy) (c : Config) where
  run_attempt-Alone :
      (tasks : List String) (n : Counters) (a : Attempt)
      → Alone false (run_attempt sha256 policy c tasks n a).0
  unfolding run_attempt
  run_attempt-Alone tasks n a = elim (Option-cases a.pending_signal) [
    | inr (s, came) ↦ rw (came, run_attempt) (Alone-Quiet false _ (report_access-Quiet c a.access))
    | inl calm ↦ elim (Bool-cases a.starts) [
      | inl began ↦ rw (run_attempt_started sha256 policy c tasks n a calm began) (
          Alone-before _ _ (report_access-Quiet c a.access) (
            start_tasks-Alone tasks false _ (
              Alone-before _ _ (begin_child-Quiet c) (
                refl,
                Alone-Quiet true _ (
                    supervise_child-Quiet sha256 policy c n a (outcome_of sha256 policy c n a)
                      refl),
              ))))
      | inr not ↦
          rw (calm, not, run_attempt)
            (Alone-before _ _ (report_access-Quiet c a.access) (
              start_tasks-Alone tasks false _ (
                Alone-before _ _ (begin_child-Quiet c) (
                  Alone-before _ _ (end_child-Quiet c)
                    (Alone-Quiet false _ (report-Quiet c _ _ _ _))))))
    ]
  ]

  supervise_child-gone :
      (n : Counters) (a : Attempt) (forwarded : Bool) (status : ExitStatus) (live : Bool)
      → outcome_of sha256 policy c n a ≡ finished forwarded status
      → a.cleanup ≡ true
      → live_after live (supervise_child sha256 policy c n a).0 ≡ false
  unfolding supervise_child
  supervise_child-gone n a forwarded status live over gone =
      rw (over, supervise_child)
        (rw
          (← append_assoc (report c "runtime.cargo.process.started" started none (counts n))
            (watch c n
              (new_watch (
                a.watched_from
                + initial_health_jitter sha256 c.runtime_instance_id n.process_attempt))
              a.polls).0
            (cleaned a.cleanup
              ∷ (end_child c ++ (after_end sha256 policy c n a forwarded status).0)))
          (subst
            (λ b.
              live_after live (
                (report c "runtime.cargo.process.started" started none (counts n)
                  ++ (watch c n
                      (new_watch (
                        a.watched_from
                        + initial_health_jitter sha256 c.runtime_instance_id n.process_attempt))
                      a.polls).0)
                ++ (cleaned b
                    ∷ (end_child c ++ (after_end sha256 policy c n a forwarded status).0)))
              ≡ false)
            (sym gone)
            (live_after-cleaned live _ _ (
              Quiet-append _ _ (end_child-Quiet c)
                (after_end-Quiet sha256 policy c n a forwarded status)))))

  run_attempt-gone :
      (tasks : List String) (n m : Counters) (a : Attempt)
      → (run_attempt sha256 policy c tasks n a).1 ≡ restarting m
      → live_after false (run_attempt sha256 policy c tasks n a).0 ≡ false
  unfolding live_after
  run_attempt-gone tasks n m a e =
      let r = run_attempt-Restarts sha256 policy c tasks n m a e in
      rw (run_attempt_started sha256 policy c tasks n a r.no_signal_before r.started) (
        live_after-before (report_access c a.access) _ (report_access-Quiet c a.access)
        ∙ live_after-start_tasks tasks false _
        ∙ live_after-before (begin_child c) _ (begin_child-Quiet c)
        ∙ supervise_child-gone n a false r.status true r.finished_alone r.group_gone)

  -- The loop starts a customer only when no earlier customer's group can still be alive.
  pub supervise_from-Alone :
      (tasks : List String) (n : Counters) (l : List Attempt)
      → Alone false (supervise_from sha256 policy c tasks n l).0
  unfolding supervise_from
  supervise_from-Alone tasks n [] = tt
  supervise_from-Alone tasks n (a ∷ l) =
      elim (Verdict-cases (run_attempt sha256 policy c tasks n a).1) [
        | inl still ↦ rw (still, supervise_from) (run_attempt-Alone tasks n a)
        | inr (inl (x, leaves)) ↦ rw (leaves, supervise_from) (run_attempt-Alone tasks n a)
        | inr (inr (m, again)) ↦
            rw (again, supervise_from)
              (Alone-append false (run_attempt sha256 policy c tasks n a).0 _
                (run_attempt-Alone tasks n a)
                (rw (run_attempt-gone tasks n m a again) (supervise_from-Alone [] m l)))
      ]
