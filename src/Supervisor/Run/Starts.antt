-- ===== src/Supervisor/Run/Starts.antt =====
-- What the restart loop of src/supervisor.rs starts: the waiting workers, then the customer, within
-- the limit of the policy.
use liskov_runtime_cargo.Prelude.{
  ℕ, suc, ◌-◌, ◌≤◌, ◌≡◌, refl, ap, ap₂, ◌∙◌, ◌⊎◌, inl, inr, true, false, none, List, [], ◌∷◌, ◌++◌,
  append-nil, append_assoc, String, Bytes, arith, replicate, u8_max, u64_max, saturating_add,
  Bool-cases, Option-cases,
}
use liskov_runtime_cargo.Supervisor.Policy.{
  EffectivePolicy, SupervisionMode, never, on_failure, attempts, schedule_end, RestartLimit,
  limit_reached,
}
use liskov_runtime_cargo.Supervisor.Policy.Limits.{restart_delay-IsGranted}
use liskov_runtime_cargo.Supervisor.Effects.{
  Effect, reported, started_task, spawned, Config, Counters, begin_child,
}
use liskov_runtime_cargo.Supervisor.Watch.{report_access}
use liskov_runtime_cargo.Supervisor.Watch.Quiet.{
  Quiet, Quiet-append, report-Quiet, begin_child-Quiet, end_child-Quiet, report_access-Quiet,
}
use liskov_runtime_cargo.Supervisor.Run.{
  Attempt, restarting, start_tasks, next_counters, supervise_child, run_attempt, supervise_from,
}
use liskov_runtime_cargo.Supervisor.Run.Quiet.{supervise_child-Quiet}
use liskov_runtime_cargo.Supervisor.Run.Exits.{outcome_of, Verdict-cases}
use liskov_runtime_cargo.Supervisor.Run.Restarts.{run_attempt-Restarts}

-- The starts among effects, in order.
unfoldable pub starts : List Effect → List Effect
starts [] = []
starts (started_task name ∷ es) = started_task name ∷ starts es
starts (spawned ∷ es) = spawned ∷ starts es
starts (_ ∷ es) = starts es

pub starts-append : (es fs : List Effect) → starts (es ++ fs) ≡ starts es ++ starts fs
unfolding starts
starts-append [] fs = refl
starts-append (started_task name ∷ es) fs = ap (λ l. started_task name ∷ l) (starts-append es fs)
starts-append (spawned ∷ es) fs = ap (λ l. spawned ∷ l) (starts-append es fs)
starts-append (_ ∷ es) fs = starts-append es fs

pub starts-eq-nil : (es : List Effect) → Quiet es → starts es ≡ []
unfolding starts
starts-eq-nil [] q = refl
starts-eq-nil (started_task name ∷ es) q = absurd q.0
starts-eq-nil (spawned ∷ es) q = absurd q.0
starts-eq-nil (reported r ∷ es) q = starts-eq-nil es q.1
starts-eq-nil (_ ∷ es) q = starts-eq-nil es q.1

starts-start_tasks : (names : List String) → starts (start_tasks names) ≡ start_tasks names
unfolding starts start_tasks
starts-start_tasks [] = refl
starts-start_tasks (name ∷ names) = ap (λ l. started_task name ∷ l) (starts-start_tasks names)

-- The starts of an attempt, between effects that start nothing.
starts-before :
    (before begin rest : List Effect) (tasks : List String)
    → Quiet before
    → Quiet begin
    → starts (before ++ (start_tasks tasks ++ (begin ++ rest))) ≡ start_tasks tasks ++ starts rest
starts-before before begin rest tasks q r = rw (
  starts-append before (start_tasks tasks ++ (begin ++ rest)),
  starts-eq-nil before q,
  starts-append (start_tasks tasks) (begin ++ rest),
  starts-start_tasks tasks,
  starts-append begin rest,
  starts-eq-nil begin r,
)

-- How many starts of the customer the mode allows after `count` restarts.
abbrev pub Within : SupervisionMode → ℕ → ℕ → Type 0
Within never count k = k ≤ 1
Within (on_failure (attempts m)) count k = k ≤ suc (m - count)
Within (on_failure schedule_end) count k = Unit

-- The limit of a policy is a u8.
abbrev pub FitsByte : SupervisionMode → Type 0
FitsByte never = Unit
FitsByte (on_failure (attempts m)) = m ≤ u8_max
FitsByte (on_failure schedule_end) = Unit

module _ (sha256 : Bytes → Bytes) (policy : EffectivePolicy) (c : Config) where
  pub run_attempt_started :
      (tasks : List String) (n : Counters) (a : Attempt)
      → a.pending_signal ≡ none
      → a.starts ≡ true
      → run_attempt sha256 policy c tasks n a ≡ (
        report_access c a.access
            ++ (start_tasks tasks
                ++ (begin_child c ++ (spawned ∷ (supervise_child sha256 policy c n a).0))),
        (supervise_child sha256 policy c n a).1,
      )
  unfolding run_attempt
  run_attempt_started tasks n a calm starts = ground arith

  starts_of_started :
      (tasks : List String) (n : Counters) (a : Attempt)
      → a.pending_signal ≡ none
      → a.starts ≡ true
      → starts (run_attempt sha256 policy c tasks n a).0 ≡ start_tasks tasks ++ spawned ∷ []
  unfolding starts
  starts_of_started tasks n a calm began = rw (run_attempt_started tasks n a calm began) (
      starts-before (report_access c a.access) (begin_child c) _ tasks
        (report_access-Quiet c a.access) (begin_child-Quiet c)
      ∙ ap (λ l. start_tasks tasks ++ (spawned ∷ l))
          (starts-eq-nil (supervise_child sha256 policy c n a).0
            (supervise_child-Quiet sha256 policy c n a (outcome_of sha256 policy c n a) refl)))

  -- An attempt starts nothing, or the waiting workers, or the workers and then the customer.
  starts-run_attempt :
      (tasks : List String) (n : Counters) (a : Attempt)
      → (k : ℕ) × (k ≤ 1)
        × ((starts (run_attempt sha256 policy c tasks n a).0 ≡ [])
            ⊎ (starts (run_attempt sha256 policy c tasks n a).0
                ≡ start_tasks tasks ++ replicate k spawned))
  unfolding run_attempt starts
  starts-run_attempt tasks n a = elim (Option-cases a.pending_signal) [
    | inr (s, came) ↦ (
      0,
      omega arith,
      inl (rw (came, run_attempt) (starts-eq-nil _ (report_access-Quiet c a.access))),
    )
    | inl calm ↦ elim (Bool-cases a.starts) [
      | inl began ↦ (1, omega arith, inr (starts_of_started tasks n a calm began))
      | inr not ↦ (
        0,
        omega arith,
        inr (
            rw (calm, not, run_attempt)
              (starts-before (report_access c a.access) (begin_child c) _ tasks
                  (report_access-Quiet c a.access) (begin_child-Quiet c)
                ∙ ap (λ l. start_tasks tasks ++ l)
                    (starts-eq-nil _
                      (Quiet-append _ _ (end_child-Quiet c) (report-Quiet c _ _ _ _))))),
      )
    ]
  ]

  Within-le-one : (mode : SupervisionMode) (count k : ℕ) → k ≤ 1 → Within mode count k
  Within-le-one never count k h = h
  Within-le-one (on_failure (attempts m)) count k h = omega arith
  Within-le-one (on_failure schedule_end) count k h = tt

  Within-suc :
      (mode : SupervisionMode) (limit : RestartLimit) (count next k : ℕ)
      → mode ≡ on_failure limit
      → limit_reached limit count ≡ false
      → FitsByte mode
      → next ≡ saturating_add u64_max count 1
      → Within mode next k
      → Within mode count (suc k)
  Within-suc never limit count next k same open_limit fits e h = cc
  Within-suc (on_failure (attempts m)) (attempts l) count next k same open_limit fits e h =
      ground arith
  Within-suc (on_failure (attempts m)) schedule_end count next k same open_limit fits e h = cc
  Within-suc (on_failure schedule_end) limit count next k same open_limit fits e h = tt

  restart-Within :
      (tasks : List String) (n m : Counters) (a : Attempt) (k : ℕ)
      → FitsByte policy.mode
      → (run_attempt sha256 policy c tasks n a).1 ≡ restarting m
      → Within policy.mode m.restart_count k
      → Within policy.mode n.restart_count (suc k)
  unfolding next_counters
  restart-Within tasks n m a k fits again h =
      let r = run_attempt-Restarts sha256 policy c tasks n m a again in
      let (limit, _, mode, open_limit, _, _, _, _) =
        restart_delay-IsGranted sha256 n.process_attempt n.restart_count n.consecutive_failures
          a.uptime c.runtime_instance_id a.decided_at policy r.granted in
      Within-suc policy.mode limit n.restart_count m.restart_count k mode open_limit fits
        (ap (λ (v : Counters). v.restart_count) r.counted) h

  -- Over its whole run the loop starts nothing, or each waiting worker once, before any customer
  -- process, and then only the customer: at most once under the mode never, and under a limit of
  -- attempts at most once more than the restarts that are left.
  pub starts-supervise_from :
      (tasks : List String) (n : Counters) (l : List Attempt)
      → FitsByte policy.mode
      → (k : ℕ) × Within policy.mode n.restart_count k
        × ((starts (supervise_from sha256 policy c tasks n l).0 ≡ [])
            ⊎ (starts (supervise_from sha256 policy c tasks n l).0
                ≡ start_tasks tasks ++ replicate k spawned))
  unfolding supervise_from starts start_tasks
  starts-supervise_from tasks n [] fits = (0, Within-le-one policy.mode _ 0 (omega arith), inl refl)
  starts-supervise_from tasks n (a ∷ l) fits =
      let (k, small, now) = starts-run_attempt tasks n a in
      let within = Within-le-one policy.mode n.restart_count k small in
      elim (Verdict-cases (run_attempt sha256 policy c tasks n a).1) [
        | inl still ↦ (k, within, rw (still, supervise_from) now)
        | inr (inl (x, leaves)) ↦ (k, within, rw (leaves, supervise_from) now)
        | inr (inr (m, again)) ↦
            let r = run_attempt-Restarts sha256 policy c tasks n m a again in
            let first = starts_of_started tasks n a r.no_signal_before r.started in
            let (j, later_within, later) = starts-supervise_from [] m l fits in
            elim later [
              | inl nothing ↦ (
                1,
                Within-le-one policy.mode n.restart_count 1 (omega arith),
                inr (
                    rw (again, supervise_from)
                      (starts-append (run_attempt sha256 policy c tasks n a).0 _
                        ∙ ap₂ (λ x y. x ++ y) first nothing
                        ∙ append-nil _)),
              )
              | inr more ↦ (
                suc j,
                restart-Within tasks n m a j fits again later_within,
                inr (
                    rw (again, supervise_from)
                      (starts-append (run_attempt sha256 policy c tasks n a).0 _
                        ∙ ap₂ (λ x y. x ++ y) first more
                        ∙ append_assoc (start_tasks tasks) (spawned ∷ []) (replicate j spawned))),
              )
            ]
      ]
