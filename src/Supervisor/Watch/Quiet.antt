-- ===== src/Supervisor/Watch/Quiet.antt =====
-- What the watch of one process never does: it starts nothing (the inner loop in
-- src/supervisor.rs).
use liskov_runtime_cargo.Prelude.{
  ℕ, ◌≡◌, Bool, Option, none, some, List, [], ◌∷◌, ◌++◌, String, arith, subst, inl, inr, All,
  All-append, Option-cases,
}
use liskov_runtime_cargo.Supervisor.Effects.{
  Config, Counters, Effect, started_task, spawned, DiagnosticStatus, info, counts, Report, Attrs,
  report, begin_child, end_child, report_health_beat,
}
use liskov_runtime_cargo.Supervisor.Watch.{
  Poll, Watch, fail_supervisor, report_access, beat_health, poll_round, settle, try_wait,
  forward_signal, force_cleanup, watch,
}
use liskov_runtime_cargo.Supervisor.Watch.Rounds.{
  Round-cases, watch_onward, watch_done, watch_quit, poll_round_failed, poll_round_went,
}

-- An effect that starts no process and no worker.
abbrev pub StartsNothing : Effect → Type 0
StartsNothing (started_task name) = ⊥
StartsNothing spawned = ⊥
StartsNothing _ = Unit

-- Effects that start nothing.
abbrev pub Quiet : List Effect → Type 0
Quiet = All StartsNothing

pub Quiet-append : (es fs : List Effect) → Quiet es → Quiet fs → Quiet (es ++ fs)
Quiet-append = All-append StartsNothing

module _ (c : Config) where
  pub report-Quiet :
      (stage : String) (status : DiagnosticStatus) (problem : Option String) (attrs : Attrs)
      → Quiet (report c stage status problem attrs)
  unfolding report
  report-Quiet stage status problem attrs = ground arith

  pub begin_child-Quiet : Quiet (begin_child c)
  unfolding begin_child
  begin_child-Quiet = ground arith

  pub end_child-Quiet : Quiet (end_child c)
  unfolding end_child
  end_child-Quiet = ground arith

  pub report_access-Quiet : (rs : List Report) → Quiet (report_access c rs)
  unfolding report_access
  report_access-Quiet [] = tt
  report_access-Quiet (r ∷ rs) =
      Quiet-append (report c r.stage r.status r.code r.attrs) (report_access c rs)
        (report-Quiet r.stage r.status r.code r.attrs) (report_access-Quiet rs)

  fail_supervisor-Quiet :
      (n : Counters) (problem : String) (cleanup : Bool)
      → Quiet (fail_supervisor c n problem cleanup)
  unfolding fail_supervisor
  fail_supervisor-Quiet n problem cleanup =
      (tt, Quiet-append (end_child c) _ end_child-Quiet (report-Quiet _ _ _ _))

  try_wait-Quiet : (n : Counters) (w : Watch) (p : Poll) → Quiet (try_wait c n w p).0
  unfolding try_wait beat_health report_health_beat
  try_wait-Quiet n w p = ground (
    arith,
    fail_supervisor-Quiet n "wait_failed" p.cleanup,
    report-Quiet "runtime.health" info none (counts n ++ p.readings),
  )

  force_cleanup-Quiet : (w : Watch) (now : ℕ) → Quiet (force_cleanup w now).0
  unfolding force_cleanup
  force_cleanup-Quiet w now = ground arith

  forward_signal-Quiet :
      (w v : Watch) (p : Poll) (es : List Effect) → forward_signal w p ≡ some (es, v) → Quiet es
  unfolding forward_signal
  forward_signal-Quiet w v p es e = subst QuietFst e (quiet_fst w p)
    where
      QuietFst : Option (List Effect × Watch) → Type 0
      QuietFst none = Unit
      QuietFst (some (fs, u)) = Quiet fs

      quiet_fst : (w : Watch) (p : Poll) → QuietFst (forward_signal w p)
      quiet_fst w p = ground arith

  settle-Quiet : (n : Counters) (w : Watch) (p : Poll) → Quiet (settle c n w p).0
  unfolding settle
  settle-Quiet n w p =
      Quiet-append (force_cleanup w p.grace_checked_at).0 _
        (force_cleanup-Quiet w p.grace_checked_at)
        (try_wait-Quiet n (force_cleanup w p.grace_checked_at).1 p)

  poll_round-Quiet : (n : Counters) (w : Watch) (p : Poll) → Quiet (poll_round c n w p).0
  poll_round-Quiet n w p = elim (Option-cases (forward_signal w p)) [
    | inl failed ↦ rw (poll_round_failed c n w p failed) (
        Quiet-append (report_access c p.access) _ (report_access-Quiet p.access)
          (fail_supervisor-Quiet n "signal_forward_failed" p.cleanup))
    | inr ((es, v), went) ↦ rw (poll_round_went c n w p es v went) (
        Quiet-append (report_access c p.access) _ (report_access-Quiet p.access) (
          Quiet-append es (settle c n v p).0 (forward_signal-Quiet w v p es went)
            (settle-Quiet n v p)))
  ]

  -- The watch starts no process and no worker.
  pub watch-Quiet : (n : Counters) (w : Watch) (ps : List Poll) → Quiet (watch c n w ps).0
  unfolding watch
  watch-Quiet n w [] = tt
  watch-Quiet n w (p ∷ ps) = elim (Round-cases (poll_round c n w p).1) [
    | inl (v, on) ↦ rw (watch_onward c n w p ps v on) (
        Quiet-append (poll_round c n w p).0 (watch c n v ps).0 (poll_round-Quiet n w p)
          (watch-Quiet n v ps))
    | inr (inl (v, status, over)) ↦
        rw (watch_done c n w p ps v status over) (poll_round-Quiet n w p)
    | inr (inr (exit, left)) ↦ rw (watch_quit c n w p ps exit left) (poll_round-Quiet n w p)
  ]
