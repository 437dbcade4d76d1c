-- ===== src/Supervisor/Watch/Silent.antt =====
-- Reporting never changes what the watch of one process does (the inner loop in
-- src/supervisor.rs).
use liskov_runtime_cargo.Prelude.{
  ℕ, ◌≡◌, refl, sym, ap, ap₂, ◌∙◌, Bool, Option, none, List, [], ◌∷◌, ◌++◌, inl, inr, String, arith,
  Option-cases,
}
use liskov_runtime_cargo.Supervisor.Effects.{
  Effect, reported, began_child, ended_child, cleaned, Config, Counters, counts, begin_child,
  end_child, report, DiagnosticStatus, Attrs, Report, report_health_beat, report_attempt_failure,
  info, FailureReason, exit_nonzero, signal_unexpected,
}
use liskov_runtime_cargo.Supervisor.Watch.{
  Poll, Watch, report_access, watch, try_wait, beat_health, fail_supervisor, settle, poll_round,
  force_cleanup, forward_signal,
}
use liskov_runtime_cargo.Supervisor.Watch.Rounds.{
  Round-cases, watch_onward, watch_done, watch_quit, poll_round_failed, poll_round_went,
}

-- What is done to processes and workers, without what is only told to the reporter.
unfoldable pub acts : List Effect → List Effect
acts [] = []
acts (reported r ∷ es) = acts es
acts (began_child ∷ es) = acts es
acts (ended_child ∷ es) = acts es
acts (e ∷ es) = e ∷ acts es

pub acts-append : (es fs : List Effect) → acts (es ++ fs) ≡ acts es ++ acts fs
unfolding acts
acts-append [] fs = refl
acts-append (reported r ∷ es) fs = acts-append es fs
acts-append (began_child ∷ es) fs = acts-append es fs
acts-append (ended_child ∷ es) fs = acts-append es fs
acts-append (e ∷ es) fs = ap (λ l. e ∷ l) (acts-append es fs)

-- Two runs of a part that do the same and end alike.
abbrev pub Alike {ℓ} : {A : Type ℓ} → List Effect × A → List Effect × A → Type ℓ
Alike p q = (acts p.0 ≡ acts q.0) × (p.1 ≡ q.1)

pub acts_cons :
    (e : Effect) (es fs : List Effect) → acts es ≡ acts fs → acts (e ∷ es) ≡ acts (e ∷ fs)
unfolding acts
acts_cons (reported r) es fs h = h
acts_cons began_child es fs h = h
acts_cons ended_child es fs h = h
acts_cons e es fs h = ap (λ l. e ∷ l) h

pub acts_both :
    (es es' fs fs' : List Effect)
    → acts es ≡ acts es'
    → acts fs ≡ acts fs'
    → acts (es ++ fs) ≡ acts (es' ++ fs')
acts_both es es' fs fs' h k =
    acts-append es fs ∙ ap₂ (λ x y. x ++ y) h k ∙ sym (acts-append es' fs')

module _ (c : Config) where
  pub acts-report :
      (stage : String) (status : DiagnosticStatus) (problem : Option String) (attrs : Attrs)
      → acts (report c stage status problem attrs) ≡ []
  unfolding acts report
  acts-report stage status problem attrs = ground arith

  pub acts-begin_child : acts (begin_child c) ≡ []
  unfolding acts begin_child
  acts-begin_child = ground arith

  pub acts-end_child : acts (end_child c) ≡ []
  unfolding acts end_child
  acts-end_child = ground arith

  pub acts-report_access : (rs : List Report) → acts (report_access c rs) ≡ []
  unfolding acts report_access
  acts-report_access [] = refl
  acts-report_access (r ∷ rs) =
      acts-append (report c r.stage r.status r.code r.attrs) (report_access c rs)
      ∙ rw (acts-report r.stage r.status r.code r.attrs, acts-report_access rs)

  acts-fail_supervisor :
      (n : Counters) (problem : String) (cleanup : Bool)
      → acts (fail_supervisor c n problem cleanup) ≡ cleaned cleanup ∷ []
  unfolding acts fail_supervisor
  acts-fail_supervisor n problem cleanup =
      ap (λ l. cleaned cleanup ∷ l)
        (acts-append (end_child c) _ ∙ rw (acts-end_child, acts-report _ _ _ _))

  pub acts-report_attempt_failure :
      (failure : FailureReason) (n : Counters) (uptime : ℕ) (cleanup final : Bool)
      (readings : Attrs)
      → acts (report_attempt_failure c failure n uptime cleanup final readings) ≡ []
  unfolding report_attempt_failure
  acts-report_attempt_failure (exit_nonzero k) n uptime cleanup final readings = acts-report _ _ _ _
  acts-report_attempt_failure (signal_unexpected s) n uptime cleanup final readings =
      acts-report _ _ _ _

  acts-try_wait_beat : (n : Counters) (w : Watch) (p : Poll) → acts (beat_health c n w p).0 ≡ []
  unfolding acts beat_health report_health_beat
  acts-try_wait_beat n w p =
      ground (arith, acts-report "runtime.health" info none (counts n ++ p.readings))

module _ (c d : Config) where
  beat-Alike :
      (n : Counters) (w : Watch) (p : Poll) → Alike (beat_health c n w p) (beat_health d n w p)
  unfolding beat_health
  beat-Alike n w p = (acts-try_wait_beat c n w p ∙ sym (acts-try_wait_beat d n w p), ground arith)

  try_wait-Alike :
      (n : Counters) (w : Watch) (p : Poll) → Alike (try_wait c n w p) (try_wait d n w p)
  unfolding try_wait
  try_wait-Alike n w p = ground (
    arith,
    beat-Alike n w p,
    acts-fail_supervisor c n "wait_failed" p.cleanup,
    acts-fail_supervisor d n "wait_failed" p.cleanup,
  )

  settle-Alike : (n : Counters) (w : Watch) (p : Poll) → Alike (settle c n w p) (settle d n w p)
  unfolding settle
  settle-Alike n w p =
      let v = (force_cleanup w p.grace_checked_at).1 in
      (
        acts_both _ _ (try_wait c n v p).0 (try_wait d n v p).0 refl (try_wait-Alike n v p).0,
        (try_wait-Alike n v p).1,
      )

  poll_round-Alike :
      (n : Counters) (w : Watch) (p : Poll) → Alike (poll_round c n w p) (poll_round d n w p)
  poll_round-Alike n w p = elim (Option-cases (forward_signal w p)) [
    | inl lost ↦
        rw (poll_round_failed c n w p lost, poll_round_failed d n w p lost)
          (
            acts_both _ _ _ _ (acts-report_access c p.access ∙ sym (acts-report_access d p.access))
                (acts-fail_supervisor c n _ p.cleanup ∙ sym (acts-fail_supervisor d n _ p.cleanup)),
            refl,
          )
    | inr ((es, v), went) ↦
        rw (poll_round_went c n w p es v went, poll_round_went d n w p es v went)
          (
            acts_both _ _ _ _ (acts-report_access c p.access ∙ sym (acts-report_access d p.access))
                (acts_both es es _ _ refl (settle-Alike n v p).0),
            (settle-Alike n v p).1,
          )
  ]

  pub watch-Alike :
      (n : Counters) (w : Watch) (ps : List Poll) → Alike (watch c n w ps) (watch d n w ps)
  unfolding watch
  watch-Alike n w [] = (refl, refl)
  watch-Alike n w (p ∷ ps) =
      let (same_acts, same_round) = poll_round-Alike n w p in
      elim (Round-cases (poll_round c n w p).1) [
        | inl (v, on) ↦
            rw (watch_onward c n w p ps v on, watch_onward d n w p ps v (sym same_round ∙ on))
              (acts_both _ _ _ _ same_acts (watch-Alike n v ps).0, (watch-Alike n v ps).1)
        | inr (inl (v, status, over)) ↦
            rw
              (
                watch_done c n w p ps v status over,
                watch_done d n w p ps v status (sym same_round ∙ over),
              )
              (same_acts, refl)
        | inr (inr (exit, left)) ↦
            rw (watch_quit c n w p ps exit left, watch_quit d n w p ps exit (sym same_round ∙ left))
              (same_acts, refl)
      ]
