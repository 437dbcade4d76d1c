-- ===== src/Supervisor/Watch/Rounds.antt =====
-- How the watch of one process ends (the inner loop in src/supervisor.rs).
use liskov_runtime_cargo.Prelude.{
  is_some, ◌≡◌, refl, Bool, none, some, List, [], ◌∷◌, ◌++◌, arith, ◌⊎◌, inl, inr, Memᴰ,
}
use liskov_runtime_cargo.Supervisor.Effects.{
  SupervisorExit, code, ExitStatus, Config, Counters, Effect,
}
use liskov_runtime_cargo.Supervisor.Watch.{
  ended, Poll, Watch, Round, onward, done, quit, finished, abandoned, poll_round, settle, try_wait,
  forward_signal, watch, report_access, fail_supervisor,
}

pub Round-cases :
    (r : Round)
    → ((w : Watch) × (r ≡ onward w))
      ⊎ (((w : Watch) × (s : ExitStatus) × (r ≡ done w s)) ⊎ ((x : SupervisorExit) × (r ≡ quit x)))
Round-cases (onward w) = inl (w, refl)
Round-cases (done w s) = inr (inl (w, s, refl))
Round-cases (quit x) = inr (inr (x, refl))

module _ (c : Config) (n : Counters) where
  pub poll_round_failed :
      (w : Watch) (p : Poll)
      → forward_signal w p ≡ none
      → poll_round c n w p ≡ (
        report_access c p.access ++ fail_supervisor c n "signal_forward_failed" p.cleanup,
        quit (code 70),
      )
  unfolding poll_round
  poll_round_failed w p e = rw (e, poll_round)

  pub poll_round_went :
      (w : Watch) (p : Poll) (es : List Effect) (v : Watch)
      → forward_signal w p ≡ some (es, v)
      → poll_round c n w p
        ≡ (report_access c p.access ++ (es ++ (settle c n v p).0), (settle c n v p).1)
  unfolding poll_round
  poll_round_went w p es v e = rw (e, poll_round)

  module _ (w : Watch) (p : Poll) (ps : List Poll) where
    pub watch_onward :
        (v : Watch)
        → (poll_round c n w p).1 ≡ onward v
        → watch c n w (p ∷ ps) ≡ ((poll_round c n w p).0 ++ (watch c n v ps).0, (watch c n v ps).1)
    unfolding watch
    watch_onward v e = rw (e, watch)

    pub watch_done :
        (v : Watch) (s : ExitStatus)
        → (poll_round c n w p).1 ≡ done v s
        → watch c n w (p ∷ ps) ≡ ((poll_round c n w p).0, finished (is_some v.forwarded_signal) s)
    unfolding watch
    watch_done v s e = rw (e, watch)

    pub watch_quit :
        (x : SupervisorExit)
        → (poll_round c n w p).1 ≡ quit x
        → watch c n w (p ∷ ps) ≡ ((poll_round c n w p).0, abandoned x)
    unfolding watch
    watch_quit x e = rw (e, watch)

  poll_round-quit :
      (w : Watch) (p : Poll) (x : SupervisorExit) → (poll_round c n w p).1 ≡ quit x → x ≡ code 70
  unfolding poll_round settle try_wait
  poll_round-quit w p x e = ground arith

  -- A status that the watch reports was observed by `try_wait`.
  poll_round-done :
      (w v : Watch) (p : Poll) (s : ExitStatus)
      → (poll_round c n w p).1 ≡ done v s
      → p.wait ≡ ended s
  unfolding poll_round settle try_wait
  poll_round-done w v p s e = ground arith

  -- The supervisor abandons a process only with exit code 70.
  pub watch-abandoned :
      (w : Watch) (ps : List Poll) (x : SupervisorExit)
      → (watch c n w ps).1 ≡ abandoned x
      → x ≡ code 70
  unfolding watch
  watch-abandoned w [] x e = ground arith
  watch-abandoned w (p ∷ ps) x e = elim (Round-cases (poll_round c n w p).1) [
    | inl (v, on) ↦ watch-abandoned v ps x (ground arith)
    | inr (inl (v, s, over)) ↦ absurd (ground arith)
    | inr (inr (y, left)) ↦ poll_round-quit w p x (ground arith)
  ]

  -- If the watch of a process ends with a status, the status was observed by `try_wait` in one of its
  -- rounds.
  pub watch-finished :
      (w : Watch) (ps : List Poll) (forwarded : Bool) (s : ExitStatus)
      → (watch c n w ps).1 ≡ finished forwarded s
      → (p : Poll) × Memᴰ p ps × (p.wait ≡ ended s)
  unfolding watch
  watch-finished w [] forwarded s e = absurd (ground arith)
  watch-finished w (p ∷ ps) forwarded s e = elim (Round-cases (poll_round c n w p).1) [
    | inl (v, on) ↦
        let (q, found, is) = watch-finished v ps forwarded s (ground arith) in
        (q, Memᴰ.tail found, is)
    | inr (inl (v, t, over)) ↦ (p, Memᴰ.head refl, poll_round-done w v p s (ground arith))
    | inr (inr (y, left)) ↦ absurd (ground arith)
  ]
