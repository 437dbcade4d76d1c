-- ===== src/Supervisor/Watch.antt =====
-- The inner loop of `supervise_with_reporter_and_environment` in src/supervisor.rs: it watches one
-- customer process, forwards the first signal, kills the group after the grace, beats health, and
-- ends with the process. One `Poll` holds what one round observes; the rounds end when the list
-- does, as a process that still runs.
pub mod Rounds
pub mod Signals
pub mod Quiet
pub mod Silent
use liskov_runtime_cargo.Prelude.{
  is_some, ℕ, ◌+◌, ◌-◌, Bool, true, false, not, ◌&&◌, Option, none, some, List, [], ◌∷◌, ◌++◌,
  String, leb, if◌then◌else◌,
}
use liskov_runtime_cargo.Prelude.Json.{boolean}
use liskov_runtime_cargo.Supervisor.Policy.{seconds}
use liskov_runtime_cargo.Supervisor.Effects.{
  failed, Report, Attrs, Effect, signalled, cleaned, SupervisorExit, code, ExitStatus, sigkill,
  Config, report, end_child, Counters, counts, report_health_beat,
}

abbrev pub health_cadence : ℕ
health_cadence = seconds 30

abbrev pub forwarded_signal_grace : ℕ
forwarded_signal_grace = seconds 5

-- `try_wait`.
pub data Wait : Type 0 where
  ended : ExitStatus → Wait
  running : Wait
  wait_error : Wait

-- What one round of the loop observes. `access` are the events of the access session that it
-- reports; `forwarded` tells whether the signal could be sent to the group; `cleanup` is the
-- result of `terminate_and_reap_group` if the round calls it. The clock is read at `forwarded_at`,
-- `grace_checked_at`, `health_checked_at` and `beaten_at`, in this order.
pub record Poll : Type 0 where
  pub access : List Report
  pub signal : Option ℕ
  pub forwarded : Bool
  pub forwarded_at : ℕ
  pub grace_checked_at : ℕ
  pub wait : Wait
  pub cleanup : Bool
  pub health_checked_at : ℕ
  pub readings : Attrs
  pub beaten_at : ℕ

pub record Watch : Type 0 where
  pub next_health : ℕ
  pub forwarded_signal : Option (ℕ × ℕ)
  pub forced_cleanup : Bool

-- The state in which the watch of a process begins.
abbrev pub new_watch : ℕ → Watch
new_watch next_health = record {
  next_health = next_health;
  forwarded_signal = none;
  forced_cleanup = false;
}

pub data Round : Type 0 where
  onward : Watch → Round
  done : Watch → ExitStatus → Round
  quit : SupervisorExit → Round

-- `report_endpoint_events` and `report_sidecar_event`.
unfoldable pub report_access : Config → List Report → List Effect
report_access c [] = []
report_access c (r ∷ rs) = report c r.stage r.status r.code r.attrs ++ report_access c rs

-- The two ways in which the supervisor itself fails while a process runs.
unfoldable pub fail_supervisor : Config → Counters → String → Bool → List Effect
fail_supervisor c n problem cleanup =
    cleaned cleanup
    ∷ (end_child c
        ++ report c "runtime.fatal.cargo.supervisor" failed (some problem)
            (counts n ++ ("cleanupComplete", boolean cleanup) ∷ []))

-- `none` is a signal that could not be forwarded.
unfoldable pub forward_signal : Watch → Poll → Option (List Effect × Watch)
forward_signal w p = elim p.signal [
  | none ↦ some ([], w)
  | some s ↦ elim w.forwarded_signal [
    | some _ ↦ some ([], w)
    | none ↦
        if p.forwarded
        then some (signalled s ∷ [], record w { forwarded_signal = some (s, p.forwarded_at) })
        else none
  ]
]

unfoldable pub force_cleanup : Watch → ℕ → List Effect × Watch
force_cleanup w now = elim w.forwarded_signal [
  | none ↦ ([], w)
  | some (s, forwarded_at) ↦
      if not w.forced_cleanup && leb forwarded_signal_grace (now - forwarded_at)
      then (signalled sigkill ∷ [], record w { forced_cleanup = true })
      else ([], w)
]

unfoldable pub beat_health : Config → Counters → Watch → Poll → List Effect × Watch
beat_health c n w p =
    if leb w.next_health p.health_checked_at
    then (
      report_health_beat c n p.readings,
      record w { next_health = p.beaten_at + health_cadence },
    )
    else ([], w)

-- The round from `try_wait` on.
unfoldable pub try_wait : Config → Counters → Watch → Poll → List Effect × Round
try_wait c n w p = elim p.wait [
  | ended status ↦ ([], done w status)
  | wait_error ↦ (fail_supervisor c n "wait_failed" p.cleanup, quit (code 70))
  | running ↦ let (beat, w') = beat_health c n w p in (beat, onward w')
]

-- The round from the grace check on.
unfoldable pub settle : Config → Counters → Watch → Poll → List Effect × Round
settle c n w p =
    let (killed, w') = force_cleanup w p.grace_checked_at in
    let (waited, round) = try_wait c n w' p in (killed ++ waited, round)

unfoldable pub poll_round : Config → Counters → Watch → Poll → List Effect × Round
poll_round c n w p = elim (forward_signal w p) [
  | none ↦ (
    report_access c p.access ++ fail_supervisor c n "signal_forward_failed" p.cleanup,
    quit (code 70),
  )
  | some (sent, w') ↦
      let (settled, round) = settle c n w' p in
      (report_access c p.access ++ (sent ++ settled), round)
]

-- How the watch of a process ends; `finished` tells whether a signal was forwarded to it.
pub data Outcome : Type 0 where
  still_running : Outcome
  finished : Bool → ExitStatus → Outcome
  abandoned : SupervisorExit → Outcome

unfoldable pub watch : Config → Counters → Watch → List Poll → List Effect × Outcome
watch c n w [] = ([], still_running)
watch c n w (p ∷ ps) =
    let (effects, round) = poll_round c n w p in
    elim round [
      | onward w' ↦ let (later, outcome) = watch c n w' ps in (effects ++ later, outcome)
      | done w' status ↦ (effects, finished (is_some w'.forwarded_signal) status)
      | quit exit ↦ (effects, abandoned exit)
    ]
