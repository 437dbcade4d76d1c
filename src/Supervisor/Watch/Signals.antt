-- ===== src/Supervisor/Watch/Signals.antt =====
-- The signals that the watch of one process sends (the inner loop in src/supervisor.rs).
use liskov_runtime_cargo.Prelude.{
  ℕ, ◌≡◌, refl, Bool, Option, none, some, List, [], ◌∷◌, ◌++◌, ap, if◌then◌else◌,
}
use liskov_runtime_cargo.Supervisor.Effects.{Effect, signalled, sigkill}
use liskov_runtime_cargo.Supervisor.Watch.{Poll, Watch, Round, onward, done, quit}

-- The signals among effects, in order.
unfoldable pub sent : List Effect → List ℕ
sent [] = []
sent (signalled s ∷ es) = s ∷ sent es
sent (_ ∷ es) = sent es

pub sent-append : (es fs : List Effect) → sent (es ++ fs) ≡ sent es ++ sent fs
unfolding sent
sent-append [] fs = refl
sent-append (signalled s ∷ es) fs = ap (λ l. s ∷ l) (sent-append es fs)
sent-append (_ ∷ es) fs = sent-append es fs

-- The first signal that a watch observes.
abbrev pub first_signal : List Poll → Option ℕ
first_signal [] = none
first_signal (p ∷ ps) = elim p.signal [ none ↦ first_signal ps | some s ↦ some s ]

-- Whether nothing was sent yet, a signal was forwarded, or the group was killed.
pub data Phase : Type 0 where
  quiet warned spent : Phase

abbrev pub phase : Watch → Phase
phase w = elim w.forwarded_signal [
  | none ↦ quiet
  | some _ ↦ if w.forced_cleanup then spent else warned
]

-- The signals that may be sent from a phase on: the given first one, then SIGKILL, each once.
abbrev pub Sends : Option ℕ → Phase → List ℕ → Type 0
Sends first spent l = l ≡ []
Sends first warned [] = Unit
Sends first warned (s ∷ l) = (s ≡ sigkill) × (l ≡ [])
Sends first quiet [] = Unit
Sends first quiet (s ∷ l) = (first ≡ some s) × Sends first warned l

-- The lemmas on one watch are stated over its fields, so that they can be matched.
module _ (next : ℕ) (forced : Bool) (p : Poll) (ps : List Poll) (l : List ℕ) where
  abbrev state : Option (ℕ × ℕ) → Watch
  state o = record { next_health = next; forwarded_signal = o; forced_cleanup = forced }

module _ (next : ℕ) (l : List ℕ) (now : ℕ) (first : Option ℕ) where
  abbrev armed : Bool → Option (ℕ × ℕ) → Watch
  armed forced o = record { next_health = next; forwarded_signal = o; forced_cleanup = forced }

-- What may follow a round.
abbrev Continues : Option ℕ → Round → List ℕ → Type 0
Continues first (onward w) l = Sends first (phase w) l
Continues first (done w status) l = l ≡ []
Continues first (quit exit) l = l ≡ []
