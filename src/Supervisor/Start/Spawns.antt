-- ===== src/Supervisor/Start/Spawns.antt =====
-- How often a whole run of the supervisor of src/supervisor.rs starts the customer.
use liskov_runtime_cargo.Prelude.{
  ℕ, suc, ◌≤◌, ◌≡◌, refl, ◌∙◌, ap, sym, subst, ◌⊎◌, inl, inr, Bool-cases, Option, none, some, List,
  [], ◌∷◌, ◌++◌, Bytes, arith, replicate,
}
use liskov_runtime_cargo.Prelude.Json.{Json}
use liskov_runtime_cargo.Environment.Normalize.{Normalization}
use liskov_runtime_cargo.Supervisor.Policy.{
  SupervisionPolicy, SupervisionMode, never, on_failure, attempts, schedule_end, supervision_policy,
  effective_policy,
}
use liskov_runtime_cargo.Supervisor.Policy.Limits.{supervision_policy-IsBounded, IsCapped}
use liskov_runtime_cargo.Supervisor.Effects.{spawned, Config}
use liskov_runtime_cargo.Supervisor.Watch.Quiet.{Quiet, report-Quiet}
use liskov_runtime_cargo.Supervisor.Run.{Attempt, start_tasks, supervise_from}
use liskov_runtime_cargo.Supervisor.Run.Starts.{
  starts, starts-append, starts-eq-nil, starts-supervise_from, Within, FitsByte,
}
use liskov_runtime_cargo.Supervisor.Start.{
  Startup, no_counters, report_environment_normalized, supervise,
}

-- The greatest number of starts of the customer under a mode: one, or one more than the restarts.
abbrev pub Allows : SupervisionMode → ℕ → Type 0
Allows never k = k ≤ 1
Allows (on_failure (attempts m)) k = (m ≤ 10) × (k ≤ suc m)
Allows (on_failure schedule_end) k = Unit

abbrev pub mode_in_effect : Startup → SupervisionMode
mode_in_effect s =
    (effective_policy (supervision_policy s.supervision) s.bootstrap_elapsed s.now).mode

mode_of_policy :
    (p : SupervisionPolicy) (elapsed now : ℕ)
    → ((effective_policy (some p) elapsed now).mode ≡ p.mode)
      ⊎ ((effective_policy (some p) elapsed now).mode ≡ never)
unfolding effective_policy
mode_of_policy p elapsed now = ground arith

IsCapped-effective :
    (supervision : Option Json) (o : Option SupervisionPolicy) (elapsed now : ℕ)
    → supervision_policy supervision ≡ o
    → IsCapped (effective_policy o elapsed now).mode
unfolding effective_policy
IsCapped-effective supervision none elapsed now e = tt
IsCapped-effective supervision (some p) elapsed now e = elim (mode_of_policy p elapsed now) [
  | inl same ↦ subst IsCapped (sym same) (supervision_policy-IsBounded supervision e).1
  | inr closed ↦ subst IsCapped (sym closed) tt
]

Allows-Within : (mode : SupervisionMode) (k : ℕ) → IsCapped mode → Within mode 0 k → Allows mode k
Allows-Within never k c w = w
Allows-Within (on_failure (attempts m)) k c w = (c, omega (arith, w))
Allows-Within (on_failure schedule_end) k c w = tt

FitsByte-IsCapped : (mode : SupervisionMode) → IsCapped mode → FitsByte mode
FitsByte-IsCapped never c = tt
FitsByte-IsCapped (on_failure (attempts m)) c = omega arith
FitsByte-IsCapped (on_failure schedule_end) c = tt

report_environment_normalized-Quiet :
    (c : Config) (l : List Normalization) → Quiet (report_environment_normalized c l)
unfolding report_environment_normalized
report_environment_normalized-Quiet c [] = tt
report_environment_normalized-Quiet c (change ∷ changes) = report-Quiet c _ _ _ _

-- A whole run of the supervisor, from its start, starts nothing, or each waiting worker once, before
-- any customer process, and then only the customer: at most once under the mode never, and at most
-- once more than the limit, which is at most ten, if the accepted decision limits restarts by number.
pub starts-supervise :
    (sha256 : Bytes → Bytes) (c : Config) (s : Startup) (l : List Attempt)
    → (k : ℕ) × Allows (mode_in_effect s) k
      × ((starts (supervise sha256 c s l).0 ≡ [])
          ⊎ (starts (supervise sha256 c s l).0 ≡ start_tasks s.tasks ++ replicate k spawned))
unfolding supervise
starts-supervise sha256 c s l =
    let policy = effective_policy (supervision_policy s.supervision) s.bootstrap_elapsed s.now in
    let capped : IsCapped (mode_in_effect s) =
      IsCapped-effective s.supervision (supervision_policy s.supervision) s.bootstrap_elapsed s.now
        refl in
    let (k, within, started) =
      starts-supervise_from sha256 policy c s.tasks no_counters l
        (FitsByte-IsCapped (mode_in_effect s) capped) in
    let allowed = Allows-Within (mode_in_effect s) k capped within in
    let quiet =
      starts-append (report_environment_normalized c s.normalized)
        (supervise_from sha256 policy c s.tasks no_counters l).0
      ∙ ap (λ e. e ++ starts (supervise_from sha256 policy c s.tasks no_counters l).0)
          (starts-eq-nil _ (report_environment_normalized-Quiet c s.normalized)) in
    elim (Bool-cases s.command_is_empty) [
      | inl no_command ↦
          (k, allowed, inl (rw no_command (starts-eq-nil _ (report-Quiet c _ _ _ _))))
      | inr command ↦ elim (Bool-cases s.has_authority) [
        | inr refusal ↦
            (k, allowed, inl (rw (command, refusal) (starts-eq-nil _ (report-Quiet c _ _ _ _))))
        | inl authority ↦ elim started [
          | inl nothing ↦ (k, allowed, inl (rw (command, authority) (quiet ∙ nothing)))
          | inr more ↦ (k, allowed, inr (rw (command, authority) (quiet ∙ more)))
        ]
      ]
    ]
