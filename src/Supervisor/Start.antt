-- ===== src/Supervisor/Start.antt =====
-- `supervise_with_reporter_and_environment` of src/supervisor.rs from its start: the empty command,
-- the process authority, the policy in effect, the report of the repaired environment, and the loop.
pub mod Spawns
use liskov_runtime_cargo.Prelude.{
  ℕ, Bool, true, false, Option, none, some, List, [], ◌∷◌, ◌++◌, String, Bytes, if◌then◌else◌,
}
use liskov_runtime_cargo.Prelude.Json.{
  Json, text, number, array, object, Items, nil, cons, field, end,
}
use liskov_runtime_cargo.Environment.Normalize.{Normalization, reason_name}
use liskov_runtime_cargo.Supervisor.Policy.{SupervisionPolicy, supervision_policy, effective_policy}
use liskov_runtime_cargo.Supervisor.Effects.{
  failed, info, Effect, SupervisorExit, code, Config, report, Counters, counts,
}
use liskov_runtime_cargo.Supervisor.Run.{Attempt, supervise_from}

-- What is given and observed before the loop: whether the command is empty, whether the process
-- authority is installed, the decision of the bootstrap response, the time that the bootstrap took,
-- the clock, the repairs of the environment, and the waiting workers.
pub record Startup : Type 0 where
  pub command_is_empty : Bool
  pub has_authority : Bool
  pub supervision : Option Json
  pub bootstrap_elapsed : ℕ
  pub now : ℕ
  pub normalized : List Normalization
  pub tasks : List String

abbrev pub no_counters : Counters
no_counters = record { process_attempt = 0; restart_count = 0; consecutive_failures = 0 }

abbrev normalized_items : List Normalization → Items
normalized_items [] = nil
normalized_items (change ∷ changes) =
    cons
      (object
        (field "name" (text change.name) (field "reason" (text (reason_name change.reason)) end)))
      (normalized_items changes)

unfoldable pub report_environment_normalized : Config → List Normalization → List Effect
report_environment_normalized c [] = []
report_environment_normalized c (change ∷ changes) =
    report c "runtime.environment.normalized" info none
      (("normalized", array (normalized_items (change ∷ changes))) ∷ [])

unfoldable pub supervise :
    (Bytes → Bytes) → Config → Startup → List Attempt → List Effect × Option SupervisorExit
supervise sha256 c s attempts =
    if s.command_is_empty
    then (
      report c "runtime.fatal.cargo.process" failed (some "process_start_failed")
          (counts no_counters),
      some (code 126),
    )
    else (if s.has_authority
        then (let policy =
              effective_policy (supervision_policy s.supervision) s.bootstrap_elapsed s.now in
            let (effects, exit) = supervise_from sha256 policy c s.tasks no_counters attempts in
            (report_environment_normalized c s.normalized ++ effects, exit))
        else (
          report c "runtime.fatal.cargo.supervisor" failed (some "internal_failure") [],
          some (code 70),
        ))
