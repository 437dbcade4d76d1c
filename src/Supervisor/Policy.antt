-- ===== src/Supervisor/Policy.antt =====
-- When a failed customer process is started again: src/protocol.rs `supervision_policy`, and
-- `effective_policy`, `restart_delay` and the deterministic delays of src/supervisor.rs.
-- Durations and instants are numbers of nanoseconds. SHA-256 is a parameter.
pub mod Limits
pub mod Backoff
use liskov_runtime_cargo.Prelude.{
  is_some, ℕ, ◌+◌, ◌-◌, ◌*◌, ◌/◌, ◌%◌, ◌^◌, min, Bool, true, false, not, ◌||◌, Option, none, some,
  List, [], ◌∷◌, ◌++◌, String, Bytes, codes, str_eq, ltb, leb, if◌then◌else◌, any, take, u8_max,
  u64_max, checked_sub, from_be_bytes, to_be_bytes,
}
use liskov_runtime_cargo.Prelude.Maybe.{◌>>=◌, ◌>>◌, guard}
use liskov_runtime_cargo.Prelude.Result.{Result, ok, err}
use liskov_runtime_cargo.Prelude.Json.{Json, Fields, is_null, as_object, as_str, as_u64, keys, get}

pub data RestartLimit : Type 0 where
  attempts : ℕ → RestartLimit
  schedule_end : RestartLimit

pub data SupervisionMode : Type 0 where
  never : SupervisionMode
  on_failure : RestartLimit → SupervisionMode

pub record SupervisionPolicy : Type 0 where
  pub mode : SupervisionMode
  pub server_time_ms : ℕ
  pub schedule_end_ms : ℕ

-- `is_some_and(|value| !value.is_null())`.
abbrev has_value : String → Fields → Bool
has_value k fs = elim (get k fs) [ none ↦ false | some v ↦ not (is_null v) ]

abbrev is_policy_key : String → Bool
is_policy_key k =
    str_eq k "mode"
    || str_eq k "restartLimit"
    || str_eq k "serverTimeMs"
    || str_eq k "scheduleEndMs"

abbrev is_limit_key : String → Bool
is_limit_key k = str_eq k "kind" || str_eq k "maxRestarts"

abbrev attempts_of : ℕ → Option RestartLimit
attempts_of n = if leb n u8_max then (if leb n 10 then some (attempts n) else none) else none

unfoldable pub restart_limit_of : Fields → Option RestartLimit
restart_limit_of limit = do
  guard (not (any (λ k. not (is_limit_key k)) (keys limit)))
  kind_value ← get "kind" limit
  kind ← as_str kind_value
  if str_eq kind "attempts"
      then (get "maxRestarts" limit >>= as_u64 >>= attempts_of)
      else (if str_eq kind "schedule_end"
          then (if has_value "maxRestarts" limit then none else some schedule_end)
          else none)

unfoldable pub mode_of : String → Fields → Option SupervisionMode
unfolding restart_limit_of
mode_of name fields =
    if str_eq name "never"
    then (if has_value "restartLimit" fields then none else some never)
    else (if str_eq name "on_failure"
        then (do
          limit_value ← get "restartLimit" fields
          limit ← as_object limit_value
          restart_limit ← restart_limit_of limit
          some (on_failure restart_limit))
        else none)

unfoldable pub supervision_policy : Option Json → Option SupervisionPolicy
unfolding mode_of
supervision_policy supervision = do
  value ← supervision
  fields ← as_object value
  guard (not (any (λ k. not (is_policy_key k)) (keys fields)))
  mode_value ← get "mode" fields
  name ← as_str mode_value
  mode ← mode_of name fields
  server_value ← get "serverTimeMs" fields
  server_time_ms ← as_u64 server_value
  end_value ← get "scheduleEndMs" fields
  schedule_end_ms ← as_u64 end_value
  if ltb server_time_ms schedule_end_ms
      then some (record {
        mode = mode;
        server_time_ms = server_time_ms;
        schedule_end_ms = schedule_end_ms;
      })
      else none

abbrev pub millis : ℕ → ℕ
millis n = n * 1_000_000

abbrev pub seconds : ℕ → ℕ
seconds n = n * 1_000_000_000

abbrev pub stability_reset : ℕ
stability_reset = seconds 300

abbrev pub final_runway : ℕ
final_runway = seconds 5

-- The greatest instant of `std::time::Instant`: its seconds are an i64.
abbrev pub instant_max : ℕ
instant_max = 2 ^ 63 * 1_000_000_000 - 1

pub record EffectivePolicy : Type 0 where
  pub mode : SupervisionMode
  pub schedule_deadline : Option ℕ

abbrev fail_closed : EffectivePolicy
fail_closed = record { mode = never; schedule_deadline = none }

unfoldable pub effective_policy : Option SupervisionPolicy → ℕ → ℕ → EffectivePolicy
effective_policy none bootstrap_elapsed now = fail_closed
effective_policy (some policy) bootstrap_elapsed now =
    elim (checked_sub policy.schedule_end_ms policy.server_time_ms) [
      | none ↦ fail_closed
      | some server_remaining_ms ↦
          let deadline = now + (millis server_remaining_ms - bootstrap_elapsed) in
          if leb deadline instant_max
          then record { mode = policy.mode; schedule_deadline = some deadline }
          else fail_closed
    ]

pub data Disposition : Type 0 where
  policy_never attempt_limit_reached schedule_end_reached : Disposition

abbrev pub limit_reached : RestartLimit → ℕ → Bool
limit_reached (attempts max_restarts) restart_count = leb max_restarts restart_count
limit_reached schedule_end restart_count = false

abbrev pub ceiling_ms : ℕ → ℕ
ceiling_ms consecutive_failure = min (1_000 * 2 ^ min consecutive_failure 6) 60_000

-- A hash sample spread over the upper half of the range up to the ceiling.
unfoldable pub jittered_ms : ℕ → ℕ → ℕ
jittered_ms ceiling sample = ceiling / 2 + sample % (ceiling - ceiling / 2 + 1)

abbrev pub duration_ms : ℕ → ℕ
duration_ms duration = min (duration / 1_000_000) u64_max

module _ (sha256 : Bytes → Bytes) where
  abbrev pub digest_sample : Bytes → ℕ
  digest_sample message = from_be_bytes 0 (take 8 (sha256 message))

  unfoldable pub deterministic_backoff : Bytes → ℕ → ℕ → ℕ
  unfolding jittered_ms
  deterministic_backoff runtime_instance_id process_attempt consecutive_failure = millis (
      jittered_ms (ceiling_ms consecutive_failure) (
        digest_sample (
          codes "runtime-cargo-backoff.v1"
          ++ (0 ∷ runtime_instance_id)
          ++ (0 ∷ to_be_bytes 8 process_attempt))))

  unfoldable pub initial_health_jitter : Bytes → ℕ → ℕ
  initial_health_jitter runtime_instance_id process_attempt = millis (
      digest_sample (
        codes "runtime-cargo-health-jitter.v1"
        ++ (0 ∷ runtime_instance_id)
        ++ to_be_bytes 8 process_attempt)
      % 30_001)

  unfoldable pub restart_delay : EffectivePolicy → ℕ → ℕ → ℕ → ℕ → Bytes → ℕ → Result Disposition ℕ
  restart_delay policy process_attempt restart_count consecutive_failures uptime id now =
      elim policy.mode [
        | never ↦ err policy_never
        | on_failure limit ↦
            if limit_reached limit restart_count
            then err attempt_limit_reached
            else elim policy.schedule_deadline [
              | none ↦ err schedule_end_reached
              | some deadline ↦
                  if leb (deadline - now) final_runway
                  then err schedule_end_reached
                  else ok (
                      min
                        (deterministic_backoff id process_attempt
                          (if leb stability_reset uptime then 0 else consecutive_failures))
                        (deadline - now - final_runway))
            ]
      ]
