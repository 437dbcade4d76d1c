-- ===== src/Supervisor/Policy/Limits.antt =====
-- What an accepted supervision decision promises, and when a restart is granted or refused
-- (`supervision_policy` of src/protocol.rs; `effective_policy`, `restart_delay` of
-- src/supervisor.rs).
use liskov_runtime_cargo.Prelude.{
  ℕ, ◌+◌, ◌-◌, ◌≤◌, ◌<◌, ◌≡◌, refl, ◌↔◌, String, false, Option, none, some, Bytes, arith, leb, ltb,
  if◌then◌else◌, Bool-cases, ltb→lt, inl, inr,
}
use liskov_runtime_cargo.Prelude.Maybe.{
  >>=-eq-some, guard, Ensures, ensures-some, some-ensures, none-ensures, bind-ensures,
}
use liskov_runtime_cargo.Prelude.Result.{ok, err}
use liskov_runtime_cargo.Prelude.Json.{Json, Fields, get, as_u64, as_object, as_str}
use liskov_runtime_cargo.Supervisor.Policy.{
  RestartLimit, attempts, schedule_end, SupervisionMode, never, on_failure, SupervisionPolicy,
  EffectivePolicy, Disposition, policy_never, attempt_limit_reached, schedule_end_reached,
  limit_reached, attempts_of, restart_limit_of, mode_of, supervision_policy, effective_policy,
  millis, final_runway, stability_reset, deterministic_backoff, restart_delay,
}
use liskov_runtime_cargo.Supervisor.Policy.Backoff.{deterministic_backoff_range}

abbrev pub IsCapped : SupervisionMode → Type 0
IsCapped never = Unit
IsCapped (on_failure schedule_end) = Unit
IsCapped (on_failure (attempts n)) = n ≤ 10

attempts_of-IsCapped :
    (n : ℕ) {limit : RestartLimit} → attempts_of n ≡ some limit → IsCapped (on_failure limit)
attempts_of-IsCapped n {limit = attempts m} h = ground arith
attempts_of-IsCapped n {limit = schedule_end} h = tt

module _ (sha256 : Bytes → Bytes) (attempt count failures uptime : ℕ) (id : Bytes) (now : ℕ) where
  -- What a granted delay says of the mode and the deadline.
  abbrev pub IsGranted : SupervisionMode → Option ℕ → ℕ → Type 0
  IsGranted mode end d =
      (limit : RestartLimit) × (deadline : ℕ) × (mode ≡ on_failure limit)
      × (limit_reached limit count ≡ false)
      × (end ≡ some deadline)
      × (now + d + final_runway ≤ deadline)
      × (0 < d)
      × (d ≤ millis 60_000)

  delay-IsGranted :
      (mode : SupervisionMode) (end : Option ℕ) {d : ℕ}
      → restart_delay sha256
          (record { mode = mode; schedule_deadline = end })
          attempt
          count
          failures
          uptime
          id
          now
        ≡ ok d
      → IsGranted mode end d
  unfolding restart_delay
  delay-IsGranted never end h = cc
  delay-IsGranted (on_failure limit) none h = ground arith
  delay-IsGranted (on_failure limit) (some t) h = (
    limit,
    t,
    refl,
    ground arith,
    refl,
    ground (arith, range),
    ground (arith, range),
    ground (arith, range),
  )
    where
      range :
          (millis 500
            ≤ deterministic_backoff sha256 id attempt
                (if leb stability_reset uptime then 0 else failures))
          × (deterministic_backoff sha256 id attempt
                (if leb stability_reset uptime then 0 else failures)
              ≤ millis 60_000)
      range =
          deterministic_backoff_range sha256 id attempt
            (if leb stability_reset uptime then 0 else failures)

  -- The scheduled end leaves no more than the final runway, or was not given.
  abbrev pub IsClosing : Option ℕ → Type 0
  IsClosing none = Unit
  IsClosing (some deadline) = deadline ≤ now + final_runway

  -- When each disposition is given.
  abbrev pub Refuses : Disposition → SupervisionMode → Option ℕ → Type 0
  Refuses policy_never never end = Unit
  Refuses policy_never (on_failure limit) end = ⊥
  Refuses attempt_limit_reached (on_failure (attempts m)) end = m ≤ count
  Refuses attempt_limit_reached (on_failure schedule_end) end = ⊥
  Refuses attempt_limit_reached never end = ⊥
  Refuses schedule_end_reached (on_failure (attempts m)) end = (count < m) × IsClosing end
  Refuses schedule_end_reached (on_failure schedule_end) end = IsClosing end
  Refuses schedule_end_reached never end = ⊥

  delay_refusal :
      (mode : SupervisionMode) (end : Option ℕ) (r : Disposition)
      → (restart_delay sha256
            (record { mode = mode; schedule_deadline = end })
            attempt
            count
            failures
            uptime
            id
            now
          ≡ err r)
        ↔ Refuses r mode end
  unfolding restart_delay
  delay_refusal never end policy_never = ground arith
  delay_refusal never end attempt_limit_reached = ground arith
  delay_refusal never end schedule_end_reached = ground arith
  delay_refusal (on_failure schedule_end) none policy_never = ground arith
  delay_refusal (on_failure (attempts m)) none policy_never = ground arith
  delay_refusal (on_failure _) none _ = ground arith
  delay_refusal (on_failure _) (some t) _ = ground arith

  -- A restart is refused with a disposition exactly when: `policy_never`, the mode is never;
  -- `attempt_limit_reached`, the limit is a number of attempts and that many restarts have been
  -- made; `schedule_end_reached`, the mode allows restarts, attempts are left, and the scheduled
  -- end is missing or at most five seconds ahead.
  pub restart_delay-eq-err_iff :
      (policy : EffectivePolicy) (r : Disposition)
      → (restart_delay sha256 policy attempt count failures uptime id now ≡ err r)
        ↔ Refuses r policy.mode policy.schedule_deadline
  restart_delay-eq-err_iff policy r = delay_refusal policy.mode policy.schedule_deadline r

  -- A granted restart: the mode allows restarts and attempts are left, the delay is positive and
  -- at most one minute, and the customer runs again at least five seconds before the scheduled end.
  pub restart_delay-IsGranted :
      (policy : EffectivePolicy) {d : ℕ}
      → restart_delay sha256 policy attempt count failures uptime id now ≡ ok d
      → IsGranted policy.mode policy.schedule_deadline d
  restart_delay-IsGranted policy h = delay-IsGranted policy.mode policy.schedule_deadline h

restart_limit_of-IsCapped :
    (limit : Fields) {l : RestartLimit} → restart_limit_of limit ≡ some l → IsCapped (on_failure l)
unfolding restart_limit_of
restart_limit_of-IsCapped limit {l = schedule_end} h = tt
restart_limit_of-IsCapped limit {l = attempts m} h =
    grind (arith, >>=-eq-some, attempts_of-IsCapped)

mode_of-IsCapped :
    (name : String) (fields : Fields) (mode : SupervisionMode)
    → mode_of name fields ≡ some mode
    → IsCapped mode
unfolding mode_of
mode_of-IsCapped name fields never h = tt
mode_of-IsCapped name fields (on_failure schedule_end) h = tt
mode_of-IsCapped name fields (on_failure (attempts m)) h =
    grind (arith, >>=-eq-some, restart_limit_of-IsCapped, attempts_of-IsCapped)

-- An accepted decision ends after the server's time and allows at most ten restarts by number.
abbrev pub IsBounded : SupervisionPolicy → Type 0
IsBounded policy = (policy.server_time_ms < policy.schedule_end_ms) × IsCapped policy.mode

accepted :
    (mode : SupervisionMode) (server end : ℕ)
    → IsCapped mode
    → Ensures IsBounded (
        if ltb server end
        then some (record { mode = mode; server_time_ms = server; schedule_end_ms = end })
        else none)
accepted mode server end capped = elim (Bool-cases (ltb server end)) [
  | inl e ↦ rw e (some-ensures IsBounded (ltb→lt server end e, capped))
  | inr e ↦ rw e (none-ensures IsBounded)
]

supervision_policy-ensures :
    (supervision : Option Json) → Ensures IsBounded (supervision_policy supervision)
unfolding supervision_policy
supervision_policy-ensures s = bind-ensures IsBounded s _ λ value _.
    bind-ensures IsBounded (as_object value) _ λ fields _. bind-ensures IsBounded (guard _) _ λ _ _.
      bind-ensures IsBounded (get "mode" fields) _ λ mode_value _.
        bind-ensures IsBounded (as_str mode_value) _ λ name _.
          bind-ensures IsBounded (mode_of name fields) _ λ mode is_mode.
            bind-ensures IsBounded (get "serverTimeMs" fields) _ λ server_value _.
              bind-ensures IsBounded (as_u64 server_value) _ λ server _.
                bind-ensures IsBounded (get "scheduleEndMs" fields) _ λ end_value _.
                  bind-ensures IsBounded (as_u64 end_value) _
                    λ end _. accepted mode server end (mode_of-IsCapped name fields mode is_mode)

-- A supervision decision that is accepted ends after the server's time, and if it limits restarts
-- by number, it allows at most ten.
pub supervision_policy-IsBounded :
    (supervision : Option Json) {policy : SupervisionPolicy}
    → supervision_policy supervision ≡ some policy
    → IsBounded policy
supervision_policy-IsBounded s h =
    ensures-some IsBounded (supervision_policy s) (supervision_policy-ensures s) h

-- The deadline that restarts are held to lies no later than the server's remaining time after
-- `now`, less the time that the bootstrap took; the mode is the decision's, or never.
pub effective_policy_bounds :
    (policy : SupervisionPolicy) (elapsed now : ℕ) {deadline : ℕ}
    → (effective_policy (some policy) elapsed now).schedule_deadline ≡ some deadline
    → ((effective_policy (some policy) elapsed now).mode ≡ policy.mode)
      × (deadline ≡ now + (millis (policy.schedule_end_ms - policy.server_time_ms) - elapsed))
unfolding effective_policy
effective_policy_bounds policy elapsed now h = ground arith
