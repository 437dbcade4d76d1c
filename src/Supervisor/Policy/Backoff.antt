-- ===== src/Supervisor/Policy/Backoff.antt =====
-- Bounds of the deterministic delays of src/supervisor.rs.
use liskov_runtime_cargo.Prelude.{ℕ, ◌+◌, ◌-◌, ◌/◌, ◌≤◌, ◌≡◌, min, Bytes, arith, zero, suc}
use liskov_runtime_cargo.Supervisor.Policy.{ceiling_ms, jittered_ms, millis, deterministic_backoff}

pub jittered_ms_bounds :
    (ceiling sample : ℕ)
    → (ceiling / 2 ≤ jittered_ms ceiling sample) × (jittered_ms ceiling sample ≤ ceiling)
unfolding jittered_ms
jittered_ms_bounds ceiling sample = let half : ℕ = ceiling - ceiling / 2 + 1 in omega arith

-- The ceiling doubles from one second and stays at one minute from the sixth failure on.
ceiling_ms_range : (failure : ℕ) → (1_000 ≤ ceiling_ms failure) × (ceiling_ms failure ≤ 60_000)
ceiling_ms_range zero = omega arith
ceiling_ms_range (suc zero) = omega arith
ceiling_ms_range (suc (suc zero)) = omega arith
ceiling_ms_range (suc (suc (suc zero))) = omega arith
ceiling_ms_range (suc (suc (suc (suc zero)))) = omega arith
ceiling_ms_range (suc (suc (suc (suc (suc zero))))) = omega arith
ceiling_ms_range (suc (suc (suc (suc (suc (suc n)))))) =
    let e : min (suc (suc (suc (suc (suc (suc n)))))) 6 ≡ 6 = omega arith in rw e (omega arith)

module _ (sha256 : Bytes → Bytes) (id : Bytes) (attempt failure : ℕ) where
  -- The delay before a restart is at least half of the ceiling of its failure streak and at most
  -- the ceiling, whatever the hash gives; the ceiling lies between one second and one minute.
  pub deterministic_backoff_bounds :
      (millis (ceiling_ms failure / 2) ≤ deterministic_backoff sha256 id attempt failure)
      × (deterministic_backoff sha256 id attempt failure ≤ millis (ceiling_ms failure))
      × (1_000 ≤ ceiling_ms failure)
      × (ceiling_ms failure ≤ 60_000)
  unfolding deterministic_backoff
  deterministic_backoff_bounds =
      let (small, great) = ceiling_ms_range failure in
      (omega (arith, jittered_ms_bounds), omega (arith, jittered_ms_bounds), small, great)

  pub deterministic_backoff_range :
      (millis 500 ≤ deterministic_backoff sha256 id attempt failure)
      × (deterministic_backoff sha256 id attempt failure ≤ millis 60_000)
  deterministic_backoff_range =
      let (low, high, small, great) = deterministic_backoff_bounds in
      (omega (arith, low, small), omega (arith, high, great))
