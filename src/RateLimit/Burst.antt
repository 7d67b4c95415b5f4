-- ===== src/RateLimit/Burst.antt =====
-- A fresh limiter admits exactly its burst at once.
use systemd_monitoring_mcp.Base.{ℕ, zero, suc, ◌≤◌, min, ◌≡◌, arith, true, replicate, ok, err}
use systemd_monitoring_mcp.RateLimit.Floats.{Float, FloatLaws}
use systemd_monitoring_mcp.RateLimit.{
  RateLimitPolicy, max_burst, RateLimiter, new_limiter, refill, retry_seconds, check_at,
}
use systemd_monitoring_mcp.RateLimit.Runs.{run_checks}

module _ (f : Float) (laws : FloatLaws f) where
  open f use {of_u32, sub, le}

  -- A limiter at offset 0 that holds a whole number of tokens.
  abbrev holding : RateLimitPolicy → ℕ → RateLimiter f
  holding policy n = record {
    policy = policy;
    bucket = record { tokens = of_u32 n; last_refill = 0 };
  }

  -- The last token is gone: the limiter stays as it is, and rejects.
  check_holding_none :
      (policy : RateLimitPolicy)
      → check_at f (holding policy 0) 0
        ≡ (err (retry_seconds f policy (holding policy 0).bucket), holding policy 0)
  unfolding check_at refill
  check_holding_none policy = rw (laws.le-of_u32 1 0 (omega arith) (omega arith))

  check_holding_some :
      (policy : RateLimitPolicy) (t : ℕ)
      → suc t ≤ max_burst
      → check_at f (holding policy (suc t)) 0 ≡ (ok tt, holding policy t)
  unfolding check_at refill
  check_holding_some policy t h =
      let passes : le (of_u32 1) (of_u32 (suc t)) ≡ true =
        ground (arith, laws.le-of_u32 1 (suc t) (omega arith) (omega arith)) in
      rw (passes, laws.sub-of_u32 t (omega arith))

  run_holding :
      (policy : RateLimitPolicy) (tokens : ℕ)
      → tokens ≤ max_burst
      → (n : ℕ) → (run_checks f (holding policy tokens) (replicate n 0)).0 ≡ min n tokens
  unfolding run_checks
  run_holding policy tokens h zero = omega arith
  run_holding policy zero h (suc n) =
      rw (check_holding_none policy) (omega (arith, run_holding policy zero h n))
  run_holding policy (suc t) h (suc n) =
      rw (check_holding_some policy t h) (omega (arith, run_holding policy t (omega arith) n))

  -- Of n requests at offset 0 a fresh limiter, whose burst is within its bound, admits n, but no more
  -- than its burst.
  pub run_checks-new_limiter :
      (policy : RateLimitPolicy) (n : ℕ)
      → policy.burst ≤ max_burst
      → (run_checks f (new_limiter f policy) (replicate n 0)).0 ≡ min n policy.burst
  unfolding new_limiter
  run_checks-new_limiter policy n h = run_holding policy policy.burst h n
