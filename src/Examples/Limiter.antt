-- ===== src/Examples/Limiter.antt =====
-- The token bucket with five requests a second and a burst of one.
use systemd_monitoring_mcp.Base.{
  ◌+◌, ◌*◌, ◌≤◌, ◌≡◌, refl, min, true, is_ok, [], ◌∷◌, replicate, arith,
}
use systemd_monitoring_mcp.RateLimit.{RateLimitPolicy, RateLimiter, new_limiter, check_at}
use systemd_monitoring_mcp.RateLimit.Exact.{exact, exact-FloatLaws, nano}
use systemd_monitoring_mcp.RateLimit.Runs.{run_checks}
use systemd_monitoring_mcp.RateLimit.Bucket.{IsFilled, check_at-IsFilled, check_at_rejected}
use systemd_monitoring_mcp.RateLimit.Burst.{run_checks-new_limiter}
use systemd_monitoring_mcp.RateLimit.Window.{run_checks-le-window, retry_admitted}

abbrev policy : RateLimitPolicy
policy = record { requests_per_second = 5; burst = 1 }

-- A full limiter and an empty one
abbrev full : RateLimiter exact
full = record { policy = policy; bucket = record { tokens = nano; last_refill = 0 } }

abbrev drained : RateLimiter exact
drained = record { policy = policy; bucket = record { tokens = 0; last_refill = 0 } }

full-IsFilled : IsFilled exact exact-FloatLaws policy full.bucket
full-IsFilled = record { nonneg = refl; capped = refl }

check_at-IsFilled_example :
    IsFilled exact exact-FloatLaws policy (check_at exact full 1000).1.bucket
check_at-IsFilled_example =
    check_at-IsFilled exact exact-FloatLaws full 1000 (omega arith) full-IsFilled

run_checks-new_limiter_example :
    (run_checks exact (new_limiter exact policy) (replicate 3 0)).0 ≡ min 3 1
run_checks-new_limiter_example = run_checks-new_limiter exact exact-FloatLaws policy 3 (omega arith)

check_at_rejected_example :
    (1 ≤ 1) × (check_at exact (check_at exact drained 0).1 0 ≡ check_at exact drained 0)
unfolding check_at
check_at_rejected_example = check_at_rejected exact drained 0 1 refl

run_checks-le-window_example :
    (run_checks exact full (0 ∷ 500000000 ∷ [])).0 * nano ≤ 1 * nano + 1000000000 * 5
run_checks-le-window_example =
    run_checks-le-window full (0 ∷ 500000000 ∷ []) 1000000000 (omega arith)
      (omega arith, (omega arith, tt))

retry_admitted_example : is_ok (check_at exact (check_at exact drained 0).1 (0 + 1 * nano)).0 ≡ true
unfolding check_at
retry_admitted_example = retry_admitted drained 0 1 (omega arith) (omega arith) (omega arith) refl
