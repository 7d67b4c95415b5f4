-- ===== src/RateLimit/Runs.antt =====
-- Sequences of checks on one limiter.
use systemd_monitoring_mcp.Base.{ℕ, ◌+◌, List, [], ◌∷◌, is_ok, if◌then◌else◌}
use systemd_monitoring_mcp.RateLimit.Floats.{Float}
use systemd_monitoring_mcp.RateLimit.{RateLimiter, check_at}

-- The checks at these offsets, one after the other: how many are admitted, and the limiter after
-- the last.
unfoldable pub run_checks : (f : Float) → RateLimiter f → List ℕ → ℕ × RateLimiter f
run_checks f limiter [] = (0, limiter)
run_checks f limiter (now ∷ rest) =
    let (result, after) = check_at f limiter now in
    let (admitted, last) = run_checks f after rest in
    ((if is_ok result then 1 else 0) + admitted, last)
