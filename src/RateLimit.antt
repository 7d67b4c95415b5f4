-- ===== src/RateLimit.antt =====
-- rate_limit.rs: the policy and the token bucket, over the floating-point numbers of `Float`.
pub mod Floats
pub mod Bucket
pub mod Burst
pub mod Runs
pub mod Exact
pub mod Window
use systemd_monitoring_mcp.Base.{
  ℕ, ◌-◌, ◌==◌, max, Bool, true, false, not, ◌&&◌, leb, if◌then◌else◌, Result, ok, err,
}
use systemd_monitoring_mcp.RateLimit.Floats.{Float}

abbrev pub default_requests_per_second : ℕ
default_requests_per_second = 10

abbrev pub default_burst : ℕ
default_burst = 20

abbrev pub max_requests_per_second : ℕ
max_requests_per_second = 1000000

abbrev pub max_burst : ℕ
max_burst = 1000000

pub record RateLimitPolicy : Type 0 where
  pub requests_per_second : ℕ
  pub burst : ℕ

pub data RateLimitPolicyError : Type 0 where
  invalid_requests_per_second invalid_burst : RateLimitPolicyError

-- `RateLimitPolicy::new`
unfoldable pub new_policy : ℕ → ℕ → Result RateLimitPolicy RateLimitPolicyError
new_policy requests_per_second burst =
    if not (leb 1 requests_per_second && leb requests_per_second max_requests_per_second)
    then err invalid_requests_per_second
    else if not (leb 1 burst && leb burst max_burst)
    then err invalid_burst
    else ok (record { requests_per_second = requests_per_second; burst = burst })

-- `RateLimitPolicy::default`
abbrev pub default_policy : RateLimitPolicy
default_policy = record { requests_per_second = default_requests_per_second; burst = default_burst }

module _ (f : Float) where
  open f use {F, of_u32, as_secs, add, sub, mul, div, minimum, le, ceil_u64}

  pub record BucketState : Type 0 where
    pub tokens : F
    pub last_refill : ℕ

  pub record RateLimiter : Type 0 where
    pub policy : RateLimitPolicy
    pub bucket : BucketState

  -- `RateLimiter::new`
  pub new_limiter : RateLimitPolicy → RateLimiter
  new_limiter policy = record {
    policy = policy;
    bucket = record { tokens = of_u32 policy.burst; last_refill = 0 };
  }

  -- The refill of `check_at`. Durations are nanoseconds, and `saturating_sub` is that of ℕ.
  pub refill : RateLimitPolicy → ℕ → BucketState → BucketState
  refill policy now bucket =
      let elapsed = now - bucket.last_refill in
      if elapsed == 0 then bucket else record {
        tokens =
            minimum (add bucket.tokens (mul (as_secs elapsed) (of_u32 policy.requests_per_second)))
              (of_u32 policy.burst);
        last_refill = now;
      }

  -- The whole seconds after which a rejected request may be tried again
  pub retry_seconds : RateLimitPolicy → BucketState → ℕ
  retry_seconds policy bucket =
      max (ceil_u64 (div (sub (of_u32 1) bucket.tokens) (of_u32 policy.requests_per_second))) 1

  -- `RateLimiter::check_at`, which holds the bucket's lock from its first line to its last
  unfoldable pub check_at : RateLimiter → ℕ → Result (Unit {0}) ℕ × RateLimiter
  unfolding refill retry_seconds
  check_at limiter now =
      let bucket = refill limiter.policy now limiter.bucket in
      if le (of_u32 1) bucket.tokens
      then (
        ok tt,
        record limiter { bucket = record bucket { tokens = sub bucket.tokens (of_u32 1) } },
      )
      else (err (retry_seconds limiter.policy bucket), record limiter { bucket = bucket })
