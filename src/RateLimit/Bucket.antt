-- ===== src/RateLimit/Bucket.antt =====
-- The bucket's invariant, and what each admission decision does.
use systemd_monitoring_mcp.Base.{
  ℕ, ◌-◌, ◌==◌, ◌≤◌, max, ◌≡◌, inl, inr, true, arith, err, Bool-cases,
}
use systemd_monitoring_mcp.RateLimit.Floats.{Float, FloatLaws, IsNonneg}
use systemd_monitoring_mcp.RateLimit.{
  RateLimitPolicy, max_burst, BucketState, RateLimiter, new_limiter, refill, retry_seconds,
  check_at,
}

module _ (f : Float) (laws : FloatLaws f) where
  open f use {F, of_u32, as_secs, add, sub, mul, minimum, le}

  -- Between nothing and the burst.
  pub record IsFilled (policy : RateLimitPolicy) (bucket : BucketState f) : Type 0 where
    pub nonneg : IsNonneg f bucket.tokens
    pub capped : le bucket.tokens (of_u32 policy.burst) ≡ true

  burst-IsNonneg : (n : ℕ) → n ≤ max_burst → IsNonneg f (of_u32 n)
  burst-IsNonneg n h = ground (arith, laws.le-of_u32 0 n (omega arith) (omega arith))

  pub new_limiter-IsFilled :
      (policy : RateLimitPolicy)
      → policy.burst ≤ max_burst
      → IsFilled policy (new_limiter f policy).bucket
  unfolding new_limiter
  new_limiter-IsFilled policy h = record {
    nonneg = burst-IsNonneg policy.burst h;
    capped = ground (arith, laws.le-of_u32 policy.burst policy.burst (omega arith) (omega arith));
  }

  refill-IsFilled :
      (policy : RateLimitPolicy) (now : ℕ) (bucket : BucketState f)
      → policy.burst ≤ max_burst
      → IsFilled policy bucket
      → IsFilled policy (refill f policy now bucket)
  unfolding refill
  refill-IsFilled policy now bucket h v =
      let more = mul (as_secs (now - bucket.last_refill)) (of_u32 policy.requests_per_second) in
      let sum = laws.add_nonneg bucket.tokens more v.nonneg (laws.mul_nonneg _ _) in
      let room = burst-IsNonneg policy.burst h in
      elim (Bool-cases ((now - bucket.last_refill) == 0)) [
        | inl e ↦ rw e v
        | inr e ↦ rw e (record {
          nonneg = laws.minimum_nonneg _ _ sum room;
          capped = laws.minimum_le _ _ sum room;
        })
      ]

  -- With a burst within its bound, every decision, admission or rejection, on a bucket that holds
  -- between no tokens and the burst leaves as much.
  pub check_at-IsFilled :
      (limiter : RateLimiter f) (now : ℕ)
      → limiter.policy.burst ≤ max_burst
      → IsFilled limiter.policy limiter.bucket
      → IsFilled limiter.policy (check_at f limiter now).1.bucket
  unfolding check_at
  check_at-IsFilled limiter now h v =
      let bucket = refill f limiter.policy now limiter.bucket in
      let w = refill-IsFilled limiter.policy now limiter.bucket h v in
      elim (Bool-cases (le (of_u32 1) bucket.tokens)) [
        | inl e ↦ rw e (record {
          nonneg = laws.sub_nonneg bucket.tokens e;
          capped = laws.le_trans _ _ _ (laws.sub_le bucket.tokens e) w.capped;
        })
        | inr e ↦ rw e w
      ]

module _ (f : Float) where
  open f use {of_u32, sub, le}

  refill_again :
      (policy : RateLimitPolicy) (now : ℕ) (bucket : BucketState f)
      → refill f policy now (refill f policy now bucket) ≡ refill f policy now bucket
  unfolding refill
  refill_again policy now bucket = elim (Bool-cases ((now - bucket.last_refill) == 0)) [
    | inl e ↦ rw (e, e)
    | inr e ↦ rw e (ground arith)
  ]

  -- A rejection waits at least a second, and consumes nothing: the same check again, at the same
  -- offset, gives the same answer and the same limiter.
  pub check_at_rejected :
      (limiter : RateLimiter f) (now retry : ℕ)
      → (check_at f limiter now).0 ≡ err retry
      → (1 ≤ retry) × (check_at f (check_at f limiter now).1 now ≡ check_at f limiter now)
  unfolding check_at retry_seconds
  check_at_rejected limiter now retry h =
      let bucket = refill f limiter.policy now limiter.bucket in
      elim (Bool-cases (le (of_u32 1) bucket.tokens)) [
        | inl e ↦ cc (rw e at h)
        | inr e ↦
            (ground (arith, rw e at h), rw (e, refill_again limiter.policy now limiter.bucket, e))
      ]

  -- The clock of the bucket never runs backwards, whatever offset a check is made at.
  pub last_refill-check_at :
      (limiter : RateLimiter f) (now : ℕ)
      → (check_at f limiter now).1.bucket.last_refill ≡ max limiter.bucket.last_refill now
  unfolding check_at refill
  last_refill-check_at limiter now = ground arith
