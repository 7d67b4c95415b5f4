-- ===== src/RateLimit/Window.antt =====
-- The rate that a limiter admits, and when a rejected request gets in, computed without rounding.
use systemd_monitoring_mcp.Base.{
  ℕ, All, ◌+◌, ◌-◌, ◌*◌, ◌/◌, ◌≤◌, ◌<◌, ◌≡◌, ap, subst, List, [], ◌∷◌, arith, true, false,
  Bool-cases, inl, inr, leb, is_ok, if◌then◌else◌, err, ok, max, ◌==◌,
}
use systemd_monitoring_mcp.RateLimit.{
  RateLimitPolicy, BucketState, RateLimiter, refill, retry_seconds, check_at,
}
use systemd_monitoring_mcp.RateLimit.Runs.{run_checks}
use systemd_monitoring_mcp.RateLimit.Bucket.{last_refill-check_at, check_at_rejected}
use systemd_monitoring_mcp.RateLimit.Exact.{exact, nano}

-- Tokens in units of 1e-9, and the refill that a span of nanoseconds is worth.
abbrev level : RateLimiter exact → ℕ
level limiter = limiter.bucket.tokens

abbrev worth : RateLimiter exact → ℕ → ℕ
worth limiter d = d * limiter.policy.requests_per_second

product_exact : (d r : ℕ) → d * (r * nano) / nano ≡ d * r
product_exact d r = omega arith

refill_budget :
    (limiter : RateLimiter exact) (now : ℕ)
    → (refill exact limiter.policy now limiter.bucket).tokens
        + worth limiter limiter.bucket.last_refill
      ≤ level limiter + worth limiter (refill exact limiter.policy now limiter.bucket).last_refill
unfolding refill
refill_budget limiter now = elim (Bool-cases ((now - limiter.bucket.last_refill) == 0)) [
  | inl e ↦ rw e (omega arith)
  | inr e ↦
      let spent = now - limiter.bucket.last_refill in
      let late : now ≡ limiter.bucket.last_refill + spent = ground (arith, e) in
      rw e (grind (arith, product_exact spent limiter.policy.requests_per_second))
]

-- What one check spends and leaves is covered by what there was and the time that went by.
check_at_budget :
    (limiter : RateLimiter exact) (now : ℕ)
    → (if is_ok (check_at exact limiter now).0 then 1 else 0) * nano
        + level (check_at exact limiter now).1
        + worth limiter limiter.bucket.last_refill
      ≤ level limiter + worth limiter (check_at exact limiter now).1.bucket.last_refill
unfolding check_at
check_at_budget limiter now =
    elim (Bool-cases (leb nano (refill exact limiter.policy now limiter.bucket).tokens)) [
      | inl e ↦ rw e (ground (arith, e, refill_budget limiter now))
      | inr e ↦ rw e (omega (arith, refill_budget limiter now))
    ]

policy-check_at :
    (limiter : RateLimiter exact) (now : ℕ) → (check_at exact limiter now).1.policy ≡ limiter.policy
unfolding check_at
policy-check_at limiter now = ground arith

run_checks_budget :
    (limiter : RateLimiter exact) (times : List ℕ) (latest : ℕ)
    → limiter.bucket.last_refill ≤ latest
    → All (λ t. t ≤ latest) times
    → (run_checks exact limiter times).0 * nano + worth limiter limiter.bucket.last_refill
      ≤ level limiter + worth limiter latest
unfolding run_checks
run_checks_budget limiter [] latest h k = grind arith
run_checks_budget limiter (now ∷ rest) latest h k =
    let after = (check_at exact limiter now).1 in
    let later = last_refill-check_at exact limiter now in
    let ih = run_checks_budget after rest latest (omega (arith, later)) k.1 in
    let same = λ (d : ℕ).
      ap (λ (p : RateLimitPolicy). d * p.requests_per_second) (policy-check_at limiter now) in
    omega (arith, check_at_budget limiter now, ih, same latest, same after.bucket.last_refill)

-- From a limiter that holds at most its burst, requests at any offsets up to `span` nanoseconds after
-- the last refill, in whatever order they come: the admitted ones are at most the burst and what the
-- rate allows in the span, computed without rounding.
pub run_checks-le-window :
    (limiter : RateLimiter exact) (times : List ℕ) (span : ℕ)
    → level limiter ≤ limiter.policy.burst * nano
    → All (λ t. t ≤ limiter.bucket.last_refill + span) times
    → (run_checks exact limiter times).0 * nano
      ≤ limiter.policy.burst * nano + span * limiter.policy.requests_per_second
run_checks-le-window limiter times span h k =
    let last = limiter.bucket.last_refill in
    grind (arith, run_checks_budget limiter times (last + span) (omega arith) k)

ceil_div : (a b : ℕ) → 0 < b → a ≤ (a + b - 1) / b * b
ceil_div a b h = grind arith

mul_le : (a b c : ℕ) → a ≤ b → a * c ≤ b * c
mul_le a b c h = grind arith

-- The wait in nanoseconds, at the rate, is worth the tokens that are missing.
wait_covers :
    (missing rate : ℕ)
    → 0 < rate
    → missing
      ≤ max (((missing * nano + rate * nano - 1) / (rate * nano) + nano - 1) / nano) 1 * nano * rate
wait_covers missing rate h =
    let d = (missing * nano + rate * nano - 1) / (rate * nano) in
    let enough : missing * nano ≤ d * (rate * nano) =
      ceil_div (missing * nano) (rate * nano) (omega arith) in
    let fewer : missing ≤ d * rate = omega arith in
    let c = (d + nano - 1) / nano in
    let whole : d ≤ c * nano = ceil_div d nano (omega arith) in
    let scaled = mul_le d (c * nano) rate whole in
    let more = mul_le (c * nano) (max c 1 * nano) rate (omega arith) in omega arith

refill_wait :
    (limiter : RateLimiter exact) (now : ℕ)
    → limiter.bucket.last_refill ≤ now
    → (refill exact limiter.policy now limiter.bucket).last_refill ≡ now
unfolding refill
refill_wait limiter now h = ground arith

admitted_after :
    (limiter : RateLimiter exact) (wait : ℕ)
    → 0 < wait
    → 0 < limiter.policy.burst
    → nano ≤ level limiter + worth limiter wait
    → is_ok (check_at exact limiter (limiter.bucket.last_refill + wait)).0 ≡ true
unfolding check_at refill
admitted_after limiter wait hw hb h =
    let elapsed : limiter.bucket.last_refill + wait - limiter.bucket.last_refill ≡ wait =
      omega arith in
    rw elapsed (ground (arith, product_exact wait limiter.policy.requests_per_second))

check_at_low :
    (limiter : RateLimiter exact) (now : ℕ)
    → leb nano (refill exact limiter.policy now limiter.bucket).tokens ≡ false
    → check_at exact limiter now ≡ (
      err (retry_seconds exact limiter.policy (refill exact limiter.policy now limiter.bucket)),
      record limiter { bucket = refill exact limiter.policy now limiter.bucket },
    )
unfolding check_at
check_at_low limiter now e = rw e

check_at_high :
    (limiter : RateLimiter exact) (now : ℕ)
    → leb nano (refill exact limiter.policy now limiter.bucket).tokens ≡ true
    → (check_at exact limiter now).0 ≡ ok tt
unfolding check_at
check_at_high limiter now e = rw e

delay_covers :
    (policy : RateLimitPolicy) (bucket : BucketState exact)
    → 0 < policy.requests_per_second
    → nano - bucket.tokens ≤ retry_seconds exact policy bucket * nano * policy.requests_per_second
unfolding retry_seconds
delay_covers policy bucket h = wait_covers (nano - bucket.tokens) policy.requests_per_second h

-- A request that was rejected is admitted when the announced delay has passed, if no other request
-- came in between and the clock had not run backwards, with a rate and a burst of at least one and
-- computed without rounding.
pub retry_admitted :
    (limiter : RateLimiter exact) (now retry : ℕ)
    → 0 < limiter.policy.requests_per_second
    → 0 < limiter.policy.burst
    → limiter.bucket.last_refill ≤ now
    → (check_at exact limiter now).0 ≡ err retry
    → is_ok (check_at exact (check_at exact limiter now).1 (now + retry * nano)).0 ≡ true
retry_admitted limiter now retry hr hb hl h =
    let bucket = refill exact limiter.policy now limiter.bucket in
    let limiter' : RateLimiter exact = record limiter { bucket = bucket } in
    elim (Bool-cases (leb nano bucket.tokens)) [
      | inl e ↦ cc (check_at_high limiter now e)
      | inr e ↦
          let low = check_at_low limiter now e in
          let delay : retry_seconds exact limiter.policy bucket ≡ retry = cc low in
          let covers = rw delay at (delay_covers limiter.policy bucket hr) in
          let positive = (check_at_rejected exact limiter now retry h).0 in
          rw low (
            subst (λ t. is_ok (check_at exact limiter' (t + retry * nano)).0 ≡ true)
              (refill_wait limiter now hl)
              (admitted_after limiter' (retry * nano) (omega arith) hb (omega (arith, covers))))
    ]
