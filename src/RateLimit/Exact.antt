-- ===== src/RateLimit/Exact.antt =====
-- Arithmetic that meets the laws: numbers in units of 1e-9, in which the bucket computes without
-- rounding, but for quotients, which are rounded up.
use systemd_monitoring_mcp.Base.{ℕ, ◌+◌, ◌-◌, ◌*◌, ◌/◌, min, leb, arith}
use systemd_monitoring_mcp.RateLimit.Floats.{Float, FloatLaws}

abbrev pub nano : ℕ
nano = 1000000000

abbrev pub exact : Float
exact = record {
  F = ℕ;
  of_u32 = λ n. n * nano;
  as_secs = λ d. d;
  add = λ a b. a + b;
  sub = λ a b. a - b;
  mul = λ a b. a * b / nano;
  div = λ a b. (a * nano + b - 1) / b;
  minimum = λ a b. min a b;
  le = leb;
  ceil_u64 = λ a. (a + nano - 1) / nano;
}

pub exact-FloatLaws : FloatLaws exact
exact-FloatLaws = record {
  le_trans = λ a b c h k. ground arith;
  le-of_u32 = λ m n h k. ground arith;
  sub-of_u32 = λ n h. omega arith;
  add_nonneg = λ a b h k. ground arith;
  mul_nonneg = λ d n. ground arith;
  minimum_nonneg = λ a b h k. ground arith;
  minimum_le = λ a b h k. ground arith;
  sub_nonneg = λ a h. ground arith;
  sub_le = λ a h. ground arith;
}
