-- ===== src/RateLimit/Floats.antt =====
-- The floating-point numbers that the bucket computes with: f64, of which the code uses the
-- operations below. `FloatLaws` holds what IEEE 754 arithmetic promises of them.
use systemd_monitoring_mcp.Base.{ℕ, suc, ◌^◌, ◌<◌, ◌≡◌, Bool, true, leb}

pub record Float : Type 1 where
  pub F : Type 0
  -- `f64::from` of a u32, and `Duration::as_secs_f64` of nanoseconds
  pub of_u32 : ℕ → F
  pub as_secs : ℕ → F
  pub add : F → F → F
  pub sub : F → F → F
  pub mul : F → F → F
  pub div : F → F → F
  -- `f64::min`
  pub minimum : F → F → F
  -- `a <= b`, false if one of them is not a number
  pub le : F → F → Bool
  -- `ceil() as u64`
  pub ceil_u64 : F → ℕ

module _ (f : Float) where
  open f use {F, of_u32, as_secs, add, sub, mul, minimum, le}

  -- A number, and not below zero.
  abbrev pub IsNonneg : F → Type 0
  IsNonneg a = le (of_u32 0) a ≡ true

  pub record FloatLaws : Type 0 where
    pub le_trans : (a b c : F) → le a b ≡ true → le b c ≡ true → le a c ≡ true
    -- u32 values are exact.
    pub le-of_u32 : (m n : ℕ) → m < 2 ^ 32 → n < 2 ^ 32 → le (of_u32 m) (of_u32 n) ≡ leb m n
    pub sub-of_u32 : (n : ℕ) → suc n < 2 ^ 32 → sub (of_u32 (suc n)) (of_u32 1) ≡ of_u32 n
    -- Sums, and products of a finite duration and a u32, of nonnegative numbers are nonnegative.
    pub add_nonneg : (a b : F) → IsNonneg a → IsNonneg b → IsNonneg (add a b)
    pub mul_nonneg : (d n : ℕ) → IsNonneg (mul (as_secs d) (of_u32 n))
    pub minimum_nonneg : (a b : F) → IsNonneg a → IsNonneg b → IsNonneg (minimum a b)
    pub minimum_le : (a b : F) → IsNonneg a → IsNonneg b → le (minimum a b) b ≡ true
    -- A number of at least one loses one.
    pub sub_nonneg : (a : F) → le (of_u32 1) a ≡ true → IsNonneg (sub a (of_u32 1))
    pub sub_le : (a : F) → le (of_u32 1) a ≡ true → le (sub a (of_u32 1)) a ≡ true
