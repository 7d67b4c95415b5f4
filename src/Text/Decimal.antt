-- ===== src/Text/Decimal.antt =====
-- How integers print.
use systemd_monitoring_mcp.Base.{
  ◌<◌, ◌≡◌, arith, Bool-cases, inl, inr, ℕ, zero, suc, ◌+◌, ◌/◌, ◌%◌, true, false, [], ◌∷◌, ◌++◌,
  ltb,
}
use systemd_monitoring_mcp.Text.{Text}

-- The fuel counts digits, and a number has no more of them than its value and one.
decimal_from : ℕ → ℕ → Text
decimal_from zero n = []
decimal_from (suc fuel) n = elim (ltb n 10) [
  | true ↦ (b'0' + n) ∷ []
  | false ↦ decimal_from fuel (n / 10) ++ (b'0' + n % 10) ∷ []
]

-- `to_string` of an unsigned integer
unfoldable pub decimal : ℕ → Text
unfolding decimal_from
decimal n = decimal_from (suc n) n

-- One unit of fuel more than the value is enough: more fuel prints the same text.
decimal_from_enough : (fuel n : ℕ) → n < fuel → decimal_from (suc fuel) n ≡ decimal_from fuel n
unfolding decimal_from
decimal_from_enough zero n h = absurd (omega arith)
decimal_from_enough (suc fuel) n h = elim (Bool-cases (ltb n 10)) [
  | inl e ↦ rw (decimal_from, e)
  | inr e ↦
      let shorter : n / 10 < fuel = ground (arith, e) in
      rw (decimal_from, e, decimal_from_enough fuel (n / 10) shorter)
]
