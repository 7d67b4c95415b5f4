-- ===== src/Text/Number.antt =====
-- `str::parse` for integers.
use systemd_monitoring_mcp.Base.{
  ℕ, ◌+◌, ◌-◌, ◌*◌, Option, none, some, [], ◌∷◌, leb, ◌==◌, if◌then◌else◌, option_map,
}
use systemd_monitoring_mcp.Base.Int.{ℤ, pos, minus}
use systemd_monitoring_mcp.Text.{Text, is_ascii_digit}

-- The digits that are left, with what the ones before them are worth.
digits_value : ℕ → Text → Option ℕ
digits_value n [] = some n
digits_value n (c ∷ s) = if is_ascii_digit c then digits_value (n * 10 + (c - b'0')) s else none

-- No digits, no number.
unsigned_digits : Text → Option ℕ
unfolding digits_value
unsigned_digits [] = none
unsigned_digits (c ∷ s) = digits_value 0 (c ∷ s)

-- One leading plus sign is accepted.
abbrev strip_plus : Text → Text
strip_plus [] = []
strip_plus (c ∷ s) = if c == b'+' then s else c ∷ s

-- `parse::<T>()` where `max` is the largest value of the unsigned type `T`
unfoldable pub parse_unsigned : ℕ → Text → Option ℕ
unfolding unsigned_digits
parse_unsigned max s = elim (unsigned_digits (strip_plus s)) [
  | none ↦ none
  | some n ↦ if leb n max then some n else none
]

-- The digits after a minus sign, with no second sign
negative_i32 : Text → Option ℤ
unfolding unsigned_digits
negative_i32 s = elim (unsigned_digits s) [
  | none ↦ none
  | some n ↦ if leb n 2_147_483_648 then some (minus n) else none
]

-- `parse::<i32>()`
unfoldable pub parse_i32 : Text → Option ℤ
unfolding negative_i32 parse_unsigned
parse_i32 [] = none
parse_i32 (c ∷ s) =
    if c == b'-' then negative_i32 s else option_map pos (parse_unsigned 2_147_483_647 (c ∷ s))
