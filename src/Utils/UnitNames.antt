-- ===== src/Utils/UnitNames.antt =====
-- Unit names that pass validation.
use systemd_monitoring_mcp.Base.{◌≡◌, ap, true, false, some, arith, ok}
use systemd_monitoring_mcp.Text.{Text, is_empty, trim}
use systemd_monitoring_mcp.Text.Laws.{trim_idem}
use systemd_monitoring_mcp.Utils.{normalize_unit, is_valid_unit_name_chars}

-- An accepted unit name is not empty, has allowed characters only and no white space around it,
-- and is what the request gave but for the white space around that; validating it once more
-- changes nothing.
pub normalize_unit_sound :
    (value unit : Text)
    → normalize_unit (some value) ≡ ok (some unit)
    → (unit ≡ trim value)
      × (trim unit ≡ unit)
      × (is_empty unit ≡ false)
      × (is_valid_unit_name_chars unit ≡ true)
      × (normalize_unit (some unit) ≡ ok (some unit))
unfolding normalize_unit
normalize_unit_sound value unit h =
    let same : unit ≡ trim value = ground (arith) in
    (
      same,
      rw same (trim_idem value),
      ground arith,
      ground arith,
      rw (ap trim same, trim_idem value) (rw (← same) (ground arith)),
    )
