-- ===== src/Json/Laws.antt =====
-- Lookup after insertion in a JSON object.
use systemd_monitoring_mcp.Base.{◌≡◌, refl, some, arith, if◌then◌else◌, inl, inr}
use systemd_monitoring_mcp.Base.Order.{Ordering-cases}
use systemd_monitoring_mcp.Text.{Text, text_eq, text_compare}
use systemd_monitoring_mcp.Text.Laws.{text_eq→≡}
use systemd_monitoring_mcp.Text.Order.{text_compare_eq, text_compare_refl}
use systemd_monitoring_mcp.Json.{Json, Fields, end, field, get, insert}

-- Whatever stood under other keys stays.
pub get-insert :
    (k j : Text) (v : Json) (m : Fields)
    → get (insert k v m) j ≡ (if text_eq k j then some v else get m j)
unfolding get insert
get-insert k j v end = refl
get-insert k j v (field i w m) = elim (Ordering-cases (text_compare k i)) [
  | inl e ↦ rw (e, insert, get)
  | inr (inl e) ↦ rw (e, insert, get) (rw (text_compare_eq k i e) (ground arith))
  | inr (inr e) ↦
      rw (e, insert, get)
        (ground (arith, get-insert k j v m, text_eq→≡ i j, text_eq→≡ k j, text_compare_refl i, e))
]
