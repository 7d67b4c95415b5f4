-- ===== src/Utils/Limits.antt =====
-- Limits and choices: what is accepted, what is refused, and what an absent value stands for.
use systemd_monitoring_mcp.Base.{ℕ, ◌≤◌, ◌≡◌, ◌↔◌, arith, Option, none, some, ok, unwrap_or}
use systemd_monitoring_mcp.Utils.{normalize_services_limit}

-- A limit is accepted exactly when it lies between 1 and 1000, and is then passed on unchanged.
services_limit_iff :
    (limit : Option ℕ) (n : ℕ)
    → (normalize_services_limit limit ≡ ok n) ↔ ((unwrap_or limit 200 ≡ n) × (1 ≤ n) × (n ≤ 1000))
unfolding normalize_services_limit
services_limit_iff none n = ground arith
services_limit_iff (some l) n = ground arith
