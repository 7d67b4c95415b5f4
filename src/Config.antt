-- ===== src/Config.antt =====
-- config.rs: the configuration from the environment's variables. The parser of socket addresses is
-- the standard library's: an argument that gives the address, of whatever type, or nothing.
pub mod Bounds
use systemd_monitoring_mcp.Base.{
  ℕ, ◌^◌, ◌-◌, ◌==◌, ◌||◌, ◌++◌, not, Option, none, some, ltb, if◌then◌else◌, option_map, keep_if,
  unwrap_or, Result, ok, err, ◌>>=◌, map_err, ok_or,
}
use systemd_monitoring_mcp.Text.{Text, text, trim, is_empty, byte_len}
use systemd_monitoring_mcp.Text.Number.{parse_unsigned}
use systemd_monitoring_mcp.Text.Decimal.{decimal}
use systemd_monitoring_mcp.RateLimit.{
  default_requests_per_second, default_burst, max_requests_per_second, max_burst, RateLimitPolicy,
  RateLimitPolicyError, new_policy,
}

abbrev pub min_api_token_length : ℕ
min_api_token_length = 16

pub record RawConfig : Type 0 where
  pub api_token : Option Text
  pub bind_addr : Option Text
  pub bind_port : Option Text
  pub rate_limit_requests_per_second : Option Text
  pub rate_limit_burst : Option Text

pub record Config : Type 0 where
  pub api_token : Text
  pub bind_addr : Text
  pub bind_port : ℕ
  pub rate_limit_requests_per_second : ℕ
  pub rate_limit_burst : ℕ

pub data ConfigError : Type 0 where
  missing_api_token token_too_short invalid_port invalid_socket : ConfigError
  invalid_rate_limit_requests_per_second invalid_rate_limit_burst : ConfigError

-- `value.parse::<u32>()` and `value.parse::<u16>()`
abbrev u32_max : ℕ
u32_max = 2 ^ 32 - 1

abbrev u16_max : ℕ
u16_max = 2 ^ 16 - 1

unfoldable pub parse_bounded_u32 : Option Text → ℕ → ℕ → ConfigError → Result ℕ ConfigError
unfolding trim parse_unsigned
parse_bounded_u32 none default maximum error = ok default
parse_bounded_u32 (some raw) default maximum error = do
  value ← ok_or (parse_unsigned u32_max (trim raw)) error
  if value == 0 || ltb maximum value then err error else ok value

-- `.as_deref().map(str::trim).filter(|value| !value.is_empty())`
abbrev pub given : Option Text → Option Text
given value = keep_if (λ s. not (is_empty s)) (option_map trim value)

unfoldable pub parse_port : Option Text → Result ℕ ConfigError
unfolding parse_unsigned
parse_port none = ok 8080
parse_port (some value) = ok_or (parse_unsigned u16_max value) invalid_port

abbrev pub read_rate : RawConfig → Result ℕ ConfigError
read_rate raw =
    parse_bounded_u32 raw.rate_limit_requests_per_second default_requests_per_second
      max_requests_per_second invalid_rate_limit_requests_per_second

abbrev pub read_burst : RawConfig → Result ℕ ConfigError
read_burst raw =
    parse_bounded_u32 raw.rate_limit_burst default_burst max_burst invalid_rate_limit_burst

module _ {ℓ} {SocketAddr : Type ℓ} (parse_socket_addr : Text → Option SocketAddr) where
  unfoldable pub bind_socket : Config → Result SocketAddr ConfigError
  unfolding decimal
  bind_socket config =
      ok_or (parse_socket_addr (config.bind_addr ++ text ":" ++ decimal config.bind_port))
        invalid_socket

  -- Everything after the check that there is a token
  unfoldable pub parse_with_token : RawConfig → Text → Result Config ConfigError
  unfolding byte_len parse_port parse_bounded_u32 bind_socket
  parse_with_token raw api_token =
      if ltb (byte_len api_token) min_api_token_length then err token_too_short else do
        let bind_addr = unwrap_or (given raw.bind_addr) (text "127.0.0.1")
        bind_port ← parse_port raw.bind_port
        rate_limit_requests_per_second ← read_rate raw
        rate_limit_burst ← read_burst raw
        let config : Config = record {
          api_token = api_token;
          bind_addr = bind_addr;
          bind_port = bind_port;
          rate_limit_requests_per_second = rate_limit_requests_per_second;
          rate_limit_burst = rate_limit_burst;
        }
        _ ← bind_socket config
        ok config

  unfoldable pub parse_config : RawConfig → Result Config ConfigError
  unfolding trim
  parse_config raw = do
    api_token ← ok_or (given raw.api_token) missing_api_token
    parse_with_token raw api_token

-- `rate_limit_policy`, before its `expect`, which panics on an error
unfoldable pub rate_limit_policy : Config → Result RateLimitPolicy RateLimitPolicyError
unfolding new_policy
rate_limit_policy config = new_policy config.rate_limit_requests_per_second config.rate_limit_burst
