-- ===== src/Config/Bounds.antt =====
-- What an accepted configuration promises to the rest of the server.
use systemd_monitoring_mcp.Base.{
  ℕ, ◌≤◌, ◌<◌, ◌^◌, ◌≡◌, Option, none, some, arith, subst, ok, true, ltb, is_ok, Result-cases,
  ok_or, inl, inr, Bool-cases, unwrap_or,
}
use systemd_monitoring_mcp.Text.{Text, text, byte_len}
use systemd_monitoring_mcp.RateLimit.{
  default_requests_per_second, default_burst, max_requests_per_second, max_burst,
}
use systemd_monitoring_mcp.Config.{
  RawConfig, Config, ConfigError, min_api_token_length, parse_bounded_u32, parse_port, given,
  bind_socket, parse_config, parse_with_token, read_rate, read_burst, rate_limit_policy,
  invalid_rate_limit_requests_per_second, invalid_rate_limit_burst, missing_api_token,
}

parse_bounded-bounds :
    (raw : Option Text) (default maximum n : ℕ) (error : ConfigError)
    → 1 ≤ default
    → default ≤ maximum
    → parse_bounded_u32 raw default maximum error ≡ ok n
    → (1 ≤ n) × (n ≤ maximum)
unfolding parse_bounded_u32
parse_bounded-bounds none default maximum n error hl hu h = ground arith
parse_bounded-bounds (some raw) default maximum n error hl hu h = ground arith

read_rate-bounds :
    (raw : RawConfig) (n : ℕ) → read_rate raw ≡ ok n → (1 ≤ n) × (n ≤ max_requests_per_second)
read_rate-bounds raw n h =
    parse_bounded-bounds raw.rate_limit_requests_per_second default_requests_per_second
      max_requests_per_second n invalid_rate_limit_requests_per_second (omega arith) (omega arith) h

read_burst-bounds : (raw : RawConfig) (n : ℕ) → read_burst raw ≡ ok n → (1 ≤ n) × (n ≤ max_burst)
read_burst-bounds raw n h =
    parse_bounded-bounds raw.rate_limit_burst default_burst max_burst n invalid_rate_limit_burst
      (omega arith) (omega arith) h

parse_port-bound : (raw : Option Text) (port : ℕ) → parse_port raw ≡ ok port → port < 2 ^ 16
unfolding parse_port
parse_port-bound none port h = ground arith
parse_port-bound (some raw) port h = ground arith

policy_ok :
    (config : Config)
    → (1 ≤ config.rate_limit_requests_per_second)
    → (config.rate_limit_requests_per_second ≤ max_requests_per_second)
    → (1 ≤ config.rate_limit_burst)
    → (config.rate_limit_burst ≤ max_burst)
    → is_ok (rate_limit_policy config) ≡ true
unfolding rate_limit_policy
policy_ok config a b c d = ground arith

-- The token is the given one without the white space around it, of at least 16 bytes, which is what
-- the code counts, so that it may have fewer characters than the 16 that the documents ask for; the
-- port fits 16 bits; the socket parser takes the address; and the rate limits make a policy.
pub record IsSound {ℓ} {SocketAddr : Type ℓ} (parse_socket_addr : Text → Option SocketAddr)
    (raw : RawConfig) (config : Config) : Type 0 where
  pub token_given : given raw.api_token ≡ some config.api_token
  pub token_long : 16 ≤ byte_len config.api_token
  pub port_fits : config.bind_port < 2 ^ 16
  pub binds : is_ok (bind_socket parse_socket_addr config) ≡ true
  pub has_policy : is_ok (rate_limit_policy config) ≡ true

module _ {ℓ} {SocketAddr : Type ℓ} (parse_socket_addr : Text → Option SocketAddr) (raw : RawConfig)
    (config : Config) where
  -- The checks after that of the token
  with_token :
      (token : Text)
      → ok_or (given raw.api_token) missing_api_token ≡ ok token
      → parse_with_token parse_socket_addr raw token ≡ ok config
      → IsSound parse_socket_addr raw config
  unfolding parse_with_token
  with_token token at h = elim (Bool-cases (ltb (byte_len token) min_api_token_length)) [
    | inl short ↦ cc (rw short at h)
    | inr long ↦ elim (Result-cases (parse_port raw.bind_port)) [
      | inr (e, bad) ↦ cc (rw (long, bad) at h)
      | inl (port, at_port) ↦ elim (Result-cases (read_rate raw)) [
        | inr (e, bad) ↦ cc (rw (long, at_port, bad) at h)
        | inl (rate, at_rate) ↦ elim (Result-cases (read_burst raw)) [
          | inr (e, bad) ↦ cc (rw (long, at_port, at_rate, bad) at h)
          | inl (burst, at_burst) ↦
              let c : Config = record {
                api_token = token;
                bind_addr = unwrap_or (given raw.bind_addr) (text "127.0.0.1");
                bind_port = port;
                rate_limit_requests_per_second = rate;
                rate_limit_burst = burst;
              } in
              let rates = read_rate-bounds raw rate at_rate in
              let bursts = read_burst-bounds raw burst at_burst in
              elim (Result-cases (bind_socket parse_socket_addr c)) [
                | inr (e, bad) ↦ cc (rw (long, at_port, at_rate, at_burst, bad) at h)
                | inl (socket, at_socket) ↦
                    let same : ok c ≡ ok config =
                      rw (long, at_port, at_rate, at_burst, at_socket) at h in
                    let equal : c ≡ config = cc same in
                    subst (IsSound parse_socket_addr raw) equal (record {
                      token_given = ground arith;
                      token_long = ground arith;
                      port_fits = parse_port-bound raw.bind_port port at_port;
                      binds = rw at_socket;
                      has_policy = policy_ok c rates.0 rates.1 bursts.0 bursts.1;
                    })
              ]
        ]
      ]
    ]
  ]

  -- What `parse` accepts is a sound configuration: the token is the given one without the white space
  -- around it, of at least 16 bytes in UTF-8, which need not be the 16 characters that the documents
  -- ask for; the port fits 16 bits; the socket parser takes the address; and the rate limits make a
  -- policy, so that the `expect` of `rate_limit_policy` never panics.
  pub parse_config-IsSound :
      parse_config parse_socket_addr raw ≡ ok config → IsSound parse_socket_addr raw config
  unfolding parse_config
  parse_config-IsSound h = elim (Result-cases (ok_or (given raw.api_token) missing_api_token)) [
    | inr (e, bad) ↦ cc (rw bad at h)
    | inl (token, at) ↦ with_token token at (rw at at h)
  ]
