-- ===== src/Examples.antt =====
-- The theorems at concrete inputs: a small kit, a small host, and a limiter of five requests a second.
mod Fixtures
mod Protocol
mod Limiter
mod Queries
mod Rows
mod Systemd
mod Journal
mod Bus
mod Containers
