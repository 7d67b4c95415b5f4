-- ===== src/Systemd.antt =====
-- systemd_client.rs: the parts of the D-Bus and journal client that compute without I/O.
pub mod Scopes
pub mod Messages
pub mod Defaults
pub mod Dependencies
pub mod Bus
pub mod Journal
