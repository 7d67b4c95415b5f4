-- ===== src/Timers.antt =====
-- domain/tools/timers.rs: the tool `list_timers`.
pub mod Params
pub mod Items
pub mod Order
pub mod Summary
pub mod Triage
pub mod Handler
