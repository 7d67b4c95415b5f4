-- ===== src/Logs.antt =====
-- domain/tools/logs.rs: the tool `list_logs`.
pub mod Query
pub mod Groups
pub mod Handler
pub mod Summary
pub mod Ranking
pub mod Grouping
pub mod Window
