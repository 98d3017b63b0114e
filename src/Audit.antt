-- ===== src/Audit.antt =====
-- The audit service (services/garudaaudit): an append-only log of events, and what is read from it.
pub mod Validate
pub mod Events
pub mod Query
pub mod Serve
pub mod Pages
pub mod Recordable
pub mod Append
pub mod Stats
mod Tests
