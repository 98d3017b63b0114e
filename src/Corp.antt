-- ===== src/Corp.antt =====
-- The corporate entities and their beneficial owners (services/garudacorp).
pub mod Entities
pub mod Register
pub mod Ubo
pub mod Validate
pub mod Serve
pub mod Founding
pub mod Officers
pub mod Owners
pub mod Unsaved
mod Insertion
mod Tests
