-- ===== src/Policy.antt =====
-- The policy engine of packages/golib/policy.
pub mod Match
pub mod Globs
pub mod Engine
pub mod Decision
mod Tests
