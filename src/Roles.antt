-- ===== src/Roles.antt =====
-- The roles of a corporate entity's users (services/garudacorp).
pub mod Roles
pub mod Assign
pub mod Hierarchy
pub mod Delegation
pub mod Reach
pub mod Revocation
mod Tests
