-- ===== src/Users.antt =====
-- The users of the identity service (services/identity/repository).
pub mod Repository
pub mod Indexed
pub mod Nik
pub mod Register
pub mod Initiated
mod Tests
