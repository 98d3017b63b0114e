-- ===== src/Deletion.antt =====
-- Deletion requests of the identity service (services/identity): the right to be forgotten.
pub mod Requests
pub mod Serve
pub mod Private
mod Tests
