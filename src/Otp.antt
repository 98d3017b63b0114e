-- ===== src/Otp.antt =====
-- One-time passwords of the identity service (services/identity/otp/service.go).
pub mod Redis
pub mod Codes
pub mod Session
pub mod Refine
pub mod Issue
pub mod Lockout
pub mod Apart
pub mod Memory
mod Tests
