-- ===== src/Info.antt =====
-- The data-sharing service (services/garudainfo): consents and the reads that they allow.
pub mod Validate
pub mod Consents
pub mod Grants
pub mod Acceptable
pub mod Lifecycle
pub mod Revocation
pub mod Disclosure
pub mod Expiry
pub mod Days
mod Tests
