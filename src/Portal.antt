-- ===== src/Portal.antt =====
-- The developer portal (services/garudaportal): API keys, their owners and their validation.
pub mod Keys
pub mod Generate
pub mod Manage
pub mod Validation
pub mod Admission
pub mod Ownership
pub mod Apps
pub mod AppLife
pub mod Usage
pub mod Endpoint
pub mod Metering
mod Tests
