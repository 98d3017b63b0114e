-- ===== src/Sign.antt =====
-- The signing service (services/garudasign): certificates, signing requests, signed documents.
pub mod Certificates
pub mod Requests
pub mod Issue
pub mod Documents
pub mod Reads
pub mod Upload
pub mod Signing
pub mod Outcomes
pub mod Consistency
pub mod Once
pub mod OneActive
pub mod CertLife
mod Tests
