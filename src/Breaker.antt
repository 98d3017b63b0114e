-- ===== src/Breaker.antt =====
-- The circuit breaker of packages/golib/circuitbreaker.
pub mod Basic
pub mod Advanced
pub mod Sound
pub mod Cycle
pub mod Load
pub mod Recovery
mod Tests
