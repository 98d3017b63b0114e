-- ===== src/Hooks.antt =====
-- Webhooks of the developer portal (services/garudaportal): subscriptions, deliveries, the worker
-- that retries them, and their replay.
pub mod Subscriptions
pub mod Deliveries
pub mod Dispatch
pub mod Worker
pub mod Replay
pub mod Settled
pub mod Cycles
pub mod Whole
pub mod Backoff
pub mod Again
pub mod Runs
pub mod Twice
pub mod Delivered
mod Tests
