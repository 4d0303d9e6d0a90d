-- ===== src/Consumer.antt =====
-- The event consumer of shared/src/events/consumer.rs, with the table of processed events
-- (shared/src/outbox/processed.rs) and the counters of shared/src/events/metrics.rs.
pub mod Errors
pub mod Metrics
pub mod Loop
pub mod Rule
pub mod Attempt
mod Offset
mod Lasting
pub mod Service
pub mod Accounting
pub mod Redelivery
pub mod Bounds
pub mod Backoff
pub use Errors.*
