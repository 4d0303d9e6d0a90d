-- ===== src/Payment.antt =====
-- The payment service: its ledger (payment/src/ledger), gateway (payment/src/gateway), rules and
-- operations (payment/src/payments) and event consumers (payment/src/consumers).
pub mod Types
pub mod Repository
pub mod Rules
pub mod Gateway
pub mod Breaker
pub mod Breaking
pub mod Lookup
pub mod Records
pub mod Session
pub mod Service
pub mod OnTx
pub mod Consumers
pub mod Keeps
pub mod Effects
mod Recording
pub mod Lifecycle
mod Ids
mod Refinement
mod Writes
pub mod Operations
mod Handling
pub mod Dispatch
pub mod Outcomes
pub mod History
pub mod Consuming
pub mod Validation
pub mod Balance
