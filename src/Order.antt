-- ===== src/Order.antt =====
-- The order service: its data and state machine (order/src/orders/value_objects.rs), rules,
-- repository, creation and cancellation (order/src/orders), and its event consumer
-- (order/src/consumers).
pub mod Types
pub mod Values
pub mod Requests
pub mod Rules
pub mod Repository
pub mod Service
pub mod Creation
pub mod Listing
pub mod Ordering
pub mod Creating
pub mod Consumers
pub mod Status
pub mod Lifecycle
mod Effects
pub mod Progress
pub mod Cancel
pub mod Showing
pub mod Consuming
