-- ===== src/Inventory.antt =====
-- The inventory of the catalog service: its tables and operations (catalog/src/inventory) and its
-- event consumer (catalog/src/consumers).
pub mod Tables
pub mod Repository
pub mod Service
pub mod Consumers
pub mod Stock
pub mod Keeping
pub mod Effects
pub mod Reserving
pub mod Closing
pub mod Invariants
pub mod Handling
pub mod Consuming
pub mod Reporting
pub mod Parsing
