-- ===== src/Tests.antt =====
-- The theorems at concrete inputs.
mod BreakerTests
mod CartTests
mod CreationTests
mod InventoryTests
mod JobsTests
mod OrderTests
mod OutboxTests
mod PagingTests
mod PaymentTests
mod RulesTests
