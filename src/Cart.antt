-- ===== src/Cart.antt =====
-- The cart service (cart/src/cart): its value objects, requests, checkout rules, storage and
-- operations. A cart is a Redis hash by SKU; that a cart expires after thirty days is left out.
pub mod Types
pub mod Rules
pub mod Service
pub mod Stored
pub mod Bounds
