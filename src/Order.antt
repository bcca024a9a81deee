-- ===== src/Order.antt =====
-- backend/api/src/modules/order and the order queries of shared/tenancy.
pub mod Repository
pub mod Pricing
pub mod Settlement
pub mod Checkout
pub mod Settled
pub mod Granted
pub mod Renewed
pub mod Kept
pub mod Fulfilled
pub mod Priced
