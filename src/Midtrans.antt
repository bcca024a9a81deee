-- ===== src/Midtrans.antt =====
-- backend/api/src/modules/payment/midtrans: the provider's notifications and the answers to queries.
pub mod Gateway
pub mod Rule
pub mod Formats
pub mod Signed
pub mod Fulfilled
