-- ===== src/Admin.antt =====
-- The back office.
pub mod Refund
pub mod Refunded
pub mod RefundOnce
