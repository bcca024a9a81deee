-- ===== src/Payment.antt =====
-- backend/api/src/modules/payment: the payment rows, and the notifications that settle orders.
pub mod Repository
pub mod Webhook
pub mod Initiation
pub mod Pages
pub mod OnePage
pub mod Kept
pub mod Processed
pub mod Arrivals
pub mod Queued
pub mod Once
pub mod Again
pub mod Queries
pub mod Reconciliation
pub mod Due
pub mod Steps
pub mod Reconciled
pub mod StatusService
pub mod Polled
pub mod Throttled
