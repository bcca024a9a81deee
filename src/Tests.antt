-- ===== src/Tests.antt =====
-- Concrete inputs for the theorems, and a sorted set that meets the interface of the limiter's.
pub mod Redis
pub mod RateLimit
pub mod Data
pub mod Status
pub mod Order
pub mod Payment
pub mod Checkout
pub mod Tokens
pub mod Publishing
pub mod Worker
pub mod Initiation
pub mod Editor
pub mod Admin
pub mod Upload
pub mod Slug
pub mod Schema
pub mod Queries
pub mod Midtrans
