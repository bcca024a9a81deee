-- ===== src/RateLimit.antt =====
-- backend/api/src/shared/rate-limit: the sliding-window limiter and its escalating blocks.
pub mod Policy
pub mod SortedSet
pub mod Limiter
pub mod Window
pub mod Sliding
pub mod Retry
