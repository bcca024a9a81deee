-- ===== src/Slug.antt =====
-- The addresses of invitations.
pub mod Service
pub mod Accepted
pub mod Blocked
pub mod Free
