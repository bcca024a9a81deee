-- ===== src/Status.antt =====
-- backend/api/src/shared/invitation-status/invitation-status.service.ts
pub mod Rules
pub mod Edges
pub mod Service
pub mod Laws
pub mod Frame
pub mod Journey
