-- ===== src/Tokens.antt =====
-- backend/api/src/modules/auth/tokens: refresh tokens that rotate, and single-use tokens.
pub mod Refresh
pub mod Rotation
pub mod Theft
pub mod SingleUse
pub mod Redeemed
