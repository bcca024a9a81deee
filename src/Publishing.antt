-- ===== src/Publishing.antt =====
-- Publishing an invitation, taking it back, and its expiry: the services of
-- backend/api/src/modules/publishing over the invitations, their history and the orders.
pub mod Entitlements
pub mod Publish
pub mod Unpublish
pub mod Expiry
pub mod Overdue
pub mod Validity
pub mod Published
pub mod Trial
pub mod Gate
pub mod Resumed
pub mod Cleared
