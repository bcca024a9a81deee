-- ===== src/Schema.antt =====
-- packages/schema/src/resolver: the fields that an invitation must fill before it is published.
pub mod Resolve
pub mod Completeness
pub mod Empty
pub mod Filled
pub mod Registry
pub mod Ready
