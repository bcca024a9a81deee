-- ===== src/Editor.antt =====
-- frontend/web-app/src/editor: the parts of the editor that are functions on what the
-- user arranges and types.
pub mod Reorder
pub mod Autosave
pub mod Accounted
pub mod Saved
pub mod Drained
pub mod Store
pub mod Sender
