-- ===== src/Upload.antt =====
-- The uploads of the editor's photo grid.
pub mod Queue
pub mod Pumped
pub mod Slots
pub mod Covered
pub mod Endings
pub mod Drained
