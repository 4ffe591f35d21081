-- ===== src/Som.antt =====
-- The semantic object model of a page: src/som/.
pub mod Types
pub mod Filter
pub mod ElementId
pub mod Diff
mod Tests
