-- ===== src/Som/Diff.antt =====
-- Differences of pages: src/som/diff.rs.
pub mod Types
pub mod Elements
pub mod Pages
pub mod Lookup
pub mod Counts
pub mod Summary
pub mod Attrs
pub mod Prices
pub mod Self
pub mod Same
