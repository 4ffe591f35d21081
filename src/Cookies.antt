-- ===== src/Cookies.antt =====
-- The cookie jar of the CDP layer: src/cdp/cookies.rs.
pub mod Dates
pub mod Matching
pub mod SameSite
pub mod Jar
pub mod Header
mod Tests
