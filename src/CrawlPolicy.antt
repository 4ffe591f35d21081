-- ===== src/CrawlPolicy.antt =====
-- Evaluation of robots.txt: src/crawl_policy.rs.
pub mod Normalize
pub mod Match
pub mod Bound
pub mod Robots
pub mod Decide
pub mod Report
mod Tests
