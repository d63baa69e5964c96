-- ===== src/Dogstream.antt =====
-- checks/datadog.py: the parsers of log files.
pub mod Order
pub mod Groups
pub mod Grouping
pub mod Aggregation
pub mod Parser
pub mod Kept
pub mod Check
