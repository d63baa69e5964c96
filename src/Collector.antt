-- ===== src/Collector.antt =====
-- checks/collector.py and the statuses of checks/check_status.py.
pub mod Payload
pub mod Merged
pub mod Deletion
pub mod Operations
pub mod Statuses
pub mod Checks
pub mod Collected
pub mod Intervals
pub mod Schedule
pub mod Populate
pub mod Run
pub mod Kept
pub mod Entries
pub mod Additions
pub mod Stored
pub mod Emitted
