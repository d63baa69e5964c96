-- ===== src/NetworkCheck.antt =====
-- checks/network_checks.py: the checks that run in a pool of threads.
pub mod Window
pub mod Levels
pub mod Instance
pub mod Pool
pub mod Tracks
pub mod Jobs
pub mod Results
pub mod Restart
