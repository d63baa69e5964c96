-- ===== src/Dogstatsd.antt =====
-- dogstatsd.py: what the server of DogStatsD reports.
pub mod Chunks
pub mod Payload
pub mod Reporter
pub mod Deliveries
pub mod Aggregators
pub mod Address
