-- ===== src/Packet.antt =====
-- aggregator.py: the packets of DogStatsD.
pub mod Split
pub mod Slice
pub mod Rejoin
pub mod Metric
pub mod Event
pub mod Lengths
pub mod ServiceCheck
pub mod Lines
pub mod Submit
