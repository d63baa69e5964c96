-- ===== src/Tests.antt =====
-- Runs of the model on concrete inputs, and the theorems at concrete inputs.
mod Forwarder
mod Aggregator
mod Packet
mod Check
mod Config
mod NetworkCheck
mod TailFile
mod Dogstream
mod Emitter
mod Discovery
mod Collector
mod Dogstatsd
mod Run
