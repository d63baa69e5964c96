-- ===== src/Forwarder.antt =====
-- transaction.py: the forwarder's queue of transactions.
pub mod Transaction
pub mod Manager
pub mod Flush
pub mod Queue
pub mod Room
pub mod Eviction
pub mod Events
pub mod Running
pub mod Parallelism
pub mod Books
pub mod Accounting
pub mod Order
pub mod Termination
pub mod Prompt
pub mod Drain
pub mod Endings
