-- ===== src/TailFile.antt =====
-- utils/tailfile.py: the reader of a log file that grows, is truncated or is replaced.
pub mod Reader
pub mod Lines
pub mod Follow
