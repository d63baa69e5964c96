-- ===== src/Check.antt =====
-- checks/__init__.py: the base classes of the checks.
pub mod Store
pub mod Read
pub mod Samples
pub mod Rates
pub mod Run
pub mod Normalize
