-- ===== src/Emitter.antt =====
-- emitter.py: the sanitising of the collector's payload and http_emitter.
pub mod Items
pub mod Sanitize
pub mod Clean
pub mod Fixed
pub mod Keys
pub mod Types
pub mod Send
pub mod Posted
