-- ===== src/Discovery.antt =====
-- utils/service_discovery: the templates of checks for the containers of a host.
pub mod Image
pub mod Store
pub mod Refresh
pub mod Caching
