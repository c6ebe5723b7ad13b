-- ===== src/Pools.antt =====
-- The pools of connections (internal/platform/db): one for each tenant database, made on first use and
-- shared by all requests.
pub mod Cache
pub mod Sharing
