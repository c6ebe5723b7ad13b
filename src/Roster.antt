-- ===== src/Roster.antt =====
-- The roster package (internal/roster) and its statements (gen/sqlc/roster).
pub mod Types
pub mod Queries
pub mod Store
pub mod Service
pub mod Invariant
pub mod Requests
pub mod Lists
pub mod Success
