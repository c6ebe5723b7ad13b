-- ===== src/Identity.antt =====
-- The identity package (internal/identity) and its statements (gen/sqlc/identity): the look-up that
-- attendance, leave and roster take of it.
pub mod Types
pub mod Queries
pub mod OrgQueries
pub mod Store
pub mod Service
pub mod Reads
pub mod Uniqueness
pub mod Invariant
pub mod OrgInvariant
pub mod Requests
