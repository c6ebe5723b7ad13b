-- ===== src/Leave.antt =====
-- The leave package (internal/leave) and its statements (gen/sqlc/leave).
pub mod Types
pub mod Queries
pub mod Store
pub mod Service
pub mod Invariant
pub mod Requests
pub mod Decisions
pub mod Success
pub mod Balances
