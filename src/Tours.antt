-- ===== src/Tours.antt =====
-- The tour catalog (internal/tours) and its statements (gen/sqlc/tours).
pub mod Types
pub mod Queries
pub mod Store
pub mod Service
pub mod Bounds
