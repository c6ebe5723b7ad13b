-- ===== src/Attendance.antt =====
-- Package attendance (backend/internal/attendance): field check-in and check-out.
pub mod Types
pub mod Queries
pub mod Store
pub mod Service
pub mod Invariant
pub mod Requests
pub mod Replay
pub mod Ownership
pub mod Foreign
pub mod Creation
pub mod Shifts
pub mod Success
