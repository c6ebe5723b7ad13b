-- ===== src/Stats.antt =====
-- The numbers of the field app's "my activity" (stats/service.go).
pub mod Service
pub mod Week
pub mod CheckIns
