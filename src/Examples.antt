-- ===== src/Examples.antt =====
-- Runs of the theorems at concrete inputs.
mod Data
mod Attendance
mod Leave
mod Roster
mod Http
mod Controlplane
mod Platform
mod Signup
mod Logins
mod Identity
mod LiveView
mod Stats
