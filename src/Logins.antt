-- ===== src/Logins.antt =====
-- The login of an employee (identity/service.go, CreateEmployeeLogin), which spans two databases: the
-- link is in the tenant's, the user in the control plane's.
pub mod Service
pub mod Steps
pub mod Compensation
