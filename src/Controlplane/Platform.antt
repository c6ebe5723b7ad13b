-- ===== src/Controlplane/Platform.antt =====
-- The operations of Opero's own staff (internal/controlplane, Platform…): their log in, their view of
-- tenants, users and subscriptions, their changes and the audit events of those.
pub mod Queries
pub mod Store
pub mod Service
pub mod Audit
pub mod Lists
