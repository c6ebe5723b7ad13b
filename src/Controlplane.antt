-- ===== src/Controlplane.antt =====
-- The control plane (internal/controlplane): the slugs of tenants and the names of their databases, and
-- the login.
pub mod Slugs
pub mod Names
pub mod Types
pub mod Queries
pub mod Store
pub mod Service
pub mod Login
pub mod Provision
pub mod Signup
pub mod Cleanup
pub mod Steps
pub mod SetUp
pub mod Onboarding
pub mod FirstLogin
pub mod Platform
