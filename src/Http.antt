-- ===== src/Http.antt =====
-- The HTTP layer (internal/platform/middleware, internal/platform/httpserver, cmd/api/main.go).
pub mod Exchange
pub mod Auth
pub mod Authz
pub mod Tenancy
pub mod Cors
pub mod Server
pub mod Roles
pub mod Guard
pub mod Origins
