-- ===== src/Controlplane/Platform/Store.antt =====
-- controlplane/store.go: the statements of the platform that run outside a transaction.
use opero.Prelude.{ℕ, String, Option, List}
use opero.Effects.{query}
use opero.Controlplane.Types.{PlatformUser, PlatformSubscription, SuperAdminAuditEvent, Call}
use opero.Controlplane.Store.{map_err}
use opero.Controlplane.Platform.Queries

unfoldable pub create_platform_user : String → String → String → String → Call PlatformUser
unfolding map_err
create_platform_user email password_hash role status =
    query map_err (Queries.create_platform_user email password_hash role status)

unfoldable pub get_platform_user_by_id : ℕ → Call PlatformUser
unfolding map_err
get_platform_user_by_id i = query map_err (Queries.get_platform_user_by_id i)

unfoldable pub get_platform_user_by_email : (String → String) → String → Call PlatformUser
unfolding map_err
get_platform_user_by_email fold email =
    query map_err (Queries.get_platform_user_by_email fold email)

unfoldable pub list_subscriptions_platform :
    Option ℕ → Option String → Option String → Call (List PlatformSubscription)
unfolding map_err
list_subscriptions_platform tenant_id plan status =
    query map_err (Queries.list_subscriptions_platform tenant_id plan status)

unfoldable pub list_super_admin_audit_events :
    Option ℕ → Option ℕ → Option String → ℕ → Call (List SuperAdminAuditEvent)
unfolding map_err
list_super_admin_audit_events tenant_id actor_id action limit =
    query map_err (Queries.list_super_admin_audit_events tenant_id actor_id action limit)
