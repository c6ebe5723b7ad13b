-- ===== src/Controlplane/Platform/Queries.antt =====
-- gen/sqlc/controlplane: the statements on platform_users, subscriptions and super_admin_audit_events.
use opero.Prelude.{
  ℕ, String, Bool, not, ◌&&◌, ◌||◌, Option, none, some, List, ◌∷◌, ◌==◌, leb, any_row, find_row,
  select_rows, update_rows, sort_by, take_rows, collect, holds_if_given, coalesce, str_eq,
  if◌then◌else◌,
}
use opero.Effects.{Answer, rows, sql_error, one}
use opero.Controlplane.Types.{
  Tenant, PlatformUser, Subscription, PlatformSubscription, Metadata, AuditRow,
  SuperAdminAuditEvent, ControlDb, Statement,
}
use opero.Controlplane.Queries.{tenant_by_id, refers_to, user_status_allowed}

unfoldable pub platform_role_allowed : String → Bool
platform_role_allowed s = str_eq s "super_admin" || str_eq s "support" || str_eq s "ops"

abbrev pub platform_user_by_id : ℕ → PlatformUser → Bool
platform_user_by_id i u = u.id == i

abbrev pub new_platform_user : ℕ → ℕ → String → String → String → String → PlatformUser
new_platform_user now fresh email password_hash role status = record {
  id = fresh;
  email = email;
  role = role;
  status = status;
  created_at = now;
  updated_at = now;
  password_hash = password_hash;
}

-- The address is unique as it is written.
unfoldable pub create_platform_user : String → String → String → String → Statement PlatformUser
unfolding platform_role_allowed user_status_allowed
create_platform_user email password_hash role status now fresh db =
    if not (platform_role_allowed role && user_status_allowed status)
    then (sql_error "23514", db)
    else if any_row (λ u. u.id == fresh || str_eq u.email email) db.platform_users
    then (sql_error "23505", db)
    else (
      rows (new_platform_user now fresh email password_hash role status),
      record db {
        platform_users =
            new_platform_user now fresh email password_hash role status ∷ db.platform_users;
      },
    )

unfoldable pub get_platform_user_by_id : ℕ → Statement PlatformUser
get_platform_user_by_id i now fresh db =
    (one (find_row (platform_user_by_id i) db.platform_users), db)

abbrev pub by_platform_email : (String → String) → String → PlatformUser → Bool
by_platform_email fold email u = str_eq (fold u.email) (fold email)

unfoldable pub get_platform_user_by_email : (String → String) → String → Statement PlatformUser
get_platform_user_by_email fold email now fresh db =
    (one (find_row (by_platform_email fold email) db.platform_users), db)

abbrev pub subscription_by_id : ℕ → Subscription → Bool
subscription_by_id i s = s.id == i

abbrev pub named_subscription : Option Tenant → Subscription → Option PlatformSubscription
named_subscription none s = none
named_subscription (some t) s = some (record {
  id = s.id;
  tenant_id = s.tenant_id;
  tenant_name = t.name;
  tenant_slug = t.slug;
  plan = s.plan;
  status = s.status;
  created_at = s.created_at;
  updated_at = s.updated_at;
})

abbrev pub subscription_wanted : Option ℕ → Option String → Option String → Subscription → Bool
subscription_wanted tenant_id plan status s =
    holds_if_given (λ t. s.tenant_id == t) tenant_id
    && holds_if_given (λ x. str_eq s.status x) status
    && holds_if_given (λ p. str_eq s.plan p) plan

unfoldable pub list_subscriptions_platform :
    Option ℕ → Option String → Option String → Statement (List PlatformSubscription)
list_subscriptions_platform tenant_id plan status now fresh db = (
  rows (
      collect (λ s. named_subscription (find_row (tenant_by_id s.tenant_id) db.tenants) s)
        (sort_by (λ a b. leb b.created_at a.created_at)
          (select_rows (subscription_wanted tenant_id plan status) db.subscriptions))),
  db,
)

abbrev pub platform_subscription : ℕ → Option String → Option String → Subscription → Subscription
platform_subscription now plan status s = record s {
  plan = coalesce plan s.plan;
  status = coalesce status s.status;
  updated_at = now;
}

abbrev pub update_subscription_row :
    Option Subscription
    → ℕ
    → (Subscription → Subscription)
    → ControlDb
    → Answer Subscription × ControlDb
update_subscription_row none i f db = (one none, db)
update_subscription_row (some s) i f db = (
  rows (f s),
  record db { subscriptions = update_rows (subscription_by_id i) f db.subscriptions },
)

unfoldable pub update_subscription_platform :
    ℕ → Option String → Option String → Statement Subscription
update_subscription_platform i plan status now fresh db =
    update_subscription_row (find_row (subscription_by_id i) db.subscriptions) i
      (platform_subscription now plan status) db

abbrev pub new_audit_event : ℕ → ℕ → ℕ → String → String → Option ℕ → Option ℕ → Metadata → AuditRow
new_audit_event now fresh actor_id action target_type target_id tenant_id metadata = record {
  id = fresh;
  actor_platform_user_id = actor_id;
  action = action;
  target_type = target_type;
  target_id = target_id;
  tenant_id = tenant_id;
  metadata = metadata;
  created_at = now;
}

unfoldable pub create_super_admin_audit_event :
    ℕ → String → String → Option ℕ → Option ℕ → Metadata → Statement AuditRow
create_super_admin_audit_event actor_id action target_type target_id tenant_id metadata now fresh
      db =
    if any_row (λ e. e.id == fresh) db.audit_events
    then (sql_error "23505", db)
    else if not (
        any_row (platform_user_by_id actor_id) db.platform_users
        && holds_if_given (λ t. any_row (tenant_by_id t) db.tenants) tenant_id)
    then (sql_error "23503", db)
    else (
      rows (new_audit_event now fresh actor_id action target_type target_id tenant_id metadata),
      record db {
        audit_events =
            new_audit_event now fresh actor_id action target_type target_id tenant_id metadata
            ∷ db.audit_events;
      },
    )

abbrev pub event_wanted : Option ℕ → Option ℕ → Option String → AuditRow → Bool
event_wanted tenant_id actor_id action e =
    holds_if_given (λ t. refers_to t e.tenant_id) tenant_id
    && holds_if_given (λ a. e.actor_platform_user_id == a) actor_id
    && holds_if_given (λ a. str_eq e.action a) action

abbrev pub tenant_of : List Tenant → Option ℕ → Option Tenant
tenant_of tenants none = none
tenant_of tenants (some t) = find_row (tenant_by_id t) tenants

abbrev pub tenant_field {ℓ} : {A : Type ℓ} → (Tenant → A) → Option Tenant → Option A
tenant_field field none = none
tenant_field field (some t) = some (field t)

-- JOIN of the actor, LEFT JOIN of the tenant.
abbrev pub event_view : Option PlatformUser → Option Tenant → AuditRow → Option SuperAdminAuditEvent
event_view none t e = none
event_view (some u) t e = some (record {
  id = e.id;
  actor_platform_user_id = e.actor_platform_user_id;
  actor_email = u.email;
  action = e.action;
  target_type = e.target_type;
  target_id = e.target_id;
  tenant_id = e.tenant_id;
  tenant_name = tenant_field (λ x. x.name) t;
  tenant_slug = tenant_field (λ x. x.slug) t;
  metadata = e.metadata;
  created_at = e.created_at;
})

unfoldable pub list_super_admin_audit_events :
    Option ℕ → Option ℕ → Option String → ℕ → Statement (List SuperAdminAuditEvent)
list_super_admin_audit_events tenant_id actor_id action limit now fresh db = (
  rows (
      take_rows limit (
        collect
          (λ e.
            event_view (find_row (platform_user_by_id e.actor_platform_user_id) db.platform_users)
              (tenant_of db.tenants e.tenant_id) e)
          (sort_by (λ a b. leb b.created_at a.created_at)
            (select_rows (event_wanted tenant_id actor_id action) db.audit_events)))),
  db,
)
