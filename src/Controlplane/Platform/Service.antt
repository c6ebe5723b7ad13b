-- ===== src/Controlplane/Platform/Service.antt =====
-- controlplane/service.go: the operations of Opero's own staff.
use opero.Prelude.{
  ℕ, String, Bool, not, ◌||◌, ◌==◌, Option, none, some, List, [], ◌∷◌, ◌++◌, str_eq, if◌then◌else◌,
  trim_space, ltb, is_empty, is_some, byte_length, holds_if_given,
}
use opero.Prelude.Int.{ℤ, pos, negsuc}
use opero.Effects.{pure, raise, attempt, ◌>>=◌}
use opero.Effects.Error.{controlplane, validation, internal, invalid_credentials}
use opero.Effects.Transaction.{then_run, answer}
use opero.Controlplane.Types.{
  Tenant, User, PlatformUser, PlatformTenantUser, Subscription, PlatformSubscription, Metadata,
  SuperAdminAuditEvent, SystemHealth, PlatformLoginInput, PlatformAuthResult, Call, Statement,
}
use opero.Controlplane.Service.{Crypto, found_or_invalid, hashed, valid_roles, role_or_default}
use opero.Controlplane.Queries.{update_tenant_platform, update_user_status_platform}
use opero.Controlplane.Platform.Queries.{
  update_subscription_platform, create_super_admin_audit_event,
}
use opero.Controlplane.Platform.Store
use opero.Controlplane.Store as Tenants

unfoldable pub valid_platform_roles : String → Bool
valid_platform_roles r = str_eq r "super_admin" || str_eq r "support" || str_eq r "ops"

unfoldable pub valid_user_statuses : String → Bool
valid_user_statuses s = str_eq s "active" || str_eq s "disabled"

unfoldable pub valid_tenant_statuses : String → Bool
valid_tenant_statuses s = str_eq s "active" || str_eq s "suspended" || str_eq s "provisioning"

unfoldable pub clean_string_ptr : Option String → Option String
clean_string_ptr none = none
clean_string_ptr (some value) = some (trim_space value)

abbrev pub entry : String → Option String → Metadata
entry key none = []
entry key (some value) = (key, value) ∷ []

unfoldable pub changed_fields : Option String → Option String → Option String → Metadata
changed_fields name status plan = entry "name" name ++ (entry "status" status ++ entry "plan" plan)

module _ (crypto : Crypto) where
  open crypto use {check_password, hash_password, parse_address, issue_platform, fold}

  abbrev pub issued_platform : PlatformUser → Option (String × ℕ) → Call PlatformAuthResult
  issued_platform user none = raise internal
  issued_platform user (some (token, expires_at)) =
      pure (record { token = token; expires_at = expires_at; user = user })

  unfoldable pub platform_login : ℕ → PlatformLoginInput → Call PlatformAuthResult
  unfolding found_or_invalid
  platform_login now inp = do
    found ← attempt (Store.get_platform_user_by_email fold (trim_space inp.email))
    user ← found_or_invalid found
    if not (check_password user.password_hash inp.password)
        then raise invalid_credentials
        else if not (str_eq user.status "active")
        then raise invalid_credentials
        else issued_platform user (issue_platform user.id user.role now)

  unfoldable pub create_platform_user : String → String → String → Call ℕ
  unfolding valid_platform_roles role_or_default
  create_platform_user email password role =
      if not (parse_address (trim_space email))
      then raise (validation controlplane)
      else if ltb (byte_length password) 12
      then raise (validation controlplane)
      else if not (valid_platform_roles (role_or_default role "support"))
      then raise (validation controlplane)
      else do
        hash ← hashed (hash_password password)
        user ←
            Store.create_platform_user (trim_space email) hash (role_or_default role "support")
              "active"
        pure user.id

unfoldable pub current_platform_user : ℕ → Call PlatformUser
current_platform_user i = Store.get_platform_user_by_id i

unfoldable pub platform_list_tenants : Call (List Tenant)
platform_list_tenants = Tenants.list_tenants

unfoldable pub platform_get_tenant : ℕ → Call Tenant
platform_get_tenant i = Tenants.get_tenant_by_id i

-- What the call refuses of the cleaned values.
unfoldable pub tenant_changes_refused : Option String → Option String → Option String → Bool
unfolding valid_tenant_statuses
tenant_changes_refused name status plan =
    not (is_some name || is_some status || is_some plan)
    || not (holds_if_given valid_tenant_statuses status)
    || not (holds_if_given (λ n. not (is_empty n)) name)
    || not (holds_if_given (λ p. not (is_empty p)) plan)

-- The function that runs in the transaction: the change and its audit event.
unfoldable pub audited_tenant :
    ℕ → ℕ → Option String → Option String → Option String → Statement Tenant
unfolding update_tenant_platform create_super_admin_audit_event then_run answer changed_fields
audited_tenant actor_id i name status plan =
    then_run (update_tenant_platform i name status plan) (λ tenant.
      then_run
        (create_super_admin_audit_event actor_id "tenant.updated" "tenant" (some tenant.id)
          (some tenant.id) (changed_fields name status plan))
        (λ event. answer tenant))

unfoldable pub platform_update_tenant :
    ℕ → ℕ → Option String → Option String → Option String → Call Tenant
unfolding tenant_changes_refused clean_string_ptr audited_tenant
platform_update_tenant actor_id i name status plan =
    let n = clean_string_ptr name in
    let s = clean_string_ptr status in
    let p = clean_string_ptr plan in
    if tenant_changes_refused n s p
    then raise (validation controlplane)
    else Tenants.in_tx (audited_tenant actor_id i n s p)

unfoldable pub platform_list_users :
    Option ℕ → Option String → Option String → Call (List PlatformTenantUser)
unfolding clean_string_ptr valid_user_statuses valid_roles
platform_list_users tenant_id role status =
    if not (holds_if_given valid_roles (clean_string_ptr role))
    then raise (validation controlplane)
    else if not (holds_if_given valid_user_statuses (clean_string_ptr status))
    then raise (validation controlplane)
    else Tenants.list_users_platform tenant_id (clean_string_ptr role) (clean_string_ptr status)

unfoldable pub audited_user : ℕ → ℕ → String → Statement User
unfolding update_user_status_platform create_super_admin_audit_event then_run answer
audited_user actor_id user_id status =
    then_run (update_user_status_platform user_id status) (λ user.
      then_run
        (create_super_admin_audit_event actor_id "user.status_updated" "user" (some user.id)
          (some user.tenant_id) (("status", status) ∷ []))
        (λ event. answer user))

unfoldable pub platform_update_user : ℕ → ℕ → String → Call User
unfolding valid_user_statuses audited_user
platform_update_user actor_id user_id status =
    if not (valid_user_statuses (trim_space status))
    then raise (validation controlplane)
    else Tenants.in_tx (audited_user actor_id user_id (trim_space status))

unfoldable pub platform_list_subscriptions :
    Option ℕ → Option String → Option String → Call (List PlatformSubscription)
unfolding clean_string_ptr
platform_list_subscriptions tenant_id plan status =
    Store.list_subscriptions_platform tenant_id (clean_string_ptr plan) (clean_string_ptr status)

unfoldable pub subscription_changes_refused : Option String → Option String → Bool
subscription_changes_refused plan status =
    not (is_some plan || is_some status)
    || not (holds_if_given (λ p. not (is_empty p)) plan)
    || not (holds_if_given (λ s. not (is_empty s)) status)

unfoldable pub audited_subscription : ℕ → ℕ → Option String → Option String → Statement Subscription
unfolding update_subscription_platform create_super_admin_audit_event then_run answer changed_fields
audited_subscription actor_id i plan status =
    then_run (update_subscription_platform i plan status) (λ sub.
      then_run
        (create_super_admin_audit_event actor_id "subscription.updated" "subscription" (some sub.id)
          (some sub.tenant_id) (changed_fields none status plan))
        (λ event. answer sub))

-- The names of the tenant are read after the commit.
unfoldable pub platform_update_subscription :
    ℕ → ℕ → Option String → Option String → Call PlatformSubscription
unfolding subscription_changes_refused clean_string_ptr audited_subscription
platform_update_subscription actor_id i plan status =
    let p = clean_string_ptr plan in
    let s = clean_string_ptr status in
    if subscription_changes_refused p s then raise (validation controlplane) else do
      sub ← Tenants.in_tx (audited_subscription actor_id i p s)
      tenant ← Tenants.get_tenant_by_id sub.tenant_id
      pure (record {
        id = sub.id;
        tenant_id = sub.tenant_id;
        tenant_name = tenant.name;
        tenant_slug = tenant.slug;
        plan = sub.plan;
        status = sub.status;
        created_at = sub.created_at;
        updated_at = sub.updated_at;
      })

unfoldable pub platform_system_health : Call SystemHealth
platform_system_health = do
  counts ← Tenants.count_tenants_by_status
  pure (record { control_plane = "ok"; tenants_by_status = counts })

-- The limit is an int32: none or a negative one means a hundred, and two hundred is the most.
unfoldable pub audit_limit : ℤ → ℕ
audit_limit (pos n) = if n == 0 then 100 else if ltb 200 n then 200 else n
audit_limit (negsuc n) = 100

unfoldable pub platform_list_audit_events :
    Option ℕ → Option ℕ → Option String → ℤ → Call (List SuperAdminAuditEvent)
unfolding clean_string_ptr audit_limit
platform_list_audit_events tenant_id actor_id action limit =
    Store.list_super_admin_audit_events tenant_id actor_id (clean_string_ptr action)
      (audit_limit limit)
