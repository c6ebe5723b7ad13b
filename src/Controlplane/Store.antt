-- ===== src/Controlplane/Store.antt =====
-- controlplane/store.go: the statements on tenants and users with their errors mapped to the package's
-- sentinels, and InTx. A row of a table is the domain value already.
use opero.Prelude.{ℕ, String, Option, List, str_eq, if◌then◌else◌}
use opero.Effects.{Answer, rows, no_rows, sql_error, broken, Result, ok, err, query, pure, ◌>>=◌}
use opero.Effects.Error.{controlplane, not_found, conflict, internal}
use opero.Effects.Transaction.{transaction}
use opero.Controlplane.Types.{Tenant, User, PlatformTenantUser, Call, Statement}
use opero.Controlplane.Queries

-- `mapErr`, on the answers that are errors.
unfoldable pub map_err {ℓ} : {A : Type ℓ} → Answer A → Result A
map_err (rows a) = ok a
map_err no_rows = err (not_found controlplane)
map_err (sql_error code) = if str_eq code "23505" then err (conflict controlplane) else err internal
map_err broken = err internal

unfoldable pub in_tx : {A : Type 0} → Statement A → Call A
unfolding map_err transaction
in_tx fn = query map_err (transaction fn)

unfoldable pub create_tenant : String → List ℕ → List ℕ → String → Call Tenant
unfolding map_err
create_tenant name slug db_name plan =
    query map_err (Queries.create_tenant name slug db_name "provisioning" plan)

unfoldable pub get_tenant_by_id : ℕ → Call Tenant
unfolding map_err
get_tenant_by_id i = query map_err (Queries.get_tenant_by_id i)

unfoldable pub get_tenant_by_slug : List ℕ → Call Tenant
unfolding map_err
get_tenant_by_slug slug = query map_err (Queries.get_tenant_by_slug slug)

unfoldable pub list_tenants : Call (List Tenant)
unfolding map_err
list_tenants = query map_err Queries.list_tenants

unfoldable pub set_tenant_status : ℕ → String → Call Tenant
unfolding map_err
set_tenant_status i status = query map_err (Queries.set_tenant_status i status)

unfoldable pub delete_tenant : ℕ → Call Unit
unfolding map_err
delete_tenant i = query map_err (Queries.delete_tenant i)

unfoldable pub create_user : (String → String) → ℕ → String → String → String → String → Call User
unfolding map_err
create_user fold tenant_id email password_hash role status =
    query map_err (Queries.create_user fold tenant_id email password_hash role status)

unfoldable pub delete_user : ℕ → Call Unit
unfolding map_err
delete_user i = query map_err (Queries.delete_user i)

unfoldable pub get_user_by_id : ℕ → Call User
unfolding map_err
get_user_by_id i = query map_err (Queries.get_user_by_id i)

unfoldable pub get_user_by_tenant_and_email : (String → String) → ℕ → String → Call User
unfolding map_err
get_user_by_tenant_and_email fold tenant_id email =
    query map_err (Queries.get_user_by_tenant_and_email fold tenant_id email)

unfoldable pub list_users_platform :
    Option ℕ → Option String → Option String → Call (List PlatformTenantUser)
unfolding map_err
list_users_platform tenant_id role status =
    query map_err (Queries.list_users_platform tenant_id role status)

unfoldable pub count_tenants_by_status : Call (List (String × ℕ))
unfolding map_err
count_tenants_by_status = query map_err Queries.count_tenants_by_status

-- The registry that the tenant middleware asks.
unfoldable pub tenant_db_name : ℕ → Call (List ℕ)
unfolding get_tenant_by_id
tenant_db_name i = do t ← get_tenant_by_id i; pure t.db_name
