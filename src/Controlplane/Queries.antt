-- ===== src/Controlplane/Queries.antt =====
-- gen/sqlc/controlplane: the statements on tenants and users, with the tables' constraints. `fold` is
-- the database's `lower`. Every UPDATE fires the trigger that stamps updated_at.
use opero.Prelude.{
  ℕ, ◌+◌, String, Bool, false, not, ◌&&◌, ◌||◌, Option, none, some, List, [], ◌∷◌, ◌==◌, leb,
  any_row, find_row, select_rows, update_rows, delete_rows, sort_by, collect, holds_if_given,
  coalesce, str_eq, if◌then◌else◌,
}
use opero.Effects.{Answer, rows, sql_error, one}
use opero.Controlplane.Slugs.{same_text}
use opero.Controlplane.Types.{Tenant, User, PlatformTenantUser, ControlDb, Statement}

-- The CHECK constraints of the tables.
unfoldable pub tenant_status_allowed : String → Bool
tenant_status_allowed s = str_eq s "active" || str_eq s "suspended" || str_eq s "provisioning"

unfoldable pub role_allowed : String → Bool
role_allowed s = str_eq s "admin" || str_eq s "manager" || str_eq s "employee"

unfoldable pub user_status_allowed : String → Bool
user_status_allowed s = str_eq s "active" || str_eq s "disabled"

abbrev pub tenant_by_id : ℕ → Tenant → Bool
tenant_by_id i t = t.id == i

abbrev pub by_slug : List ℕ → Tenant → Bool
by_slug slug t = same_text t.slug slug

-- The primary key and the unique columns of tenants.
abbrev pub tenant_clashes : ℕ → List ℕ → List ℕ → Tenant → Bool
tenant_clashes fresh slug db_name t =
    t.id == fresh || same_text t.slug slug || same_text t.db_name db_name

abbrev pub new_tenant : ℕ → ℕ → String → List ℕ → List ℕ → String → String → Tenant
new_tenant now fresh name slug db_name status plan = record {
  id = fresh;
  name = name;
  slug = slug;
  db_name = db_name;
  status = status;
  plan = plan;
  created_at = now;
  updated_at = now;
}

unfoldable pub create_tenant : String → List ℕ → List ℕ → String → String → Statement Tenant
unfolding tenant_status_allowed
create_tenant name slug db_name status plan now fresh db =
    if not (tenant_status_allowed status)
    then (sql_error "23514", db)
    else if any_row (tenant_clashes fresh slug db_name) db.tenants
    then (sql_error "23505", db)
    else (
      rows (new_tenant now fresh name slug db_name status plan),
      record db { tenants = new_tenant now fresh name slug db_name status plan ∷ db.tenants },
    )

unfoldable pub get_tenant_by_id : ℕ → Statement Tenant
get_tenant_by_id i now fresh db = (one (find_row (tenant_by_id i) db.tenants), db)

unfoldable pub get_tenant_by_slug : List ℕ → Statement Tenant
get_tenant_by_slug slug now fresh db = (one (find_row (by_slug slug) db.tenants), db)

unfoldable pub list_tenants : Statement (List Tenant)
list_tenants now fresh db = (rows (sort_by (λ a b. leb a.created_at b.created_at) db.tenants), db)

-- An UPDATE of one tenant by its key, which the CHECK constraint on the new status may refuse.
abbrev pub update_tenant_row :
    Option Tenant → ℕ → String → (Tenant → Tenant) → ControlDb → Answer Tenant × ControlDb
update_tenant_row none i status f db = (one none, db)
update_tenant_row (some t) i status f db =
    if tenant_status_allowed status
    then (rows (f t), record db { tenants = update_rows (tenant_by_id i) f db.tenants })
    else (sql_error "23514", db)

abbrev pub with_status : ℕ → String → Tenant → Tenant
with_status now status t = record t { status = status; updated_at = now }

unfoldable pub set_tenant_status : ℕ → String → Statement Tenant
unfolding tenant_status_allowed
set_tenant_status i status now fresh db =
    update_tenant_row (find_row (tenant_by_id i) db.tenants) i status (with_status now status) db

abbrev pub platform_tenant : ℕ → Option String → Option String → Option String → Tenant → Tenant
platform_tenant now name status plan t = record t {
  name = coalesce name t.name;
  status = coalesce status t.status;
  plan = coalesce plan t.plan;
  updated_at = now;
}

-- The status that the CHECK constraint looks at: that of the row when none is given.
abbrev pub kept_status : Option String → Option Tenant → String
kept_status (some s) found = s
kept_status none none = ""
kept_status none (some t) = t.status

unfoldable pub update_tenant_platform :
    ℕ → Option String → Option String → Option String → Statement Tenant
unfolding tenant_status_allowed
update_tenant_platform i name status plan now fresh db =
    let found = find_row (tenant_by_id i) db.tenants in
    update_tenant_row found i (kept_status status found) (platform_tenant now name status plan) db

-- ON DELETE CASCADE of users and subscriptions; the reference of an audit event refuses.
abbrev pub refers_to : ℕ → Option ℕ → Bool
refers_to i none = false
refers_to i (some t) = t == i

unfoldable pub delete_tenant : ℕ → Statement Unit
delete_tenant i now fresh db =
    if any_row (tenant_by_id i) db.tenants && any_row (λ e. refers_to i e.tenant_id) db.audit_events
    then (sql_error "23503", db)
    else (
      rows tt,
      record db {
        tenants = delete_rows (tenant_by_id i) db.tenants;
        users = delete_rows (λ u. u.tenant_id == i) db.users;
        subscriptions = delete_rows (λ s. s.tenant_id == i) db.subscriptions;
      },
    )

-- `GROUP BY status`: a group for each status that there is. The order of the groups is not modelled.
abbrev pub count_in : String → List (String × ℕ) → List (String × ℕ)
count_in s [] = (s, 1) ∷ []
count_in s ((k, n) ∷ counts) =
    let rest = count_in s counts in if str_eq k s then (k, n + 1) ∷ counts else (k, n) ∷ rest

abbrev pub status_counts : List Tenant → List (String × ℕ)
status_counts [] = []
status_counts (t ∷ ts) = count_in t.status (status_counts ts)

unfoldable pub count_tenants_by_status : Statement (List (String × ℕ))
count_tenants_by_status now fresh db = (rows (status_counts db.tenants), db)

abbrev pub user_by_id : ℕ → User → Bool
user_by_id i u = u.id == i

abbrev pub by_email : (String → String) → ℕ → String → User → Bool
by_email fold tenant_id email u = u.tenant_id == tenant_id && str_eq (fold u.email) (fold email)

abbrev pub new_user : ℕ → ℕ → ℕ → String → String → String → String → User
new_user now fresh tenant_id email password_hash role status = record {
  id = fresh;
  tenant_id = tenant_id;
  email = email;
  role = role;
  status = status;
  created_at = now;
  updated_at = now;
  password_hash = password_hash;
}

unfoldable pub create_user :
    (String → String) → ℕ → String → String → String → String → Statement User
unfolding role_allowed user_status_allowed
create_user fold tenant_id email password_hash role status now fresh db =
    if not (role_allowed role && user_status_allowed status)
    then (sql_error "23514", db)
    else if any_row (user_by_id fresh) db.users || any_row (by_email fold tenant_id email) db.users
    then (sql_error "23505", db)
    else if not (any_row (tenant_by_id tenant_id) db.tenants)
    then (sql_error "23503", db)
    else (
      rows (new_user now fresh tenant_id email password_hash role status),
      record db { users = new_user now fresh tenant_id email password_hash role status ∷ db.users },
    )

unfoldable pub delete_user : ℕ → Statement Unit
delete_user i now fresh db = (rows tt, record db { users = delete_rows (user_by_id i) db.users })

unfoldable pub get_user_by_id : ℕ → Statement User
get_user_by_id i now fresh db = (one (find_row (user_by_id i) db.users), db)

unfoldable pub get_user_by_tenant_and_email : (String → String) → ℕ → String → Statement User
get_user_by_tenant_and_email fold tenant_id email now fresh db =
    (one (find_row (by_email fold tenant_id email) db.users), db)

abbrev pub named_user : Option Tenant → User → Option PlatformTenantUser
named_user none u = none
named_user (some t) u = some (record {
  id = u.id;
  tenant_id = u.tenant_id;
  tenant_name = t.name;
  tenant_slug = t.slug;
  email = u.email;
  role = u.role;
  status = u.status;
  created_at = u.created_at;
  updated_at = u.updated_at;
})

abbrev pub user_wanted : Option ℕ → Option String → Option String → User → Bool
user_wanted tenant_id role status u =
    holds_if_given (λ t. u.tenant_id == t) tenant_id
    && holds_if_given (λ s. str_eq u.status s) status
    && holds_if_given (λ r. str_eq u.role r) role

unfoldable pub list_users_platform :
    Option ℕ → Option String → Option String → Statement (List PlatformTenantUser)
list_users_platform tenant_id role status now fresh db = (
  rows (
      collect (λ u. named_user (find_row (tenant_by_id u.tenant_id) db.tenants) u)
        (sort_by (λ a b. leb b.created_at a.created_at)
          (select_rows (user_wanted tenant_id role status) db.users))),
  db,
)

abbrev pub user_with_status : ℕ → String → User → User
user_with_status now status u = record u { status = status; updated_at = now }

abbrev pub update_user_row :
    Option User → ℕ → String → (User → User) → ControlDb → Answer User × ControlDb
update_user_row none i status f db = (one none, db)
update_user_row (some u) i status f db =
    if user_status_allowed status
    then (rows (f u), record db { users = update_rows (user_by_id i) f db.users })
    else (sql_error "23514", db)

unfoldable pub update_user_status_platform : ℕ → String → Statement User
unfolding user_status_allowed
update_user_status_platform i status now fresh db =
    update_user_row (find_row (user_by_id i) db.users) i status (user_with_status now status) db
