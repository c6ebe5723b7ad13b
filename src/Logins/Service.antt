-- ===== src/Logins/Service.antt =====
-- identity/service.go: CreateEmployeeLogin, on the pair of databases. A statement of a package runs on
-- its own; a rival may commit to both.
use opero.Prelude.{ℕ, String, is_some, if◌then◌else◌, trim_space, is_empty}
use opero.Effects.{
  Answer, Result, ok, err, M, Query, pure, raise, attempt, query, tenant_store, ◌>>=◌, ◌>>◌,
}
use opero.Effects.Error.{identity, controlplane, validation, conflict}
use opero.Tenant.{TenantDb}
use opero.Identity.Types.{Employee, LoginResult}
use opero.Identity.Queries
use opero.Identity.Store
use opero.Controlplane.Types.{ControlDb}
use opero.Controlplane.Queries as ControlQueries
use opero.Controlplane.Store as Control
use opero.Controlplane.Service.{Crypto, new_user_refused, role_or_default, hashed}

pub record Databases : Type 0 where
  pub tenant : TenantDb
  pub control : ControlDb

abbrev pub put_tenant : {A : Type 0} → Databases → Answer A × TenantDb → Answer A × Databases
put_tenant d (a, db) = (a, record d { tenant = db })

abbrev pub put_control : {A : Type 0} → Databases → Answer A × ControlDb → Answer A × Databases
put_control d (a, db) = (a, record d { control = db })

unfoldable pub on_tenant : {A : Type 0} → Query TenantDb A → Query Databases A
on_tenant q now fresh d = put_tenant d (q now fresh d.tenant)

unfoldable pub on_control : {A : Type 0} → Query ControlDb A → Query Databases A
on_control q now fresh d = put_control d (q now fresh d.control)

abbrev pub Call : Type 0 → Type 0
Call = M Databases

-- The interface `UserCreator`, and the control plane's service behind it: CreateUser and DeleteUser of
-- controlplane/service.go.
pub record UserCreator : Type 0 where
  pub create_user : ℕ → String → String → String → Call ℕ
  pub delete_user : ℕ → Call Unit

unfoldable pub control_create_user : Crypto → ℕ → String → String → String → Call ℕ
unfolding on_control
control_create_user crypto tenant_id email password role =
    if new_user_refused crypto email password role then raise (validation controlplane) else do
      hash ← hashed (crypto.hash_password password)
      user ← query Control.map_err (
          on_control (
            ControlQueries.create_user crypto.fold tenant_id (trim_space email) hash
              (role_or_default role "employee") "active"))
      pure user.id

unfoldable pub control_delete_user : ℕ → Call Unit
unfolding on_control
control_delete_user i = query Control.map_err (on_control (ControlQueries.delete_user i))

abbrev pub control_users : Crypto → UserCreator
control_users crypto = record {
  create_user = control_create_user crypto;
  delete_user = control_delete_user;
}

module _ (users : UserCreator) where
  -- The link failed: the user is removed, whose failure is logged only.
  unfoldable pub linked_or_removed : ℕ → String → String → Result Employee → Call LoginResult
  linked_or_removed user_id email role (ok e) =
      pure (record { user_id = user_id; email = trim_space email; role = role })
  linked_or_removed user_id email role (err e) = do attempt (users.delete_user user_id); raise e

  unfoldable pub provision : ℕ → ℕ → String → String → String → Call LoginResult
  unfolding linked_or_removed on_tenant
  provision tenant_id employee_id email password role = do
    user_id ← users.create_user tenant_id email password role
    linked ←
        attempt (query Store.map_err (on_tenant (Queries.set_employee_user_id employee_id user_id)))
    linked_or_removed user_id email role linked

  unfoldable pub create_employee_login : ℕ → ℕ → String → String → String → Call LoginResult
  unfolding provision on_tenant
  create_employee_login tenant_id employee_id email password role = do
    tenant_store identity
    emp ← query Store.map_err (on_tenant (Queries.get_employee employee_id))
    if is_some emp.user_id
        then raise (conflict identity)
        else provision tenant_id employee_id email password
            (if is_empty role then "employee" else role)
