-- ===== src/Identity/Service.antt =====
-- identity/service.go, all but CreateEmployeeLogin.
use opero.Prelude.{
  ℕ, String, Bool, not, ◌||◌, Option, none, some, List, holds_if_given, is_blank, is_empty, str_eq,
  if◌then◌else◌,
}
use opero.Effects.{Result, ok, err, pure, raise, attempt, tenant_store, ◌>>=◌, ◌>>◌}
use opero.Effects.Error.{identity, validation, not_found, errors_is}
use opero.Tenant.{Call}
use opero.Resolvers.{EmployeeResolver}
use opero.Identity.Types.{
  Employee, Department, Role, EmployeeFilter, CreateDepartmentInput, UpdateDepartmentInput,
  CreateEmployeeInput, UpdateEmployeeInput, CreateRoleInput, UpdateRoleInput,
}
use opero.Identity.Store

-- What the result of the look-up says of the employee.
unfoldable pub report_employee : Result Employee → Call (Option ℕ)
report_employee (ok e) = pure (some e.id)
report_employee (err e) = if errors_is e (not_found identity) then pure none else raise e

unfoldable pub employee_id_by_user_id : ℕ → Call (Option ℕ)
unfolding report_employee
employee_id_by_user_id u = do
  tenant_store identity
  found ← attempt (Store.get_employee_by_user_id u)
  report_employee found

-- What attendance, leave and roster take of this package.
abbrev pub employee_resolver : EmployeeResolver
employee_resolver = record { employee_id_by_user_id = employee_id_by_user_id }

unfoldable pub valid_employment_types : String → Bool
valid_employment_types t =
    str_eq t "full_time" || str_eq t "part_time" || str_eq t "freelance" || str_eq t "seasonal"

unfoldable pub valid_statuses : String → Bool
valid_statuses s = str_eq s "active" || str_eq s "inactive"

-- A name that is given must not be blank.
unfoldable pub given_blank : Option String → Bool
given_blank name = not (holds_if_given (λ n. not (is_blank n)) name)

unfoldable pub create_department : CreateDepartmentInput → Call Department
create_department inp =
    if is_blank inp.name
    then raise (validation identity)
    else do tenant_store identity; Store.create_department inp

unfoldable pub get_department : ℕ → Call Department
get_department i = do tenant_store identity; Store.get_department i

unfoldable pub list_departments : (String → String → Bool) → Call (List Department)
list_departments collates = do tenant_store identity; Store.list_departments collates

unfoldable pub update_department : ℕ → UpdateDepartmentInput → Call Department
unfolding given_blank
update_department i inp =
    if given_blank inp.name
    then raise (validation identity)
    else do tenant_store identity; Store.update_department i inp

unfoldable pub delete_department : ℕ → Call Unit
delete_department i = do tenant_store identity; Store.delete_department i

unfoldable pub create_employee : CreateEmployeeInput → Call Employee
unfolding valid_employment_types valid_statuses
create_employee inp =
    if is_blank inp.full_name
    then raise (validation identity)
    else if not (valid_employment_types inp.employment_type)
    then raise (validation identity)
    else if is_empty inp.status
    then (do tenant_store identity; Store.create_employee (record inp { status = "active" }))
    else if not (valid_statuses inp.status)
    then raise (validation identity)
    else do tenant_store identity; Store.create_employee inp

unfoldable pub get_employee : ℕ → Call Employee
get_employee i = do tenant_store identity; Store.get_employee i

unfoldable pub list_employees : (String → String → Bool) → EmployeeFilter → Call (List Employee)
unfolding valid_statuses
list_employees collates f =
    if not (holds_if_given valid_statuses f.status)
    then raise (validation identity)
    else do tenant_store identity; Store.list_employees collates f

unfoldable pub update_employee : ℕ → UpdateEmployeeInput → Call Employee
unfolding given_blank valid_employment_types valid_statuses
update_employee i inp =
    if given_blank inp.full_name
    then raise (validation identity)
    else if not (holds_if_given valid_employment_types inp.employment_type)
    then raise (validation identity)
    else if not (holds_if_given valid_statuses inp.status)
    then raise (validation identity)
    else do tenant_store identity; Store.update_employee i inp

unfoldable pub delete_employee : ℕ → Call Unit
delete_employee i = do tenant_store identity; Store.delete_employee i

unfoldable pub create_role : (String → String) → CreateRoleInput → Call Role
create_role fold inp =
    if is_blank inp.name
    then raise (validation identity)
    else do tenant_store identity; Store.create_role fold inp

unfoldable pub get_role : ℕ → Call Role
get_role i = do tenant_store identity; Store.get_role i

unfoldable pub list_roles : (String → String → Bool) → Call (List Role)
list_roles collates = do tenant_store identity; Store.list_roles collates

unfoldable pub update_role : (String → String) → ℕ → UpdateRoleInput → Call Role
unfolding given_blank
update_role fold i inp =
    if given_blank inp.name
    then raise (validation identity)
    else do tenant_store identity; Store.update_role fold i inp

unfoldable pub delete_role : ℕ → Call Unit
delete_role i = do tenant_store identity; Store.delete_role i
