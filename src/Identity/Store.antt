-- ===== src/Identity/Store.antt =====
-- identity/store.go: the statements with their errors mapped to the package's sentinels.
use opero.Prelude.{ℕ, String, Bool, List, [], is_empty, ◌==◌, coalesce, str_eq, if◌then◌else◌}
use opero.Effects.{Answer, rows, no_rows, sql_error, broken, Result, ok, err, query}
use opero.Effects.Error.{identity, validation, not_found, conflict, in_use, internal}
use opero.Tenant.{Call}
use opero.Identity.Types.{
  Employee, Department, Role, EmployeeFilter, CreateDepartmentInput, UpdateDepartmentInput,
  CreateEmployeeInput, UpdateEmployeeInput, CreateRoleInput, UpdateRoleInput,
}
use opero.Identity.OrgQueries
use opero.Identity.Queries

-- `mapErr`, on the answers that are errors.
unfoldable pub map_err {ℓ} : {A : Type ℓ} → Answer A → Result A
map_err (rows a) = ok a
map_err no_rows = err (not_found identity)
map_err (sql_error code) =
    if str_eq code "23503"
    then err (validation identity)
    else if str_eq code "23514"
    then err (validation identity)
    else if str_eq code "23505"
    then err (conflict identity)
    else err internal
map_err broken = err internal

-- A deletion of no row is not found.
unfoldable pub some_deleted : Answer ℕ → Result (Unit {0})
unfolding map_err
some_deleted (rows n) = if n == 0 then err (not_found identity) else ok tt
some_deleted no_rows = err (not_found identity)
some_deleted (sql_error code) = map_err (sql_error code)
some_deleted broken = map_err broken

-- DeleteEmployee: a row that still refers to the employee.
unfoldable pub employee_deleted : Answer ℕ → Result (Unit {0})
unfolding some_deleted
employee_deleted (rows n) = some_deleted (rows n)
employee_deleted no_rows = some_deleted no_rows
employee_deleted (sql_error code) =
    if str_eq code "23503" then err (in_use identity) else some_deleted (sql_error code)
employee_deleted broken = some_deleted broken

unfoldable pub create_department : CreateDepartmentInput → Call Department
unfolding map_err
create_department inp = query map_err (OrgQueries.create_department inp)

unfoldable pub get_department : ℕ → Call Department
unfolding map_err
get_department i = query map_err (OrgQueries.get_department i)

unfoldable pub list_departments : (String → String → Bool) → Call (List Department)
unfolding map_err
list_departments collates = query map_err (OrgQueries.list_departments collates)

unfoldable pub update_department : ℕ → UpdateDepartmentInput → Call Department
unfolding map_err
update_department i inp = query map_err (OrgQueries.update_department i inp)

unfoldable pub delete_department : ℕ → Call Unit
unfolding some_deleted
delete_department i = query some_deleted (OrgQueries.delete_department i)

unfoldable pub create_employee : CreateEmployeeInput → Call Employee
unfolding map_err
create_employee inp = query map_err (Queries.create_employee inp (coalesce inp.languages []))

unfoldable pub get_employee : ℕ → Call Employee
unfolding map_err
get_employee i = query map_err (Queries.get_employee i)

unfoldable pub set_employee_user_id : ℕ → ℕ → Call Employee
unfolding map_err
set_employee_user_id i u = query map_err (Queries.set_employee_user_id i u)

unfoldable pub list_employees : (String → String → Bool) → EmployeeFilter → Call (List Employee)
unfolding map_err
list_employees collates f = query map_err (Queries.list_employees collates f)

unfoldable pub update_employee : ℕ → UpdateEmployeeInput → Call Employee
unfolding map_err
update_employee i inp = query map_err (Queries.update_employee i inp)

unfoldable pub delete_employee : ℕ → Call Unit
unfolding employee_deleted
delete_employee i = query employee_deleted (Queries.delete_employee i)

unfoldable pub create_role : (String → String) → CreateRoleInput → Call Role
unfolding map_err
create_role fold inp = query map_err (
    OrgQueries.create_role fold inp
      (if is_empty inp.access_level then "web_manager" else inp.access_level)
      (coalesce inp.permissions []))

unfoldable pub get_role : ℕ → Call Role
unfolding map_err
get_role i = query map_err (OrgQueries.get_role i)

unfoldable pub list_roles : (String → String → Bool) → Call (List Role)
unfolding map_err
list_roles collates = query map_err (OrgQueries.list_roles collates)

unfoldable pub update_role : (String → String) → ℕ → UpdateRoleInput → Call Role
unfolding map_err
update_role fold i inp = query map_err (OrgQueries.update_role fold i inp)

unfoldable pub delete_role : ℕ → Call Unit
unfolding some_deleted
delete_role i = query some_deleted (OrgQueries.delete_role i)

unfoldable pub get_employee_by_user_id : ℕ → Call Employee
unfolding map_err
get_employee_by_user_id u = query map_err (Queries.get_employee_by_user_id u)
