-- ===== src/Identity/OrgQueries.antt =====
-- gen/sqlc/identity/departments.sql.go and roles.sql.go: the statements on departments and roles, with
-- the tables' constraints. `fold` is the database's `lower`.
use opero.Prelude.{
  ℕ, String, Bool, not, ◌&&◌, ◌||◌, Option, none, some, List, ◌∷◌, ◌==◌, any_row, find_row,
  update_rows, delete_rows, count_rows, sort_by, coalesce, coalesce_null, holds_if_given, str_eq,
  if◌then◌else◌,
}
use opero.Effects.{Answer, rows, no_rows, sql_error, one}
use opero.Tenant.{TenantDb, Statement, has_employee, has_department}
use opero.Identity.Types.{
  Employee, Department, Role, CreateDepartmentInput, UpdateDepartmentInput, CreateRoleInput,
  UpdateRoleInput,
}
use opero.Identity.Queries.{is_in}

abbrev pub department_by_id : ℕ → Department → Bool
department_by_id i d = d.id == i

abbrev pub department_keys_exist : TenantDb → Option ℕ → Option ℕ → Bool
department_keys_exist db parent_id lead_employee_id =
    holds_if_given (has_department db) parent_id
    && holds_if_given (has_employee db) lead_employee_id

abbrev pub new_department : ℕ → ℕ → CreateDepartmentInput → Department
new_department now fresh inp = record {
  id = fresh;
  name = inp.name;
  parent_id = inp.parent_id;
  description = inp.description;
  lead_employee_id = inp.lead_employee_id;
  icon = inp.icon;
  color = inp.color;
  created_at = now;
  updated_at = now;
}

unfoldable pub create_department : CreateDepartmentInput → Statement Department
create_department inp now fresh db =
    if any_row (department_by_id fresh) db.departments
    then (sql_error "23505", db)
    else if not (department_keys_exist db inp.parent_id inp.lead_employee_id)
    then (sql_error "23503", db)
    else (
      rows (new_department now fresh inp),
      record db { departments = new_department now fresh inp ∷ db.departments },
    )

unfoldable pub get_department : ℕ → Statement Department
get_department i now fresh db = (one (find_row (department_by_id i) db.departments), db)

unfoldable pub list_departments : (String → String → Bool) → Statement (List Department)
list_departments collates now fresh db =
    (rows (sort_by (λ a b. collates a.name b.name) db.departments), db)

abbrev pub updated_department : UpdateDepartmentInput → ℕ → Department → Department
updated_department inp now d = record d {
  name = coalesce inp.name d.name;
  parent_id = coalesce_null inp.parent_id d.parent_id;
  description = coalesce_null inp.description d.description;
  lead_employee_id = coalesce_null inp.lead_employee_id d.lead_employee_id;
  icon = coalesce_null inp.icon d.icon;
  color = coalesce_null inp.color d.color;
  updated_at = now;
}

abbrev pub update_department_row :
    Option Department → ℕ → UpdateDepartmentInput → ℕ → TenantDb → Answer Department × TenantDb
update_department_row none i inp now db = (no_rows, db)
update_department_row (some d) i inp now db =
    if not (department_keys_exist db inp.parent_id inp.lead_employee_id)
    then (sql_error "23503", db)
    else (
      rows (updated_department inp now d),
      record db {
        departments = update_rows (department_by_id i) (updated_department inp now) db.departments;
      },
    )

unfoldable pub update_department : ℕ → UpdateDepartmentInput → Statement Department
update_department i inp now fresh db =
    update_department_row (find_row (department_by_id i) db.departments) i inp now db

abbrev pub without_parent : ℕ → Department → Department
without_parent now d = record d { parent_id = none; updated_at = now }

abbrev pub without_department : ℕ → Employee → Employee
without_department now e = record e { department_id = none; updated_at = now }

abbrev pub role_without_department : ℕ → Role → Role
role_without_department now r = record r { department_id = none; updated_at = now }

-- ON DELETE SET NULL; with no such department, the statement changes nothing.
unfoldable pub delete_department : ℕ → Statement ℕ
delete_department i now fresh db =
    if not (any_row (department_by_id i) db.departments) then (rows 0, db) else (
      rows (count_rows (department_by_id i) db.departments),
      record db {
        departments =
            update_rows (λ d. is_in i d.parent_id) (without_parent now)
              (delete_rows (department_by_id i) db.departments);
        employees =
            update_rows (λ e. is_in i e.department_id) (without_department now) db.employees;
        roles = update_rows (λ r. is_in i r.department_id) (role_without_department now) db.roles;
      },
    )

-- The CHECK constraint of roles.
unfoldable pub access_level_allowed : String → Bool
access_level_allowed a = str_eq a "mobile" || str_eq a "web_manager" || str_eq a "web_admin"

abbrev pub role_by_id : ℕ → Role → Bool
role_by_id i r = r.id == i

-- The unique index on lower(name): another row has the name.
abbrev pub name_taken : (String → String) → ℕ → String → List Role → Bool
name_taken fold i name rs = any_row (λ r. str_eq (fold r.name) (fold name) && not (r.id == i)) rs

abbrev pub new_role : ℕ → ℕ → CreateRoleInput → String → List String → Role
new_role now fresh inp access_level permissions = record {
  id = fresh;
  name = inp.name;
  description = inp.description;
  department_id = inp.department_id;
  access_level = access_level;
  permissions = permissions;
  created_at = now;
  updated_at = now;
}

unfoldable pub create_role :
    (String → String) → CreateRoleInput → String → List String → Statement Role
unfolding access_level_allowed
create_role fold inp access_level permissions now fresh db =
    if not (access_level_allowed access_level)
    then (sql_error "23514", db)
    else if any_row (role_by_id fresh) db.roles || name_taken fold fresh inp.name db.roles
    then (sql_error "23505", db)
    else if not (holds_if_given (has_department db) inp.department_id)
    then (sql_error "23503", db)
    else (
      rows (new_role now fresh inp access_level permissions),
      record db { roles = new_role now fresh inp access_level permissions ∷ db.roles },
    )

unfoldable pub get_role : ℕ → Statement Role
get_role i now fresh db = (one (find_row (role_by_id i) db.roles), db)

unfoldable pub list_roles : (String → String → Bool) → Statement (List Role)
list_roles collates now fresh db = (rows (sort_by (λ a b. collates a.name b.name) db.roles), db)

abbrev pub updated_role : UpdateRoleInput → ℕ → Role → Role
updated_role inp now r = record r {
  name = coalesce inp.name r.name;
  description = coalesce_null inp.description r.description;
  department_id = coalesce_null inp.department_id r.department_id;
  access_level = coalesce inp.access_level r.access_level;
  permissions = coalesce inp.permissions r.permissions;
  updated_at = now;
}

abbrev pub update_role_row :
    (String → String) → Option Role → ℕ → UpdateRoleInput → ℕ → TenantDb → Answer Role × TenantDb
update_role_row fold none i inp now db = (no_rows, db)
update_role_row fold (some r) i inp now db =
    if not (access_level_allowed (coalesce inp.access_level r.access_level))
    then (sql_error "23514", db)
    else if name_taken fold i (coalesce inp.name r.name) db.roles
    then (sql_error "23505", db)
    else if not (holds_if_given (has_department db) inp.department_id)
    then (sql_error "23503", db)
    else (
      rows (updated_role inp now r),
      record db { roles = update_rows (role_by_id i) (updated_role inp now) db.roles },
    )

unfoldable pub update_role : (String → String) → ℕ → UpdateRoleInput → Statement Role
unfolding access_level_allowed
update_role fold i inp now fresh db =
    update_role_row fold (find_row (role_by_id i) db.roles) i inp now db

abbrev pub without_role : ℕ → Employee → Employee
without_role now e = record e { role_id = none; updated_at = now }

unfoldable pub delete_role : ℕ → Statement ℕ
delete_role i now fresh db = if not (any_row (role_by_id i) db.roles) then (rows 0, db) else (
  rows (count_rows (role_by_id i) db.roles),
  record db {
    roles = delete_rows (role_by_id i) db.roles;
    employees = update_rows (λ e. is_in i e.role_id) (without_role now) db.employees;
  },
)
