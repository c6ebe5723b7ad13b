-- ===== src/Identity/Queries.antt =====
-- gen/sqlc/identity/employees.sql.go: the statements on employees, with the table's constraints. Every
-- UPDATE fires the trigger that stamps updated_at, also that of ON DELETE SET NULL.
use opero.Prelude.{
  ℕ, String, Bool, false, not, ◌&&◌, ◌||◌, Option, none, some, List, ◌∷◌, ◌==◌, any_row, find_row,
  select_rows, update_rows, delete_rows, count_rows, sort_by, coalesce, coalesce_null,
  holds_if_given, str_eq, if◌then◌else◌,
}
use opero.Effects.{Answer, rows, no_rows, sql_error, one}
use opero.Tenant.{TenantDb, Statement, has_employee, has_department, has_role}
use opero.Identity.Types.{
  Employee, Department, EmployeeFilter, CreateEmployeeInput, UpdateEmployeeInput,
}

-- The CHECK constraints of the table.
unfoldable pub employment_type_allowed : String → Bool
employment_type_allowed t =
    str_eq t "full_time" || str_eq t "part_time" || str_eq t "freelance" || str_eq t "seasonal"

unfoldable pub status_allowed : String → Bool
status_allowed s = str_eq s "active" || str_eq s "inactive"

abbrev pub by_id : ℕ → Employee → Bool
by_id i e = e.id == i

-- `user_id = $1`, which is not true of a null.
abbrev pub is_user : ℕ → Option ℕ → Bool
is_user u none = false
is_user u (some v) = v == u

abbrev pub by_user_id : ℕ → Employee → Bool
by_user_id u e = is_user u e.user_id

unfoldable pub get_employee_by_user_id : ℕ → Statement Employee
get_employee_by_user_id u now fresh db = (one (find_row (by_user_id u) db.employees), db)

-- The partial unique index on user_id: another row has the user.
abbrev pub user_taken : ℕ → Option ℕ → List Employee → Bool
user_taken i none es = false
user_taken i (some u) es = any_row (λ e. by_user_id u e && not (e.id == i)) es

abbrev pub keys_exist : TenantDb → Option ℕ → Option ℕ → Option ℕ → Bool
keys_exist db department_id role_id reports_to =
    holds_if_given (has_department db) department_id
    && holds_if_given (has_role db) role_id
    && holds_if_given (has_employee db) reports_to

abbrev pub new_employee : ℕ → ℕ → CreateEmployeeInput → List String → Employee
new_employee now fresh inp languages = record {
  id = fresh;
  user_id = inp.user_id;
  role_id = inp.role_id;
  full_name = inp.full_name;
  email = inp.email;
  phone = inp.phone;
  employment_type = inp.employment_type;
  department_id = inp.department_id;
  title = inp.title;
  status = inp.status;
  hired_at = inp.hired_at;
  location = inp.location;
  languages = languages;
  emergency_contact_name = inp.emergency_contact_name;
  emergency_contact_phone = inp.emergency_contact_phone;
  reports_to = inp.reports_to;
  employee_code = inp.employee_code;
  created_at = now;
  updated_at = now;
}

unfoldable pub create_employee : CreateEmployeeInput → List String → Statement Employee
unfolding employment_type_allowed status_allowed
create_employee inp languages now fresh db =
    if not (employment_type_allowed inp.employment_type && status_allowed inp.status)
    then (sql_error "23514", db)
    else if any_row (by_id fresh) db.employees || user_taken fresh inp.user_id db.employees
    then (sql_error "23505", db)
    else if not (keys_exist db inp.department_id inp.role_id inp.reports_to)
    then (sql_error "23503", db)
    else (
      rows (new_employee now fresh inp languages),
      record db { employees = new_employee now fresh inp languages ∷ db.employees },
    )

unfoldable pub get_employee : ℕ → Statement Employee
get_employee i now fresh db = (one (find_row (by_id i) db.employees), db)

abbrev pub is_in : ℕ → Option ℕ → Bool
is_in d none = false
is_in d (some e) = e == d

abbrev pub wanted : EmployeeFilter → Employee → Bool
wanted f e =
    holds_if_given (λ d. is_in d e.department_id) f.department_id
    && holds_if_given (λ s. str_eq e.status s) f.status

-- The order of names is the database's collation.
unfoldable pub list_employees :
    (String → String → Bool) → EmployeeFilter → Statement (List Employee)
list_employees collates f now fresh db = (
  rows (sort_by (λ a b. collates a.full_name b.full_name) (select_rows (wanted f) db.employees)),
  db,
)

abbrev pub linked_employee : ℕ → ℕ → Employee → Employee
linked_employee now u e = record e { user_id = some u; updated_at = now }

abbrev pub link_row : Option Employee → ℕ → ℕ → ℕ → TenantDb → Answer Employee × TenantDb
link_row none i u now db = (no_rows, db)
link_row (some e) i u now db =
    if user_taken i (some u) db.employees then (sql_error "23505", db) else (
      rows (linked_employee now u e),
      record db { employees = update_rows (by_id i) (linked_employee now u) db.employees },
    )

unfoldable pub set_employee_user_id : ℕ → ℕ → Statement Employee
set_employee_user_id i u now fresh db = link_row (find_row (by_id i) db.employees) i u now db

abbrev pub updated_employee : UpdateEmployeeInput → ℕ → Employee → Employee
updated_employee inp now e = record e {
  full_name = coalesce inp.full_name e.full_name;
  employment_type = coalesce inp.employment_type e.employment_type;
  email = coalesce_null inp.email e.email;
  phone = coalesce_null inp.phone e.phone;
  department_id = coalesce_null inp.department_id e.department_id;
  title = coalesce_null inp.title e.title;
  status = coalesce inp.status e.status;
  hired_at = coalesce_null inp.hired_at e.hired_at;
  role_id = coalesce_null inp.role_id e.role_id;
  location = coalesce_null inp.location e.location;
  languages = coalesce inp.languages e.languages;
  emergency_contact_name = coalesce_null inp.emergency_contact_name e.emergency_contact_name;
  emergency_contact_phone = coalesce_null inp.emergency_contact_phone e.emergency_contact_phone;
  reports_to = coalesce_null inp.reports_to e.reports_to;
  employee_code = coalesce_null inp.employee_code e.employee_code;
  updated_at = now;
}

abbrev pub update_row :
    Option Employee → ℕ → UpdateEmployeeInput → ℕ → TenantDb → Answer Employee × TenantDb
update_row none i inp now db = (no_rows, db)
update_row (some e) i inp now db =
    if not (
      employment_type_allowed (coalesce inp.employment_type e.employment_type)
      && status_allowed (coalesce inp.status e.status))
    then (sql_error "23514", db)
    else if not (keys_exist db inp.department_id inp.role_id inp.reports_to)
    then (sql_error "23503", db)
    else (
      rows (updated_employee inp now e),
      record db { employees = update_rows (by_id i) (updated_employee inp now) db.employees },
    )

unfoldable pub update_employee : ℕ → UpdateEmployeeInput → Statement Employee
unfolding employment_type_allowed status_allowed
update_employee i inp now fresh db = update_row (find_row (by_id i) db.employees) i inp now db

abbrev pub without_lead : ℕ → Department → Department
without_lead now d = record d { lead_employee_id = none; updated_at = now }

abbrev pub without_manager : ℕ → Employee → Employee
without_manager now e = record e { reports_to = none; updated_at = now }

-- Shifts and attendance records refuse, leave requests and entitlements go too, leads and managers
-- become null.
unfoldable pub delete_employee : ℕ → Statement ℕ
delete_employee i now fresh db =
    if not (any_row (by_id i) db.employees)
    then (rows 0, db)
    else if any_row (λ s. s.employee_id == i) db.shifts
        || any_row (λ r. r.employee_id == i) db.attendance
    then (sql_error "23503", db)
    else (
      rows (count_rows (by_id i) db.employees),
      record db {
        employees =
            update_rows (λ e. is_in i e.reports_to) (without_manager now)
              (delete_rows (by_id i) db.employees);
        departments =
            update_rows (λ d. is_in i d.lead_employee_id) (without_lead now) db.departments;
        leave_requests = delete_rows (λ r. r.employee_id == i) db.leave_requests;
        leave_balances = delete_rows (λ b. b.employee_id == i) db.leave_balances;
      },
    )
