-- ===== src/Identity/Requests.antt =====
-- The requests of identity/service.go keep the invariant, whatever other requests commit between their
-- statements and wherever the connection fails.
use opero.Prelude.{ℕ, String}
use opero.Effects.Keeps.{Keeps, Keeps-query, keeps_rules}
use opero.Identity.Types.{
  CreateDepartmentInput, UpdateDepartmentInput, CreateEmployeeInput, UpdateEmployeeInput,
  CreateRoleInput, UpdateRoleInput,
}
use opero.Identity.Invariant
use opero.Identity.Invariant.{Inv}
use opero.Identity.OrgInvariant
use opero.Identity.Store
use opero.Identity.Service

create_person-Inv : (inp : CreateEmployeeInput) → Keeps Inv (Store.create_employee inp)
unfolding Store.create_employee
create_person-Inv inp = Keeps-query _ _ (Invariant.create_employee-Inv inp _)

update_person-Inv : (i : ℕ) (inp : UpdateEmployeeInput) → Keeps Inv (Store.update_employee i inp)
unfolding Store.update_employee
update_person-Inv i inp = Keeps-query _ _ (Invariant.update_employee-Inv i inp)

delete_person-Inv : (i : ℕ) → Keeps Inv (Store.delete_employee i)
unfolding Store.delete_employee
delete_person-Inv i = Keeps-query _ _ (Invariant.delete_employee-Inv i)

link-Inv : (i u : ℕ) → Keeps Inv (Store.set_employee_user_id i u)
unfolding Store.set_employee_user_id
link-Inv i u = Keeps-query _ _ (Invariant.set_employee_user_id-Inv i u)

create_unit-Inv : (inp : CreateDepartmentInput) → Keeps Inv (Store.create_department inp)
unfolding Store.create_department
create_unit-Inv inp = Keeps-query _ _ (OrgInvariant.create_department-Inv inp)

update_unit-Inv : (i : ℕ) (inp : UpdateDepartmentInput) → Keeps Inv (Store.update_department i inp)
unfolding Store.update_department
update_unit-Inv i inp = Keeps-query _ _ (OrgInvariant.update_department-Inv i inp)

delete_unit-Inv : (i : ℕ) → Keeps Inv (Store.delete_department i)
unfolding Store.delete_department
delete_unit-Inv i = Keeps-query _ _ (OrgInvariant.delete_department-Inv i)

create_role-Inv :
    (fold : String → String) (inp : CreateRoleInput) → Keeps Inv (Store.create_role fold inp)
unfolding Store.create_role
create_role-Inv fold inp = Keeps-query _ _ (OrgInvariant.create_role-Inv fold inp _ _)

update_role-Inv :
    (fold : String → String) (i : ℕ) (inp : UpdateRoleInput)
    → Keeps Inv (Store.update_role fold i inp)
unfolding Store.update_role
update_role-Inv fold i inp = Keeps-query _ _ (OrgInvariant.update_role-Inv fold i inp)

delete_role-Inv : (i : ℕ) → Keeps Inv (Store.delete_role i)
unfolding Store.delete_role
delete_role-Inv i = Keeps-query _ _ (OrgInvariant.delete_role-Inv i)

ruleset store_keeps = (
  keeps_rules, create_person-Inv, update_person-Inv, delete_person-Inv, create_unit-Inv,
  update_unit-Inv, delete_unit-Inv, create_role-Inv, update_role-Inv, delete_role-Inv,
)

-- Each request that writes departments, employees or roles, and the statement that links an employee to
-- a user, keeps the invariant: employees have ids of their own and an employment type and a status of
-- those allowed, no two are linked to one user, and roles have an access level of those allowed. It does
-- so under any interleaving with requests that keep it.
pub identity_writes-Inv :
    (i u : ℕ) (fold : String → String) (dept : CreateDepartmentInput)
    (new_dept : UpdateDepartmentInput) (emp : CreateEmployeeInput) (new_emp : UpdateEmployeeInput)
    (role : CreateRoleInput) (new_role : UpdateRoleInput)
    → (Keeps Inv (Service.create_department dept)
        × Keeps Inv (Service.update_department i new_dept)
        × Keeps Inv (Service.delete_department i))
      × (Keeps Inv (Service.create_employee emp)
          × Keeps Inv (Service.update_employee i new_emp)
          × Keeps Inv (Service.delete_employee i)
          × Keeps Inv (Store.set_employee_user_id i u))
      × Keeps Inv (Service.create_role fold role)
      × Keeps Inv (Service.update_role fold i new_role)
      × Keeps Inv (Service.delete_role i)
unfolding Service.create_department Service.update_department Service.delete_department
    Service.create_employee Service.update_employee Service.delete_employee Service.create_role
    Service.update_role Service.delete_role
identity_writes-Inv i u fold dept new_dept emp new_emp role new_role = (
  (search store_keeps depth 12, search store_keeps depth 12, search store_keeps depth 12),
  (
    search store_keeps depth 12,
    search store_keeps depth 12,
    search store_keeps depth 12,
    link-Inv i u,
  ),
  search store_keeps depth 12,
  search store_keeps depth 12,
  search store_keeps depth 12,
)
