-- ===== src/Identity/OrgInvariant.antt =====
-- The statements on departments and roles keep what holds of employees and roles.
use opero.Prelude.{
  ℕ, String, ◌≡◌, refl, true, List, ◌∷◌, inl, inr, arith, All, All-update, All-delete, find_row,
  update_rows, delete_rows, coalesce, Option-cases,
}
use opero.Effects.Keeps.{KeepsQuery}
use opero.Tenant.{TenantDb}
use opero.Identity.Types.{
  Role, CreateDepartmentInput, UpdateDepartmentInput, CreateRoleInput, UpdateRoleInput,
}
use opero.Identity.Queries.{is_in}
use opero.Identity.OrgQueries.{
  access_level_allowed, role_by_id, new_role, updated_role, without_department, without_role,
  role_without_department, name_taken, department_by_id,
}
use opero.Identity.OrgQueries
use opero.Identity.Invariant.{IsRole, AreEmployees, Inv, nulled-AreEmployees, given_allowed}

-- A change of departments alone.
same-Inv :
    (db db' : TenantDb) → db'.employees ≡ db.employees → db'.roles ≡ db.roles → Inv db → Inv db'
same-Inv db db' e r v = record { people = rw e v.people; roles = rw r v.roles }

pub create_department-Inv :
    (inp : CreateDepartmentInput) → KeepsQuery Inv (OrgQueries.create_department inp)
unfolding OrgQueries.create_department
create_department-Inv inp now fresh db v = same-Inv db _ (ground arith) (ground arith) v

pub update_department-Inv :
    (i : ℕ) (inp : UpdateDepartmentInput) → KeepsQuery Inv (OrgQueries.update_department i inp)
unfolding OrgQueries.update_department
update_department-Inv i inp now fresh db v = same-Inv db _ (ground arith) (ground arith) v

pub delete_department-Inv : (i : ℕ) → KeepsQuery Inv (OrgQueries.delete_department i)
unfolding OrgQueries.delete_department
delete_department-Inv i now fresh db v = ground (arith, people, roles)
  where
    people :
        AreEmployees
          (update_rows (λ e. is_in i e.department_id) (without_department now) db.employees)
    people =
        nulled-AreEmployees (λ e. is_in i e.department_id) (without_department now) (λ e. refl)
          (λ e. refl) (λ e. refl) (λ e. refl) db.employees v.people

    roles :
        All IsRole
          (update_rows (λ r. is_in i r.department_id) (role_without_department now) db.roles)
    roles =
        All-update IsRole _ (role_without_department now) (λ r _ k. record { allowed = k.allowed })
          db.roles v.roles

created-Inv :
    (now fresh : ℕ) (inp : CreateRoleInput) (access_level : String) (permissions : List String)
    (db : TenantDb)
    → access_level_allowed access_level ≡ true
    → Inv db
    → Inv (record db { roles = new_role now fresh inp access_level permissions ∷ db.roles })
created-Inv now fresh inp access_level permissions db h v = record {
  people = v.people;
  roles = (record { allowed = h }, v.roles);
}

pub create_role-Inv :
    (fold : String → String) (inp : CreateRoleInput) (access_level : String)
    (permissions : List String)
    → KeepsQuery Inv (OrgQueries.create_role fold inp access_level permissions)
unfolding OrgQueries.create_role
create_role-Inv fold inp access_level permissions now fresh db v =
    ground (arith, created-Inv now fresh inp access_level permissions db)

updated-Inv :
    (i now : ℕ) (inp : UpdateRoleInput) (old : Role) (db : TenantDb)
    → access_level_allowed (coalesce inp.access_level old.access_level) ≡ true
    → Inv db
    → Inv (record db { roles = update_rows (role_by_id i) (updated_role inp now) db.roles })
updated-Inv i now inp old db h v = record {
  people = v.people;
  roles =
      All-update IsRole (role_by_id i) (updated_role inp now)
        (λ r _ k. record {
          allowed = given_allowed access_level_allowed inp.access_level _ _ h k.allowed;
        })
        db.roles v.roles;
}

pub update_role-Inv :
    (fold : String → String) (i : ℕ) (inp : UpdateRoleInput)
    → KeepsQuery Inv (OrgQueries.update_role fold i inp)
unfolding OrgQueries.update_role
update_role-Inv fold i inp now fresh db v = elim (Option-cases (find_row (role_by_id i) db.roles)) [
  | inl e ↦ rw e v
  | inr (old, e) ↦ rw e (ground (arith, updated-Inv i now inp old db))
]

pub delete_role-Inv : (i : ℕ) → KeepsQuery Inv (OrgQueries.delete_role i)
unfolding OrgQueries.delete_role
delete_role-Inv i now fresh db v = ground (arith, people, roles)
  where
    people : AreEmployees (update_rows (λ e. is_in i e.role_id) (without_role now) db.employees)
    people =
        nulled-AreEmployees (λ e. is_in i e.role_id) (without_role now) (λ e. refl) (λ e. refl)
          (λ e. refl) (λ e. refl) db.employees v.people

    roles : All IsRole (delete_rows (role_by_id i) db.roles)
    roles = All-delete IsRole (role_by_id i) db.roles v.roles
