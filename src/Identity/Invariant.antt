-- ===== src/Identity/Invariant.antt =====
-- What holds of employees and roles between requests.
use opero.Prelude.{
  ℕ, String, ◌≡◌, refl, Bool, true, false, Option, none, some, List, ◌∷◌, inl, inr, arith, All,
  All-update, All-delete, KeysDistinct, KeysDistinct-update, KeysDistinct-delete, any_row, find_row,
  update_rows, delete_rows, coalesce, Bool-cases, Option-cases,
}
use opero.Effects.Keeps.{KeepsQuery}
use opero.Tenant.{TenantDb}
use opero.Identity.Types.{Employee, Role, CreateEmployeeInput, UpdateEmployeeInput}
use opero.Identity.Queries.{
  employment_type_allowed, status_allowed, by_id, new_employee, user_taken, linked_employee,
  updated_employee, is_in, without_manager,
}
use opero.Identity.Queries
use opero.Identity.OrgQueries.{access_level_allowed}
use opero.Identity.Uniqueness.{
  UsersDistinct, UsersDistinct-update, UsersDistinct-delete, new_user-clash, linked-UsersDistinct,
}

-- The values that the columns allow.
pub record IsEmployee (e : Employee) : Type 0 where
  pub typed : employment_type_allowed e.employment_type ≡ true
  pub standing : status_allowed e.status ≡ true

pub record IsRole (r : Role) : Type 0 where
  pub allowed : access_level_allowed r.access_level ≡ true

pub record AreEmployees (es : List Employee) : Type 0 where
  pub each : All IsEmployee es
  pub ids : KeysDistinct (λ e. e.id) es
  pub users : UsersDistinct es

pub record Inv (db : TenantDb) : Type 0 where
  pub people : AreEmployees db.employees
  pub roles : All IsRole db.roles

update-AreEmployees :
    (p : Employee → Bool) (f : Employee → Employee)
    → ((e : Employee) → (f e).id ≡ e.id)
    → ((e : Employee) → (f e).user_id ≡ e.user_id)
    → ((e : Employee) → IsEmployee e → IsEmployee (f e))
    → (es : List Employee) → AreEmployees es
    → AreEmployees (update_rows p f es)
update-AreEmployees p f id user kind es v = record {
  each = All-update IsEmployee p f (λ e _. kind e) es v.each;
  ids = KeysDistinct-update _ p f id es v.ids;
  users = UsersDistinct-update p f user es v.users;
}

delete-AreEmployees :
    (p : Employee → Bool) (es : List Employee) → AreEmployees es → AreEmployees (delete_rows p es)
delete-AreEmployees p es v = record {
  each = All-delete IsEmployee p es v.each;
  ids = KeysDistinct-delete _ p es v.ids;
  users = UsersDistinct-delete p es v.users;
}

-- An update that leaves the user, the type and the status alone.
pub nulled-AreEmployees :
    (p : Employee → Bool) (f : Employee → Employee)
    → ((e : Employee) → (f e).id ≡ e.id)
    → ((e : Employee) → (f e).user_id ≡ e.user_id)
    → ((e : Employee) → (f e).employment_type ≡ e.employment_type)
    → ((e : Employee) → (f e).status ≡ e.status)
    → (es : List Employee) → AreEmployees es
    → AreEmployees (update_rows p f es)
nulled-AreEmployees p f id user kind status =
    update-AreEmployees p f id user
      (λ e v. record { typed = rw (kind e) v.typed; standing = rw (status e) v.standing })

created-Inv :
    (now fresh : ℕ) (inp : CreateEmployeeInput) (languages : List String) (db : TenantDb)
    → employment_type_allowed inp.employment_type ≡ true
    → status_allowed inp.status ≡ true
    → any_row (by_id fresh) db.employees ≡ false
    → user_taken fresh inp.user_id db.employees ≡ false
    → Inv db
    → Inv (record db { employees = new_employee now fresh inp languages ∷ db.employees })
created-Inv now fresh inp languages db t s a u v = record {
  people = record {
    each = (record { typed = t; standing = s }, v.people.each);
    ids = (a, v.people.ids);
    users = (new_user-clash fresh inp.user_id db.employees a u, v.people.users);
  };
  roles = v.roles;
}

pub create_employee-Inv :
    (inp : CreateEmployeeInput) (languages : List String)
    → KeepsQuery Inv (Queries.create_employee inp languages)
unfolding Queries.create_employee
create_employee-Inv inp languages now fresh db v =
    ground (arith, created-Inv now fresh inp languages db)

pub set_employee_user_id-Inv : (i u : ℕ) → KeepsQuery Inv (Queries.set_employee_user_id i u)
unfolding Queries.set_employee_user_id
set_employee_user_id-Inv i u now fresh db v =
    elim (Option-cases (find_row (by_id i) db.employees)) [
      | inl e ↦ rw e v
      | inr (old, e) ↦ elim (Bool-cases (user_taken i (some u) db.employees)) [
        | inl taken ↦ rw (e, taken) v
        | inr free ↦
            rw (e, free)
              (record {
                people = record {
                  each =
                      All-update IsEmployee _ (linked_employee now u)
                        (λ e _ k. record { typed = k.typed; standing = k.standing }) db.employees
                        v.people.each;
                  ids =
                      KeysDistinct-update _ _ (linked_employee now u) (λ e. refl) db.employees
                        v.people.ids;
                  users =
                      linked-UsersDistinct i u now db.employees v.people.ids free v.people.users;
                };
                roles = v.roles;
              })
      ]
    ]

-- A value that is allowed with the old one of some row is allowed with that of any allowed row.
pub given_allowed :
    (allowed : String → Bool) (given : Option String) (old other : String)
    → allowed (coalesce given old) ≡ true
    → allowed other ≡ true
    → allowed (coalesce given other) ≡ true
given_allowed allowed none old other h k = k
given_allowed allowed (some g) old other h k = h

updated-Inv :
    (i now : ℕ) (inp : UpdateEmployeeInput) (old : Employee) (db : TenantDb)
    → employment_type_allowed (coalesce inp.employment_type old.employment_type) ≡ true
    → status_allowed (coalesce inp.status old.status) ≡ true
    → Inv db
    → Inv (record db { employees = update_rows (by_id i) (updated_employee inp now) db.employees })
updated-Inv i now inp old db t s v = record {
  people =
      update-AreEmployees (by_id i) (updated_employee inp now) (λ e. refl) (λ e. refl)
        (λ e k. record {
          typed = given_allowed employment_type_allowed inp.employment_type _ _ t k.typed;
          standing = given_allowed status_allowed inp.status _ _ s k.standing;
        })
        db.employees v.people;
  roles = v.roles;
}

pub update_employee-Inv :
    (i : ℕ) (inp : UpdateEmployeeInput) → KeepsQuery Inv (Queries.update_employee i inp)
unfolding Queries.update_employee
update_employee-Inv i inp now fresh db v = elim (Option-cases (find_row (by_id i) db.employees)) [
  | inl e ↦ rw e v
  | inr (old, e) ↦ rw e (ground (arith, updated-Inv i now inp old db))
]

pub delete_employee-Inv : (i : ℕ) → KeepsQuery Inv (Queries.delete_employee i)
unfolding Queries.delete_employee
delete_employee-Inv i now fresh db v = ground (arith, deleted)
  where
    deleted : AreEmployees (
        update_rows
          (λ e. is_in i e.reports_to)
          (without_manager now)
          (delete_rows (by_id i) db.employees))
    deleted =
        nulled-AreEmployees (λ e. is_in i e.reports_to) (without_manager now) (λ e. refl)
          (λ e. refl) (λ e. refl) (λ e. refl) _
          (delete-AreEmployees (by_id i) db.employees v.people)
