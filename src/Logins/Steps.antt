-- ===== src/Logins/Steps.antt =====
-- The steps of CreateEmployeeLogin (identity/service.go): what the user creation and the link leave.
use opero.Prelude.{
  ℕ, String, ◌≡◌, ◌≢◌, refl, true, false, ◌&&◌, ◌||◌, some, List, ◌∷◌, ◌⊎◌, inl, inr, arith,
  any_row, find_row, find_row-update, update_rows, Bool-cases, Option-cases, trim_space, str_eq,
}
use opero.Effects.{
  rows, sql_error, ok, err, Link, up, cut, lost, World, Turn, quiet, pure, raise, query, exec,
  ◌>>=◌,
}
use opero.Effects.Error.{Err, internal, conflict, not_found, identity, controlplane, validation}
use opero.Tenant.{TenantDb}
use opero.Identity.Types.{Employee}
use opero.Identity.Queries
use opero.Identity.Store
use opero.Controlplane.Types.{User, ControlDb}
use opero.Controlplane.Queries as ControlQueries
use opero.Controlplane.Store as Control
use opero.Controlplane.Service.{Crypto, new_user_refused, role_or_default}
use opero.Logins.Service.{Databases, control_users, on_tenant, on_control}
use opero.Logins.Service

-- A request of the tenant, and the states that it goes through.
abbrev pub request : Databases → List (Turn Databases) → World Databases
request d ts = record { pool = true; db = d; turns = ts }

-- What an error leaves of a call that is the first to touch the control plane.
create_user-Outcome :
    (fold : String → String) (tenant_id : ℕ) (email hash role : String) (now fresh : ℕ)
    (db : ControlDb)
    → ((any_row (ControlQueries.user_by_id fresh) db.users ≡ false)
        × (ControlQueries.create_user fold tenant_id email hash role "active" now fresh db ≡ (
          rows (ControlQueries.new_user now fresh tenant_id email hash role "active"),
          record db {
            users = ControlQueries.new_user now fresh tenant_id email hash role "active" ∷ db.users;
          },
        )))
      ⊎ ((code : String) × (ControlQueries.create_user fold tenant_id email hash role "active" now
              fresh db
            ≡ (sql_error code, db)))
unfolding ControlQueries.create_user
create_user-Outcome fold tenant_id email hash role now fresh db =
    elim (Bool-cases
      (ControlQueries.role_allowed role && ControlQueries.user_status_allowed "active")) [
        | inr barred ↦ inr ("23514", rw barred refl)
        | inl allowed ↦
            elim (Bool-cases (
              any_row (ControlQueries.user_by_id fresh) db.users
              || any_row (ControlQueries.by_email fold tenant_id email) db.users)) [
                | inl taken ↦ inr ("23505", rw (allowed, taken) refl)
                | inr free ↦
                    elim (Bool-cases (any_row (ControlQueries.tenant_by_id tenant_id) db.tenants)) [
                      | inr absent ↦ inr ("23503", rw (allowed, free, absent) refl)
                      | inl there ↦ inl (ground (arith, free), rw (allowed, free, there) refl)
                    ]
              ]
      ]

map_err-fails : (code : String) → (e : Err) × (Control.map_err {A = User} (sql_error code) ≡ err e)
unfolding Control.map_err
map_err-fails code = elim (Bool-cases (str_eq code "23505")) [
  | inl h ↦ (conflict controlplane, rw h refl)
  | inr h ↦ (internal, rw h refl)
]

module _ (crypto : Crypto) (tenant_id : ℕ) (email password role : String) (d : Databases)
    (t1 k1 : ℕ) (ts : List (Turn Databases)) where
  abbrev new_login : String → User
  new_login hash =
      ControlQueries.new_user t1 k1 tenant_id (trim_space email) hash
        (role_or_default role "employee") "active"

  abbrev pub with_login : String → Databases
  with_login hash = record d {
    control = record d.control { users = new_login hash ∷ d.control.users };
  }

  pub control_create_user-Outcome :
      let o =
        Service.control_create_user crypto tenant_id email password role
          (request d (quiet t1 k1 ∷ ts)) in
      ((hash : String) × (any_row (ControlQueries.user_by_id k1) d.control.users ≡ false)
        × (o ≡ (ok k1, request (with_login hash) ts)))
      ⊎ ((e : Err) × (rest : List (Turn Databases)) × (o ≡ (err e, request d rest)))
  unfolding Service.control_create_user on_control pure raise ◌>>=◌ query exec Control.map_err
  control_create_user-Outcome = elim (Bool-cases (new_user_refused crypto email password role)) [
    | inl refused ↦ inr (validation controlplane, quiet t1 k1 ∷ ts, rw refused refl)
    | inr fine ↦ elim (Option-cases (crypto.hash_password password)) [
      | inl no_hash ↦ inr (internal, quiet t1 k1 ∷ ts, rw (fine, no_hash) refl)
      | inr (hash, made) ↦
          elim (create_user-Outcome crypto.fold tenant_id (trim_space email) hash
            (role_or_default role "employee") t1 k1 d.control) [
              | inl (fresh, stored) ↦ inl (hash, fresh, rw (fine, made, stored) refl)
              | inr (code, barred) ↦
                  let (e, fails) = map_err-fails code in
                  inr (e, ts, rw (fine, made, barred, fails) refl)
            ]
    ]
  ]

-- The turn of the link: another request may have changed the tenant's database, and the connection may
-- be cut.
abbrev pub link_turn : (TenantDb → TenantDb) → Link → ℕ → ℕ → Turn Databases
link_turn other l now fresh = record {
  rival = λ d. record d { tenant = other d.tenant };
  link = l;
  now = now;
  fresh = fresh;
}

pub link-Outcome :
    (other : TenantDb → TenantDb) (l : Link) (employee_id user_id t2 k2 : ℕ) (d : Databases)
    (ts : List (Turn Databases))
    → l ≢ lost
    → let o =
        query Store.map_err
          (on_tenant (Queries.set_employee_user_id employee_id user_id))
          (request d (link_turn other l t2 k2 ∷ ts)) in
      ((e : Employee) × (found : Employee) × (db : TenantDb) × (find_row
            (Queries.by_id employee_id)
            db.employees
          ≡ some found)
        × (found.user_id ≡ some user_id)
        × (o ≡ (ok e, request (record d { tenant = db }) ts)))
      ⊎ ((e : Err) × (o ≡ (err e, request (record d { tenant = other d.tenant }) ts)))
unfolding on_tenant Queries.set_employee_user_id query exec Store.map_err
link-Outcome other cut employee_id user_id t2 k2 d ts h = inr (internal, refl)
link-Outcome other lost employee_id user_id t2 k2 d ts h = absurd (h refl)
link-Outcome other up employee_id user_id t2 k2 d ts h =
    elim (Option-cases (find_row (Queries.by_id employee_id) (other d.tenant).employees)) [
      | inl absent ↦ inr (not_found identity, rw absent refl)
      | inr (e, found) ↦
          elim (Bool-cases
            (Queries.user_taken employee_id (some user_id) (other d.tenant).employees)) [
              | inl taken ↦ inr (conflict identity, rw (found, taken) refl)
              | inr free ↦ inl (
                Queries.linked_employee t2 user_id e,
                Queries.linked_employee t2 user_id e,
                record (other d.tenant) {
                  employees =
                      update_rows (Queries.by_id employee_id) (Queries.linked_employee t2 user_id)
                        (other d.tenant).employees;
                },
                find_row-update (Queries.by_id employee_id) (Queries.linked_employee t2 user_id)
                    (λ x. refl) (other d.tenant).employees found,
                refl,
                rw (found, free) refl,
              )
            ]
    ]
