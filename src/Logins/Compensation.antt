-- ===== src/Logins/Compensation.antt =====
-- What CreateEmployeeLogin (identity/service.go) leaves in the two databases.
use opero.Prelude.{
  ℕ, String, ◌≡◌, ◌≢◌, refl, sym, subst, ap, Bool, true, false, none, some, is_some, List, [], ◌∷◌,
  ◌⊎◌, inl, inr, any_row, find_row, delete_rows, delete_rows-none, ==_refl, Option-cases, ◌∙◌,
  trim_space, is_empty, if◌then◌else◌,
}
use opero.Effects.{
  Result, ok, err, Link, lost, World, Turn, quiet, pure, raise, query, exec, tenant_store,
}
use opero.Effects.Error.{Err, conflict, not_found, identity}
use opero.Effects.Runs.{bind-ok, bind-err, bind-attempt}
use opero.Tenant.{TenantDb}
use opero.Identity.Types.{Employee, LoginResult}
use opero.Identity.Queries
use opero.Identity.Store
use opero.Controlplane.Types.{User}
use opero.Controlplane.Queries as ControlQueries
use opero.Controlplane.Store as Control
use opero.Controlplane.Service.{Crypto, role_or_default}
use opero.Logins.Service.{Databases, control_users, on_tenant, on_control}
use opero.Logins.Service
use opero.Logins.Steps.{request, link_turn, with_login, control_create_user-Outcome, link-Outcome}

module _ (crypto : Crypto) (tenant_id employee_id : ℕ) (email password role : String)
    (d : Databases) (other : TenantDb → TenantDb) (l : Link) (t0 k0 t1 k1 t2 k2 t3 k3 : ℕ)
    (rest : List (Turn Databases)) where
  abbrev given : String
  given = if is_empty role then "employee" else role

  abbrev new_user : String → User
  new_user hash =
      ControlQueries.new_user t1 k1 tenant_id (trim_space email) hash
        (role_or_default given "employee") "active"

  abbrev pub Withdrawn : Result LoginResult × World Databases → Type 0
  Withdrawn (r, w) =
      (e : Err) × (r ≡ err e)
      × (w.db.control ≡ d.control)
      × ((w.db.tenant ≡ d.tenant) ⊎ (w.db.tenant ≡ other d.tenant))

  abbrev pub Linked : Result LoginResult × World Databases → Type 0
  Linked (r, w) =
      (hash : String) × (found : Employee) × (r
        ≡ ok (record { user_id = k1; email = trim_space email; role = given }))
      × (w.db.control ≡ record d.control { users = new_user hash ∷ d.control.users })
      × (find_row (Queries.by_id employee_id) w.db.tenant.employees ≡ some found)
      × (found.user_id ≡ some k1)

  removed :
      (hash : String) (db : TenantDb)
      → any_row (ControlQueries.user_by_id k1) d.control.users ≡ false
      → Service.control_delete_user k1 (
          request
            (record d {
              tenant = db;
              control = record d.control { users = new_user hash ∷ d.control.users };
            })
            (quiet t3 k3 ∷ rest))
        ≡ (ok tt, request (record d { tenant = db }) rest)
  unfolding Service.control_delete_user on_control ControlQueries.delete_user Control.map_err query
      exec delete_rows
  removed hash db free =
      rw (==_refl k1, delete_rows-none (ControlQueries.user_by_id k1) d.control.users free) refl

  withdrawn :
      (o : Result LoginResult × World Databases) (e : Err) (db : TenantDb)
      (ts : List (Turn Databases))
      → (db ≡ d.tenant) ⊎ (db ≡ other d.tenant)
      → o ≡ (err e, request (record d { tenant = db }) ts)
      → Withdrawn o
  withdrawn o e db ts (inl same) h =
      (e, ap (λ x. x.0) h, ap (λ x. x.1.db.control) h, inl (ap (λ x. x.1.db.tenant) h ∙ same))
  withdrawn o e db ts (inr same) h =
      (e, ap (λ x. x.0) h, ap (λ x. x.1.db.control) h, inr (ap (λ x. x.1.db.tenant) h ∙ same))

  linked :
      (o : Result LoginResult × World Databases) (hash : String) (found : Employee) (db : TenantDb)
      → find_row (Queries.by_id employee_id) db.employees ≡ some found
      → found.user_id ≡ some k1
      → o ≡ (
        ok (record { user_id = k1; email = trim_space email; role = given }),
        request
            (record {
              tenant = db;
              control = record d.control { users = new_user hash ∷ d.control.users };
            })
            (quiet t3 k3 ∷ rest),
      )
      → Linked o
  linked o hash found db here theirs h = (
    hash,
    found,
    ap (λ x. x.0) h,
    ap (λ x. x.1.db.control) h,
    ap (λ x. find_row (Queries.by_id employee_id) x.1.db.tenant.employees) h ∙ here,
    theirs,
  )

  provision-Outcome :
      l ≢ lost
      → let o =
          Service.provision
            (control_users crypto)
            tenant_id
            employee_id
            email
            password
            given
            (request d (quiet t1 k1 ∷ link_turn other l t2 k2 ∷ quiet t3 k3 ∷ rest)) in
        Withdrawn o ⊎ Linked o
  unfolding Service.provision Service.linked_or_removed pure raise
  provision-Outcome arrives =
      elim (control_create_user-Outcome crypto tenant_id email password given d t1 k1
        (link_turn other l t2 k2 ∷ quiet t3 k3 ∷ rest)) [
          | inr (e, ts, barred) ↦ inl (withdrawn _ e d.tenant ts (inl refl) (bind-err _ _ barred))
          | inl (hash, free, made) ↦
              elim (link-Outcome other l employee_id k1 t2 k2
                (with_login crypto tenant_id email password given d t1 k1 [] hash)
                (quiet t3 k3 ∷ rest) arrives) [
                  | inr (e, failed) ↦ inl (
                      withdrawn _ e (other d.tenant) rest (inr refl) (
                        bind-ok _ _ made
                        ∙ bind-attempt _ _ failed
                        ∙ bind-attempt _ _ (removed hash (other d.tenant) free)))
                  | inl (e, found, db, here, theirs, done) ↦ inr (
                      linked _ hash found db here theirs (bind-ok _ _ made ∙ bind-attempt _ _ done))
                ]
        ]

  abbrev pub start : World Databases
  start = request d (quiet t0 k0 ∷ quiet t1 k1 ∷ link_turn other l t2 k2 ∷ quiet t3 k3 ∷ rest)

  abbrev after_start : World Databases
  after_start = request d (quiet t1 k1 ∷ link_turn other l t2 k2 ∷ quiet t3 k3 ∷ rest)

  unlinked :
      (linked_already : Bool)
      → l ≢ lost
      → let m =
          (if linked_already
            then raise (conflict identity)
            else Service.provision
                (control_users crypto)
                tenant_id
                employee_id
                email
                password
                given) in
        Withdrawn (m after_start) ⊎ Linked (m after_start)
  unfolding raise
  unlinked true arrives = inl (conflict identity, refl, refl, inl refl)
  unlinked false arrives = provision-Outcome arrives

  got :
      (emp : Employee)
      → find_row (Queries.by_id employee_id) d.tenant.employees ≡ some emp
      → query Store.map_err (on_tenant (Queries.get_employee employee_id)) start
        ≡ (ok emp, after_start)
  unfolding on_tenant Queries.get_employee query exec Store.map_err
  got emp found = rw found refl

  missing :
      find_row (Queries.by_id employee_id) d.tenant.employees ≡ none
      → query Store.map_err (on_tenant (Queries.get_employee employee_id)) start
        ≡ (err (not_found identity), after_start)
  unfolding on_tenant Queries.get_employee query exec Store.map_err
  missing absent = rw absent refl

  -- CreateEmployeeLogin, where the connection holds but for a cut at the link, and where other requests
  -- come between its statements only at the link and only in the tenant's database: an error leaves the
  -- users as they were and the tenant's database as it was or as the others left it. A result makes one
  -- user, for the tenant, with the trimmed address and the role, and the employee is linked to it.
  pub create_employee_login-Compensates :
      l ≢ lost
      → let o =
          Service.create_employee_login
            (control_users crypto)
            tenant_id
            employee_id
            email
            password
            role
            start in
        Withdrawn o ⊎ Linked o
  unfolding Service.create_employee_login tenant_store
  create_employee_login-Compensates arrives =
      elim (Option-cases (find_row (Queries.by_id employee_id) d.tenant.employees)) [
        | inl absent ↦ inl (
            withdrawn _ (not_found identity) d.tenant
              (quiet t1 k1 ∷ link_turn other l t2 k2 ∷ quiet t3 k3 ∷ rest) (inl refl)
              (bind-ok (tenant_store identity) _ refl ∙ bind-err _ _ (missing absent)))
        | inr (emp, found) ↦
            subst (λ o. Withdrawn o ⊎ Linked o)
              (sym (bind-ok (tenant_store identity) _ refl ∙ bind-ok _ _ (got emp found)))
              (unlinked (is_some emp.user_id) arrives)
      ]
