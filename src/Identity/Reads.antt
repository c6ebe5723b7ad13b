-- ===== src/Identity/Reads.antt =====
-- The look-up of identity/service.go that other packages take only reads.
use opero.Prelude.{ℕ}
use opero.Effects.{Result, ok, err}
use opero.Effects.{World, Turn, quiet, exec, query, attempt, pure, tenant_store, ◌>>=◌}
use opero.Prelude.{◌≡◌, true, none, some, arith, List, ◌∷◌, find_row}
use opero.Prelude.{inl, inr, ◌∙◌, ◌⊎◌, Option, refl}
use opero.Effects.{one}
use opero.Effects.Error.{identity, not_found, errors_is}
use opero.Effects.Triple.{
  Triple, Triple-query, Triple-bind, Triple-attempt, Triple-weaken, Triple-Keeps, Triple-pure,
  Triple-raise, Triple-if, Replied,
}
use opero.Effects.Keeps.{Holds, Keeps, Keeps-tenant_store, Keeps-query, keeps_rules}
use opero.Tenant.{TenantDb}
use opero.Resolvers.{EmployeeResolverReads, Answers}
use opero.Identity.Types.{Employee}
use opero.Identity.Queries
use opero.Identity.Store
use opero.Identity.Service

get-Keeps : (P : TenantDb → Type 0) (u : ℕ) → Keeps P (Store.get_employee_by_user_id u)
unfolding Store.get_employee_by_user_id Queries.get_employee_by_user_id
get-Keeps P u = Keeps-query _ _ (λ now fresh db v. v)

report_employee-Keeps :
    (P : TenantDb → Type 0) (r : Result Employee) → Keeps P (Service.report_employee r)
unfolding Service.report_employee
report_employee-Keeps P (ok e) = search keeps_rules
report_employee-Keeps P (err e) = search keeps_rules

-- The employee resolver only reads.
pub employee_resolver-Reads : EmployeeResolverReads Service.employee_resolver
unfolding Service.employee_id_by_user_id
employee_resolver-Reads = record {
  keeps = λ P u. search (keeps_rules, get-Keeps P, report_employee-Keeps P) depth 8;
}

-- A linked user's look-up, with no other request before it, takes one turn and finds the employee.
pub employee_id_by_user_id-finds :
    (u t k : ℕ) (e : Employee) (db : TenantDb) (rest : List (Turn TenantDb))
    → find_row (Queries.by_user_id u) db.employees ≡ some e
    → Service.employee_id_by_user_id u (record { pool = true; db = db; turns = quiet t k ∷ rest })
      ≡ (ok (some e.id), record { pool = true; db = db; turns = rest })
unfolding Service.employee_id_by_user_id Service.report_employee Store.get_employee_by_user_id
    Store.map_err Queries.get_employee_by_user_id query exec attempt ◌>>=◌ pure tenant_store
employee_id_by_user_id-finds u t k e db rest linked = ground (arith, linked)

found_some : (o : Option Employee) (e : Employee) → Store.map_err (one o) ≡ ok e → o ≡ some e
unfolding Store.map_err
found_some none e h = absurd (ground arith)
found_some (some d) e h = ground arith

module _ (P : TenantDb → Type 0) (R : ℕ → Type 0) (u : ℕ)
    (linked : (db : TenantDb) (e : Employee)
      → P db
      → find_row (Queries.by_user_id u) db.employees ≡ some e
      → R e.id) where
  answered :
      (x : Result Employee) (w : World TenantDb)
      → Replied P Store.map_err (Queries.get_employee_by_user_id u) x w
      → Holds P w × ((e : Employee) → x ≡ ok e → R e.id)
  unfolding Store.map_err Queries.get_employee_by_user_id
  answered x w (h, inl broke) = (h, λ e same. absurd (ground arith))
  answered x w (h, inr ran) =
      (h, λ e same. linked ran.before e ran.started (found_some _ e (ran.answered ∙ same)))

  Looked : Result Employee → World TenantDb → Type 0
  Looked x w = Holds P w × ((e : Employee) → x ≡ ok e → R e.id)

  lookup :
      Triple (Holds P) (Store.get_employee_by_user_id u) (λ e. Looked (ok e)) (λ e. Looked (err e))
  unfolding Looked Store.get_employee_by_user_id Queries.get_employee_by_user_id
  lookup =
      Triple-weaken _ (λ w h. h) (λ b w h. answered (ok b) w h) (λ e w h. answered (err e) w h)
        (Triple-query P _ _ (λ now fresh db h. h))

  -- The resolver finds nothing or an employee with `R`, if every employee linked to the user has `R`.
  pub employee_resolver-Answers : Answers P R (Service.employee_id_by_user_id u)
  unfolding Looked Service.employee_id_by_user_id Service.report_employee
  employee_resolver-Answers =
      Triple-bind _ _ (Triple-Keeps _ (Keeps-tenant_store identity))
        λ _. Triple-bind _ _ (Triple-attempt _ lookup) report
    where
      report :
          (x : Result Employee)
          → Triple
              (Looked x)
              (Service.report_employee x)
              (λ found w. Holds P w × ((found ≡ none) ⊎ ((a : ℕ) × (found ≡ some a) × R a)))
              (λ e. Holds P)
      report (ok e) = Triple-pure (some e.id) (λ w h. (h.0, inr (e.id, refl, h.1 e refl)))
      report (err x) =
          Triple-if (errors_is x (not_found identity)) _ _
            (λ _. Triple-pure none (λ w h. (h.0, inl refl))) (λ _. Triple-raise x (λ w h. h.0))
