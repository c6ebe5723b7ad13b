-- ===== src/Leave/Success.antt =====
-- Requests for leave and their review in a database that answers: what they return and what they write
-- (leave/service.go).
use opero.Prelude.{
  ℕ, String, ◌≡◌, refl, true, false, some, List, ◌∷◌, arith, str_eq, update_rows, find_row-update,
  str_eq-of-eq,
}
use opero.Effects.{Result, ok, World, Turn, quiet, pure, raise, tenant_store, exec, query, ◌>>=◌}
use opero.Tenant.{TenantDb}
use opero.Leave.Types.{Request}
use opero.Leave.Queries.{by_id, reviewed}
use opero.Leave.Decisions.{IsStored}
use opero.Leave.Queries
use opero.Leave.Store
use opero.Leave.Service

module _ (db : TenantDb) (rest : List (Turn TenantDb)) where
  abbrev two_turns : ℕ → ℕ → ℕ → ℕ → (TenantDb → TenantDb) → World TenantDb
  two_turns t f t' f' rival = record {
    pool = true;
    db = db;
    turns = quiet t f ∷ record (quiet t' f') { rival = rival } ∷ rest;
  }

  module _ (i reviewer t f t' f' : ℕ) (r : Request) (h : IsStored i r db)
      (pending : str_eq r.status "pending" ≡ true) where
    abbrev decide : String → Result Request × World TenantDb
    decide target = (
      ok (reviewed target (some reviewer) t' r),
      record {
        pool = true;
        db = record db {
          leave_requests =
              update_rows (by_id i) (reviewed target (some reviewer) t') db.leave_requests;
        };
        turns = rest;
      },
    )

    -- An approval that read the request while it was pending overturns a rejection that commits before
    -- its write, and succeeds.
    pub approve-overturns :
        (other t₀ f₀ : ℕ)
        → let rejected =
            λ (d : TenantDb). (Queries.set_leave_status i "rejected" (some other) t₀ f₀ d).1 in
          let w = Service.approve i reviewer (two_turns t f t' f' rejected) in
          let final = reviewed "approved" (some reviewer) t' r in
          IsStored i (reviewed "rejected" (some other) t₀ r) (rejected db)
          × (w.0 ≡ ok final)
          × IsStored i final w.1.db
    unfolding Service.approve Service.review Store.get Store.set_status Queries.get_leave_request
        Queries.set_leave_status Queries.status_allowed Store.map_err query exec ◌>>=◌ pure raise
        tenant_store
    approve-overturns other t₀ f₀ =
        let once =
          find_row-update (by_id i) (reviewed "rejected" (some other) t₀) (λ x. refl)
            db.leave_requests {x = r} h in
        let twice =
          find_row-update (by_id i) (reviewed "approved" (some reviewer) t') (λ x. refl) _ once in
        let not_yet = str_eq-of-eq r.status "pending" "approved" {b = false} in
        (
          ground (arith, h, once),
          ground (arith, h, once, pending, not_yet),
          ground (arith, h, once, twice, pending, not_yet),
        )
