-- ===== src/Leave/Invariant.antt =====
-- What holds of leave_requests between requests.
use opero.Prelude.{
  ℕ, String, ◌≡◌, refl, true, false, not, some, ◌∷◌, arith, ltb, str_eq, is_some, All, All-update,
  KeysDistinct, KeysDistinct-update, any_row, find_row, update_rows, Bool-cases, Option-cases, inl,
  inr,
}
use opero.Effects.Keeps.{KeepsQuery}
use opero.Tenant.{TenantDb}
use opero.Leave.Types.{Request, CreateInput}
use opero.Leave.Queries.{kind_allowed, status_allowed, pending_request, by_id, reviewed}
use opero.Leave.Queries

-- A request's status agrees with its review, and its dates are in order.
pub record IsCoherent (r : Request) : Type 0 where
  pub kind_known : kind_allowed r.kind ≡ true
  pub allowed : status_allowed r.status ≡ true
  pub in_order : ltb r.end_date r.start_date ≡ false
  pub reviewer_marked : is_some r.reviewed_by ≡ not (str_eq r.status "pending")
  pub review_marked : is_some r.reviewed_at ≡ not (str_eq r.status "pending")

pub record Inv (db : TenantDb) : Type 0 where
  pub coherent : All IsCoherent db.leave_requests
  pub ids : KeysDistinct (λ r. r.id) db.leave_requests

pending-IsCoherent :
    (now fresh emp : ℕ) (inp : CreateInput)
    → kind_allowed inp.kind ≡ true
    → ltb inp.end_date inp.start_date ≡ false
    → IsCoherent (pending_request now fresh emp inp)
unfolding status_allowed
pending-IsCoherent now fresh emp inp k o = record {
  kind_known = k;
  allowed = refl;
  in_order = o;
  reviewer_marked = refl;
  review_marked = refl;
}

add-Inv :
    (now fresh emp : ℕ) (inp : CreateInput) (db : TenantDb)
    → kind_allowed inp.kind ≡ true
    → ltb inp.end_date inp.start_date ≡ false
    → any_row (by_id fresh) db.leave_requests ≡ false
    → Inv db
    → Inv (record db { leave_requests = pending_request now fresh emp inp ∷ db.leave_requests })
add-Inv now fresh emp inp db k o f v = record {
  coherent = (pending-IsCoherent now fresh emp inp k o, v.coherent);
  ids = (f, v.ids);
}

pub create_leave_request-Inv :
    (emp : ℕ) (inp : CreateInput) → KeepsQuery Inv (Queries.create_leave_request emp inp)
unfolding Queries.create_leave_request
create_leave_request-Inv emp inp now fresh db v = ground (arith, add-Inv now fresh emp inp db)

reviewed-IsCoherent :
    (now reviewer : ℕ) (status : String) (r : Request)
    → status_allowed status ≡ true
    → str_eq status "pending" ≡ false
    → IsCoherent r
    → IsCoherent (reviewed status (some reviewer) now r)
reviewed-IsCoherent now reviewer status r a p c = record {
  kind_known = c.kind_known;
  allowed = a;
  in_order = c.in_order;
  reviewer_marked = rw p refl;
  review_marked = rw p refl;
}

pub set_leave_status-Inv :
    (i : ℕ) (status : String) (reviewer : ℕ)
    → str_eq status "pending" ≡ false
    → KeepsQuery Inv (Queries.set_leave_status i status (some reviewer))
unfolding Queries.set_leave_status
set_leave_status-Inv i status reviewer p now fresh db v =
    elim (Option-cases (find_row (by_id i) db.leave_requests)) [
      | inl e ↦ rw (e, Queries.set_leave_status) v
      | inr (r, e) ↦ elim (Bool-cases (status_allowed status)) [
        | inl a ↦ rw (e, a, Queries.set_leave_status) (set_rows a)
        | inr a ↦ rw (e, a, Queries.set_leave_status) v
      ]
    ]
  where
    set_rows :
        status_allowed status ≡ true
        → Inv (record db {
          leave_requests =
              update_rows (by_id i) (reviewed status (some reviewer) now) db.leave_requests;
        })
    set_rows a = record {
      coherent =
          All-update IsCoherent _ _ (λ r _. reviewed-IsCoherent now reviewer status r a p)
            db.leave_requests v.coherent;
      ids = KeysDistinct-update _ _ _ (λ r. refl) db.leave_requests v.ids;
    }
