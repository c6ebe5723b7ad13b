-- ===== src/Leave/Balances.antt =====
-- The balance of a leave year (leave/service.go, MyBalance): what it adds up.
use opero.Prelude.{
  ℕ, ◌≡◌, ap, refl, Bool, true, false, Option, none, some, List, [], ◌∷◌, ◌+◌, ◌-◌, arith, ◌==◌,
  leb, str_eq, str_eq-of-eq, any_row, find_row, update_rows, KeysDistinct, ==_iff, Bool-cases, inl,
  inr,
}
use opero.Prelude.Calendar.{year_start, year_end}
use opero.Tenant.{TenantDb}
use opero.Leave.Types.{Request, Entitlement}
use opero.Leave.Queries.{by_id, counted, entitlement_of, reviewed, sum_days}
use opero.Leave.Queries
use opero.Leave.Store
use opero.Leave.Service
use opero.Leave.Service.{Balance}
use opero.Leave.Decisions.{IsStored}

-- The days of the approved requests that start in the year.
abbrev pub used_in : TenantDb → ℕ → ℕ → ℕ
used_in db emp year = sum_days (counted emp (year_start year) (year_end year)) db.leave_requests

abbrev pub entitled_days_of : Option Entitlement → ℕ
entitled_days_of none = 22
entitled_days_of (some b) = b.entitled_days

abbrev pub entitled_in : TenantDb → ℕ → ℕ → ℕ
entitled_in db emp year = entitled_days_of (find_row (entitlement_of emp year) db.leave_balances)

sum_days-other :
    (p : Request → Bool) (i : ℕ) (f : Request → Request) (xs : List Request)
    → any_row (λ y. y.id == i) xs ≡ false
    → sum_days p (update_rows (by_id i) f xs) ≡ sum_days p xs
unfolding sum_days update_rows any_row
sum_days-other p i f [] h = refl
sum_days-other p i f (x ∷ xs) h = ground (arith, sum_days-other p i f xs)

sum_days-update :
    (p : Request → Bool) (i : ℕ) (f : Request → Request) (xs : List Request) {r : Request}
    → KeysDistinct (λ x. x.id) xs
    → find_row (by_id i) xs ≡ some r
    → p r ≡ false
    → p (f r) ≡ true
    → sum_days p (update_rows (by_id i) f xs)
      ≡ sum_days p xs + ((f r).end_date + 1 - (f r).start_date)
unfolding sum_days update_rows find_row
sum_days-update p i f [] d h n y = absurd (ground arith)
sum_days-update p i f (x ∷ xs) {r} d h n y = elim (Bool-cases (x.id == i)) [
  | inl hit ↦
      let same : x ≡ r = ground arith in
      let other : any_row (λ q. q.id == i) xs ≡ false = rw ((==_iff x.id i).0 hit) at d.0 in
      rw
        (
          hit,
          ap p same,
          ap (λ z. p (f z)) same,
          n,
          y,
          ap (λ z. (f z).end_date) same,
          ap (λ z. (f z).start_date) same,
          sum_days-other p i f xs other,
        )
        (ground arith)
  | inr miss ↦ rw (miss, sum_days-update p i f xs d.1 (ground arith) n y) (ground arith)
]

-- The approval of a pending request, in a table of distinct ids, adds the days of the request, both
-- ends counted, to the days used of its employee in the year in which it starts, so that it takes them
-- off what remains.
pub approval-spends :
    (db : TenantDb) (i reviewer now fresh year : ℕ) (r : Request)
    → KeysDistinct (λ x. x.id) db.leave_requests
    → IsStored i r db
    → str_eq r.status "pending" ≡ true
    → leb (year_start year) r.start_date ≡ true
    → leb r.start_date (year_end year) ≡ true
    → let (_, after) = Queries.set_leave_status i "approved" (some reviewer) now fresh db in
      used_in after r.employee_id year
      ≡ used_in db r.employee_id year + (r.end_date + 1 - r.start_date)
unfolding Queries.set_leave_status Queries.status_allowed
approval-spends db i reviewer now fresh year r d h pending low high =
    let not_yet = str_eq-of-eq r.status "pending" "approved" {b = false} in
    rw (h, Queries.set_leave_status)
      (sum_days-update _ i (reviewed "approved" (some reviewer) now) db.leave_requests d h
        (ground (arith, not_yet)) (ground arith))
