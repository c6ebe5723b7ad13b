-- ===== src/Leave/Queries.antt =====
-- gen/sqlc/leave/leave.sql.go: the statements on leave_requests and leave_balances, with the tables'
-- constraints.
use opero.Prelude.{
  ℕ, ◌+◌, ◌-◌, String, Bool, not, ◌&&◌, ◌||◌, Option, none, some, List, [], ◌∷◌, ◌==◌, ltb, leb,
  if◌then◌else◌, holds_if_given, any_row, find_row, select_rows, update_rows, sort_by, str_eq,
}
use opero.Effects.{Answer, rows, no_rows, sql_error, one}
use opero.Tenant.{Statement, has_employee}
use opero.Leave.Types.{Request, CreateInput, Filter, Entitlement, status_pending}

-- The CHECK constraints of the table.
unfoldable pub kind_allowed : String → Bool
kind_allowed k = str_eq k "holiday" || str_eq k "sick" || str_eq k "personal"

unfoldable pub status_allowed : String → Bool
status_allowed s = str_eq s "pending" || str_eq s "approved" || str_eq s "rejected"

abbrev pub by_id : ℕ → Request → Bool
by_id i r = r.id == i

abbrev pub pending_request : ℕ → ℕ → ℕ → CreateInput → Request
pending_request now fresh employee_id inp = record {
  id = fresh;
  employee_id = employee_id;
  kind = inp.kind;
  start_date = inp.start_date;
  end_date = inp.end_date;
  note = inp.note;
  status = status_pending;
  reviewed_by = none;
  reviewed_at = none;
  created_at = now;
  updated_at = now;
}

unfoldable pub create_leave_request : ℕ → CreateInput → Statement Request
unfolding kind_allowed
create_leave_request employee_id inp now fresh db =
    if not (kind_allowed inp.kind)
    then (sql_error "23514", db)
    else if ltb inp.end_date inp.start_date
    then (sql_error "23514", db)
    else if any_row (by_id fresh) db.leave_requests
    then (sql_error "23505", db)
    else if not (has_employee db employee_id)
    then (sql_error "23503", db)
    else (
      rows (pending_request now fresh employee_id inp),
      record db { leave_requests = pending_request now fresh employee_id inp ∷ db.leave_requests },
    )

unfoldable pub get_leave_request : ℕ → Statement Request
get_leave_request i now fresh db = (one (find_row (by_id i) db.leave_requests), db)

abbrev pub wanted : Filter → Request → Bool
wanted f r =
    holds_if_given (λ e. r.employee_id == e) f.employee_id
    && holds_if_given (λ s. str_eq r.status s) f.status

unfoldable pub list_leave_requests : Filter → Statement (List Request)
list_leave_requests f now fresh db = (
  rows (sort_by (λ a b. leb b.created_at a.created_at) (select_rows (wanted f) db.leave_requests)),
  db,
)

abbrev pub reviewed : String → Option ℕ → ℕ → Request → Request
reviewed status reviewed_by now r = record r {
  status = status;
  reviewed_by = reviewed_by;
  reviewed_at = some now;
  updated_at = now;
}

-- `UPDATE … WHERE id = $1`: no condition on the status.
unfoldable pub set_leave_status : ℕ → String → Option ℕ → Statement Request
unfolding status_allowed
set_leave_status i status reviewed_by now fresh db = elim (find_row (by_id i) db.leave_requests) [
  | none ↦ (no_rows, db)
  | some r ↦ if not (status_allowed status) then (sql_error "23514", db) else (
    rows (reviewed status reviewed_by now r),
    record db {
      leave_requests = update_rows (by_id i) (reviewed status reviewed_by now) db.leave_requests;
    },
  )
]

-- An approved request of the employee that starts in the period.
abbrev pub counted : ℕ → ℕ → ℕ → Request → Bool
counted employee_id year_start year_end r =
    r.employee_id == employee_id
    && str_eq r.status "approved"
    && leb year_start r.start_date
    && leb r.start_date year_end

-- `SUM(end_date - start_date + 1)`
unfoldable pub sum_days : (Request → Bool) → List Request → ℕ
sum_days p [] = 0
sum_days p (r ∷ rs) = (if p r then r.end_date + 1 - r.start_date else 0) + sum_days p rs

unfoldable pub sum_approved_leave_days : ℕ → ℕ → ℕ → Statement ℕ
unfolding sum_days
sum_approved_leave_days employee_id year_start year_end now fresh db =
    (rows (sum_days (counted employee_id year_start year_end) db.leave_requests), db)

abbrev pub entitlement_of : ℕ → ℕ → Entitlement → Bool
entitlement_of employee_id year b = b.employee_id == employee_id && b.year == year

abbrev pub entitled_days_of : Option Entitlement → Answer ℕ
entitled_days_of none = no_rows
entitled_days_of (some b) = rows b.entitled_days

unfoldable pub get_leave_entitlement : ℕ → ℕ → Statement ℕ
get_leave_entitlement employee_id year now fresh db =
    (entitled_days_of (find_row (entitlement_of employee_id year) db.leave_balances), db)
