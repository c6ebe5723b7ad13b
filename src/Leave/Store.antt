-- ===== src/Leave/Store.antt =====
-- leave/store.go: the statements with their errors mapped to the package's sentinels. int and int32
-- are not told apart: years and days are far below 2 ^ 31.
use opero.Prelude.{ℕ, String, Option, none, some, List, str_eq, if◌then◌else◌}
use opero.Effects.{Answer, rows, no_rows, sql_error, broken, Result, ok, err, query}
use opero.Effects.Error.{leave, validation, not_found, internal}
use opero.Tenant.{Call}
use opero.Leave.Types.{Request, CreateInput, Filter}
use opero.Leave.Queries

-- `mapErr`, on the answers that are errors.
unfoldable pub map_err {ℓ} : {A : Type ℓ} → Answer A → Result A
map_err (rows a) = ok a
map_err no_rows = err (not_found leave)
map_err (sql_error code) =
    if str_eq code "23503"
    then err (validation leave)
    else if str_eq code "23514"
    then err (validation leave)
    else err internal
map_err broken = err internal

unfoldable pub create : ℕ → CreateInput → Call Request
unfolding map_err
create employee_id inp = query map_err (Queries.create_leave_request employee_id inp)

unfoldable pub get : ℕ → Call Request
unfolding map_err
get i = query map_err (Queries.get_leave_request i)

unfoldable pub list : Filter → Call (List Request)
unfolding map_err
list f = query map_err (Queries.list_leave_requests f)

unfoldable pub set_status : ℕ → String → Option ℕ → Call Request
unfolding map_err
set_status i status reviewed_by = query map_err (Queries.set_leave_status i status reviewed_by)

unfoldable pub sum_approved_days : ℕ → ℕ → ℕ → Call ℕ
unfolding map_err
sum_approved_days employee_id year_start year_end =
    query map_err (Queries.sum_approved_leave_days employee_id year_start year_end)

abbrev found_row : Result ℕ → Result (Option ℕ)
found_row (ok n) = ok (some n)
found_row (err e) = err e

-- No row is no error: the caller applies the default.
unfoldable pub read_entitlement : Answer ℕ → Result (Option ℕ)
unfolding map_err
read_entitlement (rows n) = ok (some n)
read_entitlement no_rows = ok none
read_entitlement (sql_error code) = found_row (map_err (sql_error code))
read_entitlement broken = found_row (map_err broken)

unfoldable pub entitlement : ℕ → ℕ → Call (Option ℕ)
unfolding read_entitlement
entitlement employee_id year =
    query read_entitlement (Queries.get_leave_entitlement employee_id year)
