-- ===== src/Attendance/Store.antt =====
-- attendance/store.go: the statements with their errors mapped to the package's sentinels.
use opero.Prelude.{ℕ, String, List, [], ◌∷◌, str_eq, if◌then◌else◌}
use opero.Effects.{Answer, rows, no_rows, sql_error, broken, Result, ok, err, query, pure}
use opero.Effects.Error.{attendance, validation, not_found, conflict, internal}
use opero.Tenant.{Call}
use opero.Attendance.Types.{Record, DemoRecordInput, CheckInInput, CheckOutInput, AttendanceFilter}
use opero.Attendance.Queries

-- `mapErr`, on the answers that are errors.
unfoldable pub map_err {ℓ} : {A : Type ℓ} → Answer A → Result A
map_err (rows a) = ok a
map_err no_rows = err (not_found attendance)
map_err (sql_error code) =
    if str_eq code "23503"
    then err (validation attendance)
    else if str_eq code "23505"
    then err (conflict attendance)
    else err internal
map_err broken = err internal

unfoldable pub get_by_client_id : ℕ → Call Record
unfolding map_err
get_by_client_id c = query map_err (Queries.get_attendance_by_client_id c)

unfoldable pub create_check_in : ℕ → CheckInInput → Call Record
unfolding map_err
create_check_in employee_id inp = query map_err (Queries.create_check_in employee_id inp)

unfoldable pub check_out : CheckOutInput → Call Record
unfolding map_err
check_out inp = query map_err (Queries.check_out inp)

unfoldable pub set_status : ℕ → String → Call Record
unfolding map_err
set_status c status = query map_err (Queries.set_attendance_status c status)

-- `uuid.New()`, the new record's client id, is an argument.
unfoldable pub create_demo_record : ℕ → DemoRecordInput → Call Record
unfolding map_err
create_demo_record client_id inp = query map_err (Queries.create_demo_attendance client_id inp)

unfoldable pub delete_by_shift_ids : List ℕ → Call ℕ
unfolding map_err
delete_by_shift_ids ids = query map_err (Queries.delete_attendance_by_shift_ids ids)

unfoldable pub list_by_shift_ids : List ℕ → Call (List Record)
unfolding map_err pure
list_by_shift_ids [] = pure []
list_by_shift_ids (i ∷ ids) = query map_err (Queries.list_attendance_by_shift_ids (i ∷ ids))

unfoldable pub list : AttendanceFilter → Call (List Record)
unfolding map_err
list f = query map_err (Queries.list_attendance f)
