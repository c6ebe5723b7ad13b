-- ===== src/Attendance/Queries.antt =====
-- gen/sqlc/attendance/attendance.sql.go: the statements on attendance_records, with the table's
-- constraints. A statement that breaks one fails with its SQLSTATE and changes nothing.
use opero.Prelude.{
  ℕ, String, Bool, true, false, not, ◌&&◌, ◌||◌, Option, none, some, List, ◌∷◌, ◌==◌, ltb, leb,
  if◌then◌else◌, holds_if_given, any_row, find_row, select_rows, update_rows, delete_rows,
  count_rows, sort_by, str_eq,
}
use opero.Prelude.Calendar.{to_micros, to_micros_if_given}
use opero.Effects.{Answer, rows, no_rows, sql_error, one}
use opero.Tenant.{TenantDb, Statement, has_employee, has_shift}
use opero.Attendance.Types.{Record, DemoRecordInput, CheckInInput, CheckOutInput, AttendanceFilter}

-- attendance_records_status_check
unfoldable pub status_allowed : String → Bool
status_allowed s =
    str_eq s "checked_in" || str_eq s "checked_out" || str_eq s "missed" || str_eq s "on_break"

abbrev pub by_client : ℕ → Record → Bool
by_client c r = r.client_id == c

abbrev pub linked_to_any : List ℕ → Record → Bool
linked_to_any ids r = elim r.shift_id [ none ↦ false | some s ↦ any_row (λ i. i == s) ids ]

-- The checks of an insertion: the status, the primary key and the unique client id, the references.
unfoldable pub insert_record : Record → TenantDb → Answer Record × TenantDb
unfolding status_allowed
insert_record r db =
    if not (status_allowed r.status)
    then (sql_error "23514", db)
    else if any_row (λ x. x.id == r.id) db.attendance
    then (sql_error "23505", db)
    else if any_row (by_client r.client_id) db.attendance
    then (sql_error "23505", db)
    else if not (has_employee db r.employee_id)
    then (sql_error "23503", db)
    else if not (holds_if_given (has_shift db) r.shift_id)
    then (sql_error "23503", db)
    else (rows r, record db { attendance = r ∷ db.attendance })

abbrev pub checked_in_record : ℕ → ℕ → ℕ → CheckInInput → Record
checked_in_record now fresh employee_id inp = record {
  id = fresh;
  employee_id = employee_id;
  shift_id = inp.shift_id;
  client_id = inp.client_id;
  check_in_at = some now;
  check_in_lat = inp.lat;
  check_in_lng = inp.lng;
  check_in_photo_url = inp.photo_url;
  check_out_at = none;
  check_out_lat = none;
  check_out_lng = none;
  check_out_photo_url = none;
  break_started_at = none;
  status = "checked_in";
  created_at = now;
  updated_at = now;
}

unfoldable pub create_check_in : ℕ → CheckInInput → Statement Record
unfolding insert_record
create_check_in employee_id inp now fresh db =
    insert_record (checked_in_record now fresh employee_id inp) db

abbrev pub check_out_record : CheckOutInput → ℕ → Record → Record
check_out_record inp now r = record r {
  check_out_at = some now;
  check_out_lat = inp.lat;
  check_out_lng = inp.lng;
  check_out_photo_url = inp.photo_url;
  status = "checked_out";
  break_started_at = none;
  updated_at = now;
}

-- `UPDATE … WHERE client_id = $1`: no condition on the status.
unfoldable pub check_out : CheckOutInput → Statement Record
check_out inp now fresh db =
    let after = update_rows (by_client inp.client_id) (check_out_record inp now) db.attendance in
    (one (find_row (by_client inp.client_id) after), record db { attendance = after })

abbrev pub is_open : Record → Bool
is_open r = str_eq r.status "checked_in" || str_eq r.status "on_break"

abbrev pub with_status : String → ℕ → Record → Record
with_status status now r = record r {
  status = status;
  break_started_at = if str_eq status "on_break" then some now else none;
  updated_at = now;
}

-- `UPDATE … WHERE client_id = $1 AND status IN ('checked_in', 'on_break')`.
abbrev pub open_of_client : ℕ → Record → Bool
open_of_client c r = by_client c r && is_open r

-- `UPDATE … WHERE client_id = $1 AND status IN ('checked_in', 'on_break')`.
unfoldable pub set_attendance_status : ℕ → String → Statement Record
unfolding status_allowed
set_attendance_status c status now fresh db = elim (find_row (open_of_client c) db.attendance) [
  | none ↦ (no_rows, db)
  | some r ↦ if not (status_allowed status) then (sql_error "23514", db) else (
    rows (with_status status now r),
    record db {
      attendance = update_rows (open_of_client c) (with_status status now) db.attendance;
    },
  )
]

unfoldable pub get_attendance_by_client_id : ℕ → Statement Record
get_attendance_by_client_id c now fresh db = (one (find_row (by_client c) db.attendance), db)

abbrev pub demo_record : ℕ → ℕ → ℕ → DemoRecordInput → Record
demo_record now fresh client_id inp = record {
  id = fresh;
  employee_id = inp.employee_id;
  shift_id = inp.shift_id;
  client_id = client_id;
  check_in_at = to_micros_if_given inp.check_in_at;
  check_in_lat = inp.check_in_lat;
  check_in_lng = inp.check_in_lng;
  check_in_photo_url = none;
  check_out_at = to_micros_if_given inp.check_out_at;
  check_out_lat = inp.check_out_lat;
  check_out_lng = inp.check_out_lng;
  check_out_photo_url = none;
  break_started_at = to_micros_if_given inp.break_started_at;
  status = inp.status;
  created_at = now;
  updated_at = now;
}

unfoldable pub create_demo_attendance : ℕ → DemoRecordInput → Statement Record
unfolding insert_record
create_demo_attendance client_id inp now fresh db =
    insert_record (demo_record now fresh client_id inp) db

unfoldable pub delete_attendance_by_shift_ids : List ℕ → Statement ℕ
delete_attendance_by_shift_ids ids now fresh db = (
  rows (count_rows (linked_to_any ids) db.attendance),
  record db { attendance = delete_rows (linked_to_any ids) db.attendance },
)

unfoldable pub list_attendance_by_shift_ids : List ℕ → Statement (List Record)
list_attendance_by_shift_ids ids now fresh db =
    (rows (select_rows (linked_to_any ids) db.attendance), db)

-- A comparison with a column that is NULL does not hold.
abbrev pub at_or_after : ℕ → Option ℕ → Bool
at_or_after t none = false
at_or_after t (some c) = leb t c

abbrev pub strictly_before : ℕ → Option ℕ → Bool
strictly_before t none = false
strictly_before t (some c) = ltb c t

-- `check_in_at DESC NULLS LAST`
abbrev pub latest_first : Option ℕ → Option ℕ → Bool
latest_first none none = true
latest_first none (some b) = false
latest_first (some a) none = true
latest_first (some a) (some b) = leb b a

abbrev pub wanted : AttendanceFilter → Record → Bool
wanted f r =
    holds_if_given (λ e. r.employee_id == e) f.employee_id
    && holds_if_given (λ s. str_eq r.status s) f.status
    && holds_if_given (λ t. at_or_after (to_micros t) r.check_in_at) f.from
    && holds_if_given (λ t. strictly_before (to_micros t) r.check_in_at) f.to

unfoldable pub list_attendance : AttendanceFilter → Statement (List Record)
list_attendance f now fresh db = (
  rows (
      sort_by (λ a b. latest_first a.check_in_at b.check_in_at)
        (select_rows (wanted f) db.attendance)),
  db,
)
