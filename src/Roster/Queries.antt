-- ===== src/Roster/Queries.antt =====
-- gen/sqlc/roster: the statements on locations and shifts, with the tables' constraints. Instants
-- reach the database as whole microseconds, and its checks are on those. A deletion
-- sets the foreign keys that name the row to NULL, and the table's trigger then stamps `updated_at`.
use opero.Prelude.{
  ℕ, String, Bool, false, not, ◌&&◌, ◌||◌, Option, none, some, List, ◌∷◌, map, ◌==◌, ltb, leb,
  if◌then◌else◌, holds_if_given, coalesce, coalesce_null, any_row, find_row, select_rows,
  update_rows, delete_rows, count_rows, sort_by, str_eq,
}
use opero.Prelude.Calendar.{to_micros, to_micros_if_given}
use opero.Effects.{Answer, rows, no_rows, sql_error, one}
use opero.Tenant.{TenantDb, Statement, has_employee, has_location, has_tour}
use opero.Attendance.Types.{Record}
use opero.Roster.Types.{
  Location, Shift, CreateLocationInput, UpdateLocationInput, CreateShiftInput, UpdateShiftInput,
  ShiftFilter,
}

abbrev pub location_by_id : ℕ → Location → Bool
location_by_id i l = l.id == i

abbrev pub new_location : ℕ → ℕ → CreateLocationInput → Location
new_location now fresh inp = record {
  id = fresh;
  name = inp.name;
  address = inp.address;
  lat = inp.lat;
  lng = inp.lng;
  created_at = now;
  updated_at = now;
}

unfoldable pub create_location : CreateLocationInput → Statement Location
create_location inp now fresh db =
    if any_row (location_by_id fresh) db.locations then (sql_error "23505", db) else (
      rows (new_location now fresh inp),
      record db { locations = new_location now fresh inp ∷ db.locations },
    )

unfoldable pub get_location : ℕ → Statement Location
get_location i now fresh db = (one (find_row (location_by_id i) db.locations), db)

-- The order of names is the database's collation.
unfoldable pub list_locations : (String → String → Bool) → Statement (List Location)
list_locations collates now fresh db =
    (rows (sort_by (λ a b. collates a.name b.name) db.locations), db)

abbrev pub updated_location : UpdateLocationInput → ℕ → Location → Location
updated_location inp now l = record l {
  name = coalesce inp.name l.name;
  address = coalesce_null inp.address l.address;
  lat = coalesce_null inp.lat l.lat;
  lng = coalesce_null inp.lng l.lng;
  updated_at = now;
}

unfoldable pub update_location : ℕ → UpdateLocationInput → Statement Location
update_location i inp now fresh db = elim (find_row (location_by_id i) db.locations) [
  | none ↦ (no_rows, db)
  | some l ↦ (
    rows (updated_location inp now l),
    record db {
      locations = update_rows (location_by_id i) (updated_location inp now) db.locations;
    },
  )
]

-- Whether a nullable key names the row.
unfoldable pub refers_to : ℕ → Option ℕ → Bool
refers_to i none = false
refers_to i (some j) = j == i

abbrev pub without_location : ℕ → Shift → Shift
without_location now s = record s { location_id = none; updated_at = now }

unfoldable pub delete_location : ℕ → Statement ℕ
unfolding refers_to
delete_location i now fresh db = (
  rows (count_rows (location_by_id i) db.locations),
  record db {
    locations = delete_rows (location_by_id i) db.locations;
    shifts =
        if any_row (location_by_id i) db.locations
        then update_rows (λ s. refers_to i s.location_id) (without_location now) db.shifts
        else db.shifts;
  },
)

abbrev pub shift_by_id : ℕ → Shift → Bool
shift_by_id i s = s.id == i

-- The CHECK constraint on the status.
unfoldable pub status_allowed : String → Bool
status_allowed s = str_eq s "draft" || str_eq s "published"

-- The foreign keys that a statement writes name rows.
abbrev pub keys_exist : TenantDb → Option ℕ → Option ℕ → Option ℕ → Bool
keys_exist db employee_id location_id tour_id =
    holds_if_given (has_employee db) employee_id
    && holds_if_given (has_location db) location_id
    && holds_if_given (has_tour db) tour_id

abbrev pub new_shift : ℕ → ℕ → CreateShiftInput → String → Shift
new_shift now fresh inp status = record {
  id = fresh;
  employee_id = inp.employee_id;
  location_id = inp.location_id;
  tour_id = inp.tour_id;
  starts_at = to_micros inp.starts_at;
  ends_at = to_micros inp.ends_at;
  notes = inp.notes;
  status = status;
  created_at = now;
  updated_at = now;
}

unfoldable pub create_shift : CreateShiftInput → String → Statement Shift
unfolding status_allowed
create_shift inp status now fresh db =
    if not (status_allowed status)
    then (sql_error "23514", db)
    else if not (ltb (to_micros inp.starts_at) (to_micros inp.ends_at))
    then (sql_error "23514", db)
    else if any_row (shift_by_id fresh) db.shifts
    then (sql_error "23505", db)
    else if not (keys_exist db (some inp.employee_id) inp.location_id inp.tour_id)
    then (sql_error "23503", db)
    else (
      rows (new_shift now fresh inp status),
      record db { shifts = new_shift now fresh inp status ∷ db.shifts },
    )

unfoldable pub get_shift : ℕ → Statement Shift
get_shift i now fresh db = (one (find_row (shift_by_id i) db.shifts), db)

abbrev pub wanted : ShiftFilter → Shift → Bool
wanted f s =
    holds_if_given (λ e. s.employee_id == e) f.employee_id
    && holds_if_given (λ t. str_eq s.status t) f.status
    && holds_if_given (λ t. leb (to_micros t) s.starts_at) f.from
    && holds_if_given (λ t. ltb s.starts_at (to_micros t)) f.to

unfoldable pub list_shifts : ShiftFilter → Statement (List Shift)
list_shifts f now fresh db =
    (rows (sort_by (λ a b. leb a.starts_at b.starts_at) (select_rows (wanted f) db.shifts)), db)

abbrev pub updated_shift : UpdateShiftInput → ℕ → Shift → Shift
updated_shift inp now s = record s {
  employee_id = coalesce inp.employee_id s.employee_id;
  location_id = coalesce_null inp.location_id s.location_id;
  tour_id = coalesce_null inp.tour_id s.tour_id;
  starts_at = coalesce (to_micros_if_given inp.starts_at) s.starts_at;
  ends_at = coalesce (to_micros_if_given inp.ends_at) s.ends_at;
  notes = coalesce_null inp.notes s.notes;
  updated_at = now;
}

abbrev pub try_update : ℕ → Shift → ℕ → UpdateShiftInput → TenantDb → Answer Shift × TenantDb
try_update i s now inp db =
    let s' = updated_shift inp now s in
    if not (ltb s'.starts_at s'.ends_at)
    then (sql_error "23514", db)
    else if not (keys_exist db inp.employee_id inp.location_id inp.tour_id)
    then (sql_error "23503", db)
    else (
      rows s',
      record db { shifts = update_rows (shift_by_id i) (λ x. record s' { id = x.id }) db.shifts },
    )

unfoldable pub update_shift : ℕ → UpdateShiftInput → Statement Shift
update_shift i inp now fresh db = elim (find_row (shift_by_id i) db.shifts) [
  | none ↦ (no_rows, db)
  | some s ↦ try_update i s now inp db
]

abbrev pub published : ℕ → Shift → Shift
published now s = record s { status = "published"; updated_at = now }

unfoldable pub publish_shift : ℕ → Statement Shift
publish_shift i now fresh db = elim (find_row (shift_by_id i) db.shifts) [
  | none ↦ (no_rows, db)
  | some s ↦ (
    rows (published now s),
    record db { shifts = update_rows (shift_by_id i) (published now) db.shifts },
  )
]

abbrev pub without_shift : ℕ → Record → Record
without_shift now r = record r { shift_id = none; updated_at = now }

-- `DELETE FROM shifts WHERE p`.
unfoldable pub delete_shifts : (Shift → Bool) → Statement ℕ
unfolding refers_to
delete_shifts p now fresh db =
    let gone = map (λ s. s.id) (select_rows p db.shifts) in
    (
      rows (count_rows p db.shifts),
      record db {
        shifts = delete_rows p db.shifts;
        attendance =
            update_rows (λ r. any_row (λ i. refers_to i r.shift_id) gone) (without_shift now)
              db.attendance;
      },
    )

unfoldable pub delete_shift : ℕ → Statement ℕ
unfolding delete_shifts
delete_shift i = delete_shifts (shift_by_id i)

-- `notes = $1`, which is not true of a null.
unfoldable pub note_is : String → Shift → Bool
note_is note s = is_note s.notes
  where
    is_note : Option String → Bool
    is_note none = false
    is_note (some n) = str_eq n note

unfoldable pub delete_shifts_by_note : String → Statement ℕ
unfolding delete_shifts note_is
delete_shifts_by_note note = delete_shifts (note_is note)

unfoldable pub list_shift_ids_by_note : String → Statement (List ℕ)
unfolding note_is
list_shift_ids_by_note note now fresh db =
    (rows (map (λ s. s.id) (select_rows (note_is note) db.shifts)), db)
