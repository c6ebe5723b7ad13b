-- ===== src/Roster/Store.antt =====
-- roster/store.go: the statements with their errors mapped to the package's sentinels.
use opero.Prelude.{ℕ, String, Bool, List, ◌==◌, str_eq, if◌then◌else◌}
use opero.Effects.{Answer, rows, no_rows, sql_error, broken, Result, ok, err, query}
use opero.Effects.Error.{roster, validation, not_found, internal}
use opero.Tenant.{Call}
use opero.Roster.Types.{
  Location, Shift, CreateLocationInput, UpdateLocationInput, CreateShiftInput, UpdateShiftInput,
  ShiftFilter,
}
use opero.Roster.Queries

-- `mapErr`, on the answers that are errors.
unfoldable pub map_err {ℓ} : {A : Type ℓ} → Answer A → Result A
map_err (rows a) = ok a
map_err no_rows = err (not_found roster)
map_err (sql_error code) =
    if str_eq code "23503"
    then err (validation roster)
    else if str_eq code "23514"
    then err (validation roster)
    else err internal
map_err broken = err internal

-- A deletion of no row is not found.
unfoldable pub some_deleted : Answer ℕ → Result (Unit {0})
unfolding map_err
some_deleted (rows n) = if n == 0 then err (not_found roster) else ok tt
some_deleted no_rows = err (not_found roster)
some_deleted (sql_error code) = map_err (sql_error code)
some_deleted broken = map_err broken

unfoldable pub create_location : CreateLocationInput → Call Location
unfolding map_err
create_location inp = query map_err (Queries.create_location inp)

unfoldable pub get_location : ℕ → Call Location
unfolding map_err
get_location i = query map_err (Queries.get_location i)

unfoldable pub list_locations : (String → String → Bool) → Call (List Location)
unfolding map_err
list_locations collates = query map_err (Queries.list_locations collates)

unfoldable pub update_location : ℕ → UpdateLocationInput → Call Location
unfolding map_err
update_location i inp = query map_err (Queries.update_location i inp)

unfoldable pub delete_location : ℕ → Call (Unit {0})
unfolding some_deleted
delete_location i = query some_deleted (Queries.delete_location i)

unfoldable pub create_shift : CreateShiftInput → String → Call Shift
unfolding map_err
create_shift inp status = query map_err (Queries.create_shift inp status)

unfoldable pub get_shift : ℕ → Call Shift
unfolding map_err
get_shift i = query map_err (Queries.get_shift i)

unfoldable pub list_shifts : ShiftFilter → Call (List Shift)
unfolding map_err
list_shifts f = query map_err (Queries.list_shifts f)

unfoldable pub update_shift : ℕ → UpdateShiftInput → Call Shift
unfolding map_err
update_shift i inp = query map_err (Queries.update_shift i inp)

unfoldable pub publish_shift : ℕ → Call Shift
unfolding map_err
publish_shift i = query map_err (Queries.publish_shift i)

unfoldable pub delete_shift : ℕ → Call (Unit {0})
unfolding some_deleted
delete_shift i = query some_deleted (Queries.delete_shift i)

unfoldable pub list_shift_ids_by_note : String → Call (List ℕ)
unfolding map_err
list_shift_ids_by_note note = query map_err (Queries.list_shift_ids_by_note note)

unfoldable pub delete_shifts_by_note : String → Call ℕ
unfolding map_err
delete_shifts_by_note note = query map_err (Queries.delete_shifts_by_note note)
