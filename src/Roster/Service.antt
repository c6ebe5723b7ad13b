-- ===== src/Roster/Service.antt =====
-- roster/service.go.
use opero.Prelude.{
  ℕ, String, Bool, false, not, ◌||◌, Option, none, some, List, [], ◌==◌, ltb, if◌then◌else◌,
  is_blank,
}
use opero.Effects.{Result, ok, err, pure, raise, attempt, tenant_store, ◌>>=◌, ◌>>◌}
use opero.Effects.Error.{Err, roster, validation, not_found, errors_is}
use opero.Tenant.{Call}
use opero.Resolvers.{EmployeeResolver, ShiftResolver}
use opero.Roster.Types.{
  Location, Shift, CreateLocationInput, UpdateLocationInput, CreateShiftInput, UpdateShiftInput,
  ShiftFilter,
}
use opero.Roster.Store

abbrev pub status_draft : String
status_draft = "draft"

abbrev pub err_validation : Err
err_validation = validation roster

unfoldable pub create_location : CreateLocationInput → Call Location
create_location inp =
    if is_blank inp.name
    then raise err_validation
    else (do tenant_store roster; Store.create_location inp)

unfoldable pub get_location : ℕ → Call Location
get_location i = do tenant_store roster; Store.get_location i

unfoldable pub list_locations : (String → String → Bool) → Call (List Location)
list_locations collates = do tenant_store roster; Store.list_locations collates

-- A given value that is blank.
abbrev pub given_blank : Option String → Bool
given_blank none = false
given_blank (some name) = is_blank name

unfoldable pub update_location : ℕ → UpdateLocationInput → Call Location
update_location i inp =
    if given_blank inp.name
    then raise err_validation
    else (do tenant_store roster; Store.update_location i inp)

unfoldable pub delete_location : ℕ → Call Unit
delete_location i = do tenant_store roster; Store.delete_location i

unfoldable pub create_shift : CreateShiftInput → Call Shift
create_shift inp =
    if inp.employee_id == 0
    then raise err_validation
    else if inp.starts_at == 0
    then raise err_validation
    else if inp.ends_at == 0
    then raise err_validation
    else if not (ltb inp.starts_at inp.ends_at)
    then raise err_validation
    else (do tenant_store roster; Store.create_shift inp status_draft)

unfoldable pub create_published_shift : CreateShiftInput → Call Shift
create_published_shift inp =
    if inp.employee_id == 0
    then raise err_validation
    else if inp.starts_at == 0 || inp.ends_at == 0 || not (ltb inp.starts_at inp.ends_at)
    then raise err_validation
    else (do tenant_store roster; Store.create_shift inp "published")

unfoldable pub shift_ids_by_note : String → Call (List ℕ)
shift_ids_by_note note = do tenant_store roster; Store.list_shift_ids_by_note note

unfoldable pub delete_shifts_by_note : String → Call ℕ
delete_shifts_by_note note = do tenant_store roster; Store.delete_shifts_by_note note

unfoldable pub get_shift : ℕ → Call Shift
get_shift i = do tenant_store roster; Store.get_shift i

-- What the result of the look-up says of the owner. An error that is no sentinel stays what it is.
unfoldable pub report_owner : Result Shift → Call (Option (ℕ × String))
report_owner (ok s) = pure (some (s.employee_id, s.status))
report_owner (err e) = if errors_is e (not_found roster) then pure none else raise e

unfoldable pub shift_owner_by_id : ℕ → Call (Option (ℕ × String))
unfolding report_owner
shift_owner_by_id i = do
  tenant_store roster
  found ← attempt (Store.get_shift i)
  report_owner found

-- What attendance takes of this package.
abbrev pub shift_resolver : ShiftResolver
shift_resolver = record { shift_owner_by_id = shift_owner_by_id }

unfoldable pub list_shifts : ShiftFilter → Call (List Shift)
list_shifts f = do tenant_store roster; Store.list_shifts f

unfoldable pub list_own_shifts : ShiftFilter → Option ℕ → Call (List Shift)
list_own_shifts f none = pure []
list_own_shifts f (some emp) = do
  tenant_store roster
  Store.list_shifts (record f { employee_id = some emp })

unfoldable pub list_my_shifts : EmployeeResolver → ℕ → ShiftFilter → Call (List Shift)
unfolding list_own_shifts
list_my_shifts employees user_id f = do
  found ← employees.employee_id_by_user_id user_id
  list_own_shifts f found

-- Both bounds are given and out of order.
abbrev pub misordered : Option ℕ → Option ℕ → Bool
misordered none ends_at = false
misordered (some s) none = false
misordered (some s) (some e) = not (ltb s e)

unfoldable pub update_shift : ℕ → UpdateShiftInput → Call Shift
update_shift i inp =
    if misordered inp.starts_at inp.ends_at
    then raise err_validation
    else (do tenant_store roster; Store.update_shift i inp)

unfoldable pub publish_shift : ℕ → Call Shift
publish_shift i = do tenant_store roster; Store.publish_shift i

unfoldable pub delete_shift : ℕ → Call Unit
delete_shift i = do tenant_store roster; Store.delete_shift i
