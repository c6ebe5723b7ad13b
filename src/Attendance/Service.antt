-- ===== src/Attendance/Service.antt =====
-- attendance/service.go. What the package takes of identity and roster is a parameter.
use opero.Prelude.{
  ℕ, String, Bool, true, false, not, ◌&&◌, ◌||◌, Option, none, some, List, [], ◌∷◌, ◌==◌, str_eq,
  if◌then◌else◌,
}
use opero.Effects.{Result, ok, err, pure, raise, tenant_store, attempt, ◌>>=◌, ◌>>◌}
use opero.Effects.Error.{Err, attendance, validation, not_found, conflict, errors_is}
use opero.Tenant.{Call}
use opero.Resolvers.{EmployeeResolver, ShiftResolver}
use opero.Attendance.Types.{Record, DemoRecordInput, CheckInInput, CheckOutInput, AttendanceFilter}
use opero.Attendance.Store

-- The package's `ErrNotFound`, `ErrConflict` and `ErrValidation`.
abbrev pub err_not_found : Err
err_not_found = not_found attendance

abbrev pub err_conflict : Err
err_conflict = conflict attendance

abbrev pub err_validation : Err
err_validation = validation attendance

-- `target` of `SetBreak`.
abbrev pub break_target : Bool → String
break_target true = "on_break"
break_target false = "checked_in"

module _ (employees : EmployeeResolver) where
  open employees use {employee_id_by_user_id}

  unfoldable pub resolve_employee : ℕ → Call ℕ
  resolve_employee user_id = do
    found ← employee_id_by_user_id user_id
    elim found [ none ↦ raise err_validation | some id ↦ pure id ]

  unfoldable pub check_out : ℕ → CheckOutInput → Call Record
  check_out user_id inp = if inp.client_id == 0 then raise err_validation else do
    emp ← resolve_employee user_id
    tenant_store attendance
    rec ← Store.get_by_client_id inp.client_id
    if not (rec.employee_id == emp)
        then raise err_not_found
        else if str_eq rec.status "checked_out"
        then pure rec
        else Store.check_out inp

  unfoldable pub set_break : ℕ → ℕ → Bool → Call Record
  set_break user_id client_id on_break = if client_id == 0 then raise err_validation else do
    emp ← resolve_employee user_id
    tenant_store attendance
    rec ← Store.get_by_client_id client_id
    let target = break_target on_break
    if not (rec.employee_id == emp)
        then raise err_not_found
        else if str_eq rec.status target
        then pure rec
        else if not (str_eq rec.status "checked_in") && not (str_eq rec.status "on_break")
        then raise err_validation
        else Store.set_status client_id target

module _ (shifts : ShiftResolver) where
  open shifts use {shift_owner_by_id}

  -- An error of the resolver is wrapped, which `errors.Is` sees through.
  unfoldable pub validate_own_shift : ℕ → ℕ → Call Unit
  validate_own_shift emp shift_id = do
    found ← shift_owner_by_id shift_id
    elim found [
      | none ↦ raise err_validation
      | some (owner, status) ↦
          if not (owner == emp) || not (str_eq status "published")
          then raise err_validation
          else pure tt
    ]

-- A lost race with the same check-in: the record that won, if it is the caller's.
unfoldable pub own_or_raise : ℕ → Err → Result Record → Call (Record × Bool)
own_or_raise emp e (ok existing) =
    if existing.employee_id == emp then pure (existing, false) else raise e
own_or_raise emp e (err _) = raise e

unfoldable pub recover_lost_race : ℕ → CheckInInput → Err → Call (Record × Bool)
recover_lost_race emp inp e =
    if errors_is e err_conflict
    then (do again ← attempt (Store.get_by_client_id inp.client_id); own_or_raise emp e again)
    else raise e

unfoldable pub report_insert : ℕ → CheckInInput → Result Record → Call (Record × Bool)
report_insert emp inp (ok rec) = pure (rec, true)
report_insert emp inp (err e) = recover_lost_race emp inp e

module _ (shifts : ShiftResolver) where
  -- `if in.ShiftID != nil { … }`
  unfoldable pub validate_shift_if_given : ℕ → Option ℕ → Call Unit
  validate_shift_if_given emp none = pure tt
  validate_shift_if_given emp (some shift_id) = validate_own_shift shifts emp shift_id

  unfoldable pub insert_check_in : ℕ → CheckInInput → Call (Record × Bool)
  insert_check_in emp inp = do
    validate_shift_if_given emp inp.shift_id
    created ← attempt (Store.create_check_in emp inp)
    report_insert emp inp created

  -- The `switch` on the look-up: a replay, an error, or a new record.
  unfoldable pub replay_or_insert : ℕ → CheckInInput → Result Record → Call (Record × Bool)
  replay_or_insert emp inp (ok existing) =
      if not (existing.employee_id == emp) then raise err_conflict else pure (existing, false)
  replay_or_insert emp inp (err e) =
      if not (errors_is e err_not_found) then raise e else insert_check_in emp inp

-- The flag is `created`.
unfoldable pub check_in : EmployeeResolver → ShiftResolver → ℕ → CheckInInput → Call (Record × Bool)
check_in employees shifts user_id inp = if inp.client_id == 0 then raise err_validation else do
  emp ← resolve_employee employees user_id
  tenant_store attendance
  looked ← attempt (Store.get_by_client_id inp.client_id)
  replay_or_insert shifts emp inp looked

unfoldable pub seed_demo_record : ℕ → DemoRecordInput → Call Record
seed_demo_record client_id inp =
    if str_eq inp.status "checked_in"
      || str_eq inp.status "checked_out"
      || str_eq inp.status "on_break"
      || str_eq inp.status "missed"
    then (do tenant_store attendance; Store.create_demo_record client_id inp)
    else raise err_validation

unfoldable pub delete_by_shift_ids : List ℕ → Call ℕ
delete_by_shift_ids [] = pure 0
delete_by_shift_ids (i ∷ ids) = do tenant_store attendance; Store.delete_by_shift_ids (i ∷ ids)

unfoldable pub list : AttendanceFilter → Call (List Record)
list f = do tenant_store attendance; Store.list f

unfoldable pub list_by_shift_ids : List ℕ → Call (List Record)
list_by_shift_ids ids = do tenant_store attendance; Store.list_by_shift_ids ids
