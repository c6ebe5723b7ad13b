-- ===== src/Examples/Roster.antt =====
-- Runs of the theorems on the roster.
use opero.Prelude.{ℕ, ◌≡◌, ◌≢◌, refl, true, false, none, some, [], ◌∷◌, ltb, any_row, find_row}
use opero.Effects.{ok, err, quiet}
use opero.Effects.Error.{roster, not_found}
use opero.Effects.Keeps.{Keeps}
use opero.Roster.Types.{Shift, CreateShiftInput, UpdateShiftInput, ShiftFilter}
use opero.Roster.Queries.{shift_by_id, new_shift, published, updated_shift}
use opero.Roster.Service
use opero.Roster.Service.{err_validation}
use opero.Roster.Invariant.{Inv}
use opero.Roster.Requests.{roster_writes-Inv}
use opero.Roster.Success.{
  IsStored, create_shift-get_shift, may_be_stored, publish_shift-IsSeen, update_shift-IsOrdered,
}
use opero.Examples.Data

abbrev a_new_shift : CreateShiftInput
a_new_shift = record {
  employee_id = 7;
  location_id = none;
  tour_id = none;
  starts_at = 300_000;
  ends_at = 400_000;
  notes = some "early";
}

abbrev later_start : UpdateShiftInput
later_start = record {
  employee_id = none;
  location_id = none;
  tour_id = none;
  starts_at = some 150_500;
  ends_at = none;
  notes = none;
}

abbrev of_another : ShiftFilter
of_another = record { employee_id = some 8; status = none; from = some 50; to = none }

roster_writes-Inv_example :
    Keeps Inv (Service.create_shift a_new_shift)
    × Keeps Inv (Service.create_published_shift a_new_shift)
    × Keeps Inv (Service.update_shift 11 later_start)
    × Keeps Inv (Service.publish_shift 11)
    × Keeps Inv (Service.delete_shift 11)
    × Keeps Inv (Service.delete_shifts_by_note "demo")
    × Keeps Inv (Service.delete_location 11)
roster_writes-Inv_example = roster_writes-Inv 11 a_new_shift later_start "demo"

create_shift-get_shift_example :
    let (r, w) =
      Service.create_shift a_new_shift
        (record { pool = true; db = Data.tenant; turns = quiet 20 12 ∷ quiet 21 0 ∷ [] }) in
    (may_be_stored Data.tenant a_new_shift ≡ true
      → (s : Shift) × (r ≡ ok s)
        × ((Service.get_shift s.id w).0 ≡ ok s)
        × (s ≡ new_shift 20 12 a_new_shift "draft")
        × ((Service.shift_owner_by_id s.id w).0 ≡ ok (some (7, "draft")))
        × ((j : ℕ)
            → j ≢ s.id
            → find_row (shift_by_id j) w.db.shifts ≡ find_row (shift_by_id j) (Data.a_shift ∷ [])))
    × (may_be_stored Data.tenant a_new_shift ≡ false
        → (r ≡ err err_validation) × (w.db ≡ Data.tenant))
unfolding any_row
create_shift-get_shift_example = create_shift-get_shift Data.tenant [] 20 12 a_new_shift 21 0 refl

publish_shift-IsSeen_example :
    let (r, w) =
      Service.publish_shift 11
        (record { pool = true; db = Data.tenant; turns = quiet 20 0 ∷ quiet 21 0 ∷ [] }) in
    ((s : Shift)
      → IsStored 11 s Data.tenant
      → (r ≡ ok (published 20 s))
        × ((Service.shift_owner_by_id 11 w).0 ≡ ok (some (s.employee_id, "published"))))
    × (any_row (shift_by_id 11) (Data.a_shift ∷ []) ≡ false
        → (r ≡ err (not_found roster)) × ((Service.shift_owner_by_id 11 w).0 ≡ ok none))
publish_shift-IsSeen_example = publish_shift-IsSeen Data.tenant [] 20 0 11 21 0

update_shift-IsOrdered_example :
    let s' = updated_shift later_start 20 Data.a_shift in
    let (r, w) =
      Service.update_shift 11 later_start
        (record { pool = true; db = Data.tenant; turns = quiet 20 0 ∷ [] }) in
    (ltb s'.starts_at s'.ends_at ≡ true → (r ≡ ok s') × IsStored 11 s' w.db)
    × (ltb s'.starts_at s'.ends_at ≡ false → (r ≡ err err_validation) × (w.db ≡ Data.tenant))
unfolding find_row
update_shift-IsOrdered_example =
    update_shift-IsOrdered Data.tenant [] 20 0 11 later_start Data.a_shift refl refl
