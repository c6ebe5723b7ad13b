-- ===== src/Examples/Attendance.antt =====
-- Runs of the theorems on attendance.
use opero.Prelude.{
  ℕ, suc, inr, subst, arith, ◌≡◌, ◌≢◌, refl, true, false, some, List, [], ◌∷◌, any_row, find_row,
}
use opero.Effects.{ok, Turn, quiet}
use opero.Effects.Keeps.{Keeps, Holds}
use opero.Effects.Triple.{Triple, Triple-pure, AnyError}
use opero.Tenant.{TenantDb}
use opero.Identity.Service.{employee_resolver}
use opero.Identity.Reads.{employee_resolver-Reads, employee_resolver-Answers}
use opero.Identity.Types.{Employee}
use opero.Identity.Queries.{by_user_id}
use opero.Roster.Service.{shift_resolver}
use opero.Roster.Requests.{shift_resolver-Reads}
use opero.Attendance.Queries.{by_client, checked_in_record, open_of_client}
use opero.Attendance.Queries
use opero.Attendance.Service
use opero.Attendance.Invariant.{Inv}
use opero.Attendance.Requests.{attendance_writes-Inv}
use opero.Attendance.Replay.{IsStored, check_in-replay}
use opero.Attendance.Foreign.{foreign-Refused}
use opero.Attendance.Ownership.{checked_out-IsFinal}
use opero.Attendance.Creation.{check_in-IsStored}
use opero.Attendance.Shifts
use opero.Resolvers
use opero.Attendance.Shifts.{check_in-IsNotOwn}
use opero.Attendance.Success.{OwnShift, check_in-creates}
use opero.Examples.Data

attendance_writes-Inv_example :
    Keeps Inv (Service.check_in employee_resolver shift_resolver 3 Data.a_check_in)
    × Keeps Inv (Service.check_out employee_resolver 3 Data.a_check_out)
    × Keeps Inv (Service.set_break employee_resolver 3 5 true)
attendance_writes-Inv_example =
    attendance_writes-Inv shift_resolver shift_resolver-Reads employee_resolver
      employee_resolver-Reads 3 5 Data.a_check_in Data.a_check_out true

named : Data.same_check_in.client_id ≢ 0
named e = absurd (ground arith)

check_in-replay_example :
    (Service.check_in employee_resolver shift_resolver 3 Data.same_check_in
        (record { pool = true; db = Data.tenant; turns = quiet 1 0 ∷ quiet 2 0 ∷ [] })
      ≡ (ok (Data.open_record, false), record { pool = true; db = Data.tenant; turns = [] }))
    × Triple
        (Holds (IsStored 5 Data.open_record))
        (Service.check_in employee_resolver shift_resolver 3 Data.same_check_in)
        (λ x w. Holds (IsStored 5 Data.open_record) w × (x ≡ (Data.open_record, false)))
        (λ e. Holds (IsStored 5 Data.open_record))
unfolding find_row opero.Identity.Service.employee_id_by_user_id opero.Effects.◌>>=◌
    opero.Effects.attempt opero.Identity.Store.get_employee_by_user_id opero.Effects.query
    opero.Identity.Queries.get_employee_by_user_id
check_in-replay_example =
    check_in-replay employee_resolver shift_resolver employee_resolver-Reads 3 7 Data.same_check_in
      Data.open_record
      (record { pool = true; db = Data.tenant; turns = quiet 1 0 ∷ quiet 2 0 ∷ [] }) Data.tenant 2 0
      [] named refl refl

checked_out-IsFinal_example :
    Triple
      (Holds (IsStored 5 Data.closed_record))
      (Service.check_out employee_resolver 3 Data.a_check_out)
      (λ x w. Holds (IsStored 5 Data.closed_record) w × (x ≡ Data.closed_record))
      (λ e. Holds (IsStored 5 Data.closed_record))
    × Triple
        (Holds (IsStored 5 Data.closed_record))
        (Service.set_break employee_resolver 3 5 true)
        (λ x w. ⊥)
        (λ e. Holds (IsStored 5 Data.closed_record))
checked_out-IsFinal_example =
    checked_out-IsFinal employee_resolver employee_resolver-Reads 3 Data.a_check_out true
      Data.closed_record refl

someone_else : Data.open_record.employee_id ≢ 8
someone_else e = absurd (ground arith)

-- The record of the client id 5 is another's: the user 3 is linked to the employee 8.
abbrev IsOfAnother : TenantDb → Type 0
IsOfAnother db =
    IsStored 5 Data.open_record db
    × ((e : Employee) → find_row (by_user_id 3) db.employees ≡ some e → e.id ≡ 8)

foreign-Refused_example :
    Triple
      (Holds IsOfAnother)
      (Service.check_in employee_resolver shift_resolver 3 Data.same_check_in)
      (λ x w. ⊥)
      (λ e. Holds IsOfAnother)
    × Triple
        (Holds IsOfAnother)
        (Service.check_out employee_resolver 3 Data.a_check_out)
        (λ x w. ⊥)
        (λ e. Holds IsOfAnother)
    × Triple
        (Holds IsOfAnother)
        (Service.set_break employee_resolver 3 5 true)
        (λ x w. ⊥)
        (λ e. Holds IsOfAnother)
foreign-Refused_example =
    foreign-Refused IsOfAnother 5 Data.open_record (λ db h. h.0) employee_resolver 3 8
      (employee_resolver-Answers IsOfAnother (λ i. i ≡ 8) 3 (λ db e h f. h.1 e f)) someone_else
      shift_resolver Data.same_check_in Data.a_check_out true

-- The user 3 is linked to the employee 7.
abbrev IsLinked : TenantDb → Type 0
IsLinked db = (e : Employee) → find_row (by_user_id 3) db.employees ≡ some e → e.id ≡ 7

check_in-IsStored_example :
    Triple
      (Holds IsLinked)
      (Service.check_in employee_resolver shift_resolver 3 Data.a_check_in)
      (λ x w. IsStored 6 x.0 w.db × (x.0.employee_id ≡ 7))
      AnyError
check_in-IsStored_example =
    check_in-IsStored IsLinked employee_resolver shift_resolver 3 7
      (employee_resolver-Answers IsLinked (λ i. i ≡ 7) 3 (λ db e h f. h e f)) shift_resolver-Reads
      Data.a_check_in

not_own : Resolvers.Answers Inv (Shifts.IsNotOwn 7) ((Data.shifts_are 8).shift_owner_by_id 11)
not_own = Triple-pure (some (8, "published")) (λ w h. (h, inr ((8, "published"), refl, refl)))

check_in-IsNotOwn_example :
    Triple
      (Holds Inv)
      (Service.check_in (Data.everyone_is 7) (Data.shifts_are 8) 3 Data.a_check_in)
      (λ x w. Holds Inv w × (x.1 ≡ false))
      (λ e. Holds Inv)
check_in-IsNotOwn_example =
    check_in-IsNotOwn Inv (Data.shifts_are 8) 7 11 not_own (Data.everyone_is 7) 3 Data.a_check_in
      (Data.everyone_is-Answers Inv 7 3) refl

own_shift : (i : ℕ) → some 11 ≡ some i → OwnShift 7 Data.tenant i
unfolding find_row
own_shift i e =
    subst (OwnShift 7 Data.tenant) {x = 11} (ground arith)
      (record { shift = Data.a_shift; stored = refl; owned = refl; published = refl })

nonzero : (n : ℕ) → suc n ≢ 0
nonzero n e = absurd (ground arith)

abbrev turns : List (Turn TenantDb)
turns = quiet 0 0 ∷ quiet 0 0 ∷ quiet 150 22 ∷ []

check_in-creates_example :
    Service.check_in employee_resolver shift_resolver 3 Data.a_check_in
      (record { pool = true; db = Data.tenant; turns = quiet 0 0 ∷ turns })
    ≡ (
      ok (checked_in_record 150 22 7 Data.a_check_in, true),
      record {
        pool = true;
        db = record Data.tenant {
          attendance = checked_in_record 150 22 7 Data.a_check_in ∷ Data.open_record ∷ [];
        };
        turns = [];
      },
    )
unfolding find_row any_row
check_in-creates_example =
    check_in-creates 3 Data.an_employee Data.tenant [] refl 150 22 Data.a_check_in own_shift
      (nonzero 5) refl refl refl
