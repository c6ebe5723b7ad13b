-- ===== src/Attendance/Success.antt =====
-- Check-in, break and check-out in a database that answers, with no other request between the
-- statements: what they return and what they write (attendance/service.go, with the
-- resolvers of identity/service.go and roster/service.go).
use opero.Prelude.{
  ℕ, ◌≡◌, ◌≢◌, refl, List, ◌∷◌, any_row, find_row-none, any_row-found, true, false, Option, none,
  some, ◌==◌, str_eq, arith, find_row,
}
use opero.Effects.{ok, World, pure, raise, attempt, tenant_store, ◌>>=◌}
use opero.Effects.Error.{Err-discrete}
use opero.Tenant.{TenantDb}
use opero.Attendance.Types.{CheckInInput}
use opero.Attendance.Queries.{by_client}
use opero.Attendance.Store
use opero.Attendance.Service
use opero.Attendance.Service.{err_not_found, err_conflict, err_validation}
use opero.Effects.{Turn}
use opero.Attendance.Queries.{checked_in_record}
use opero.Tenant.{has_employee}
use opero.Attendance.Queries
use opero.Effects.{quiet, exec, query}
use opero.Attendance.Queries.{insert_record}
use opero.Identity.Types.{Employee}
use opero.Identity.Queries.{by_user_id}
use opero.Identity.Service as People
use opero.Identity.Store as PeopleStore
use opero.Identity.Queries as PeopleQueries
use opero.Roster.Types.{Shift}
use opero.Roster.Queries.{shift_by_id}
use opero.Roster.Service as Shifts
use opero.Roster.Store as ShiftsStore
use opero.Roster.Queries as ShiftsQueries

-- The shift of a check-in, if it names one, is a published shift of the caller's.
pub record OwnShift (emp : ℕ) (db : TenantDb) (i : ℕ) : Type 0 where
  pub shift : Shift
  pub stored : find_row (shift_by_id i) db.shifts ≡ some shift
  pub owned : shift.employee_id ≡ emp
  pub published : str_eq shift.status "published" ≡ true

module _ (u : ℕ) (e : Employee) (db : TenantDb) (rest : List (Turn TenantDb))
    (linked : find_row (by_user_id u) db.employees ≡ some e) where
  -- The look-up of the employee, that of the record, the statement that writes.
  abbrev three_turns : ℕ → ℕ → World TenantDb
  three_turns t k = record {
    pool = true;
    db = db;
    turns = quiet 0 0 ∷ quiet 0 0 ∷ quiet t k ∷ rest;
  }

  -- A check-in looks its shift up as well, if it names one.
  abbrev check_in_turns : Option ℕ → ℕ → ℕ → World TenantDb
  check_in_turns none t k = three_turns t k
  check_in_turns (some i) t k = record {
    pool = true;
    db = db;
    turns = quiet 0 0 ∷ quiet 0 0 ∷ quiet 0 0 ∷ quiet t k ∷ rest;
  }

  module _ (t k : ℕ) where
    create_on_shift :
        (inp : CheckInInput) (i : ℕ) (s : Shift)
        → inp.shift_id ≡ some i
        → find_row (shift_by_id i) db.shifts ≡ some s
        → any_row (shift_by_id i) db.shifts ≡ true
        → s.employee_id ≡ e.id
        → str_eq s.status "published" ≡ true
        → inp.client_id ≢ 0
        → any_row (by_client inp.client_id) db.attendance ≡ false
        → any_row (λ x. x.id == k) db.attendance ≡ false
        → has_employee db e.id ≡ true
        → let r = checked_in_record t k e.id inp in
          Service.check_in People.employee_resolver Shifts.shift_resolver u inp
            (check_in_turns (some i) t k)
          ≡ (
            ok (r, true),
            record { pool = true; db = record db { attendance = r ∷ db.attendance }; turns = rest },
          )
    unfolding Service.check_in Service.resolve_employee Service.replay_or_insert
        Service.insert_check_in Service.validate_shift_if_given Service.validate_own_shift
        Service.report_insert Store.get_by_client_id Store.create_check_in Store.map_err
        Queries.get_attendance_by_client_id Queries.create_check_in People.employee_id_by_user_id
        People.report_employee PeopleStore.get_employee_by_user_id PeopleStore.map_err
        PeopleQueries.get_employee_by_user_id Shifts.shift_owner_by_id Shifts.report_owner
        ShiftsStore.get_shift ShiftsStore.map_err ShiftsQueries.get_shift insert_record query exec
        attempt ◌>>=◌ pure raise tenant_store Err-discrete
    create_on_shift inp i s given stored there owned published c a fresh emp =
        ground (arith, linked, find_row-none (by_client inp.client_id) db.attendance)

    create_with :
        (inp : CheckInInput) (s : Option ℕ)
        → inp.shift_id ≡ s
        → ((i : ℕ) → s ≡ some i → OwnShift e.id db i)
        → inp.client_id ≢ 0
        → any_row (by_client inp.client_id) db.attendance ≡ false
        → any_row (λ x. x.id == k) db.attendance ≡ false
        → has_employee db e.id ≡ true
        → let r = checked_in_record t k e.id inp in
          Service.check_in People.employee_resolver Shifts.shift_resolver u inp
            (check_in_turns s t k)
          ≡ (
            ok (r, true),
            record { pool = true; db = record db { attendance = r ∷ db.attendance }; turns = rest },
          )
    unfolding Service.check_in Service.resolve_employee Service.replay_or_insert
        Service.insert_check_in Service.validate_shift_if_given Service.validate_own_shift
        Service.report_insert Store.get_by_client_id Store.create_check_in Store.map_err
        Queries.get_attendance_by_client_id Queries.create_check_in People.employee_id_by_user_id
        People.report_employee PeopleStore.get_employee_by_user_id PeopleStore.map_err
        PeopleQueries.get_employee_by_user_id Shifts.shift_owner_by_id Shifts.report_owner
        ShiftsStore.get_shift ShiftsStore.map_err ShiftsQueries.get_shift insert_record query exec
        attempt ◌>>=◌ pure raise tenant_store Err-discrete
    create_with inp none given own c a i emp =
        ground (arith, linked, find_row-none (by_client inp.client_id) db.attendance)
    create_with inp (some s) given own c a i emp =
        let mine = own s refl in
        create_on_shift inp s mine.shift given mine.stored (any_row-found _ db.shifts mine.stored)
          mine.owned mine.published c a i emp

    -- A check-in of a linked employee with a new client id, and with no shift or with a published shift
    -- of its own, with no other request meanwhile, stores one new record and returns it as created.
    pub check_in-creates :
        (inp : CheckInInput)
        → ((i : ℕ) → inp.shift_id ≡ some i → OwnShift e.id db i)
        → inp.client_id ≢ 0
        → any_row (by_client inp.client_id) db.attendance ≡ false
        → any_row (λ x. x.id == k) db.attendance ≡ false
        → has_employee db e.id ≡ true
        → let r = checked_in_record t k e.id inp in
          Service.check_in People.employee_resolver Shifts.shift_resolver u inp
            (check_in_turns inp.shift_id t k)
          ≡ (
            ok (r, true),
            record { pool = true; db = record db { attendance = r ∷ db.attendance }; turns = rest },
          )
    check_in-creates inp = create_with inp inp.shift_id refl
