-- ===== src/Attendance/Requests.antt =====
-- The requests of attendance/service.go keep the invariant, whatever other requests commit between
-- their statements and wherever the connection fails.
use opero.Prelude.{ℕ, String, ◌≡◌, refl, Bool, true, false, Option, none, some, str_eq}
use opero.Effects.{Result, ok, err}
use opero.Effects.Error.{Err}
use opero.Effects.Keeps.{Keeps, Keeps-pure, Keeps-raise, Keeps-bind, Keeps-query, keeps_rules}
use opero.Tenant.{TenantDb}
use opero.Resolvers.{EmployeeResolver, ShiftResolver, EmployeeResolverReads, ShiftResolverReads}
use opero.Attendance.Types.{Record, CheckInInput, CheckOutInput}
use opero.Attendance.Invariant
use opero.Attendance.Invariant.{Inv}
use opero.Attendance.Queries
use opero.Attendance.Store
use opero.Attendance.Service
use opero.Attendance.Service.{err_not_found, err_conflict, err_validation}

get-Inv : (c : ℕ) → Keeps Inv (Store.get_by_client_id c)
unfolding Store.get_by_client_id Queries.get_attendance_by_client_id
get-Inv c = Keeps-query _ _ (λ now fresh db v. v)

create-Inv : (emp : ℕ) (inp : CheckInInput) → Keeps Inv (Store.create_check_in emp inp)
unfolding Store.create_check_in
create-Inv emp inp = Keeps-query _ _ (Invariant.create_check_in-Inv emp inp)

close-Inv : (inp : CheckOutInput) → Keeps Inv (Store.check_out inp)
unfolding Store.check_out
close-Inv inp = Keeps-query _ _ (Invariant.check_out-Inv inp)

set-Inv :
    (c : ℕ) (status : String)
    → str_eq status "checked_out" ≡ false
    → Keeps Inv (Store.set_status c status)
unfolding Store.set_status
set-Inv c status o = Keeps-query _ _ (Invariant.set_attendance_status-Inv c status o)

target_open : (b : Bool) → str_eq (Service.break_target b) "checked_out" ≡ false
target_open true = refl
target_open false = refl

ruleset store_keeps = (keeps_rules, get-Inv, create-Inv, close-Inv, set-Inv, target_open)

module _ (employees : EmployeeResolver) (reads : EmployeeResolverReads employees) where
  pub resolve_employee-Keeps :
      (P : TenantDb → Type 0) (u : ℕ) → Keeps P (Service.resolve_employee employees u)
  unfolding Service.resolve_employee
  resolve_employee-Keeps P u =
      Keeps-bind _ _ (reads.keeps P u)
        (elim [ none ↦ Keeps-raise err_validation | some id ↦ Keeps-pure id ])

  check_out-Inv : (u : ℕ) (inp : CheckOutInput) → Keeps Inv (Service.check_out employees u inp)
  unfolding Service.check_out
  check_out-Inv u inp = search (store_keeps, resolve_employee-Keeps Inv) depth 12

  set_break-Inv : (u c : ℕ) (b : Bool) → Keeps Inv (Service.set_break employees u c b)
  unfolding Service.set_break
  set_break-Inv u c b = search (store_keeps, resolve_employee-Keeps Inv) depth 12

module _ (shifts : ShiftResolver) (reads : ShiftResolverReads shifts) where
  pub validate_own_shift-Keeps :
      (P : TenantDb → Type 0) (emp shift_id : ℕ)
      → Keeps P (Service.validate_own_shift shifts emp shift_id)
  unfolding Service.validate_own_shift
  validate_own_shift-Keeps P emp shift_id =
      Keeps-bind _ _ (reads.keeps P shift_id)
        (elim [ none ↦ Keeps-raise err_validation | some (owner, status) ↦ search keeps_rules ])

own_or_raise-Inv :
    (emp : ℕ) (e : Err) (r : Result Record) → Keeps Inv (Service.own_or_raise emp e r)
unfolding Service.own_or_raise
own_or_raise-Inv emp e (ok existing) = search keeps_rules
own_or_raise-Inv emp e (err _) = search keeps_rules

recover_lost_race-Inv :
    (emp : ℕ) (inp : CheckInInput) (e : Err) → Keeps Inv (Service.recover_lost_race emp inp e)
unfolding Service.recover_lost_race
recover_lost_race-Inv emp inp e = search (store_keeps, own_or_raise-Inv)

report_insert-Inv :
    (emp : ℕ) (inp : CheckInInput) (r : Result Record) → Keeps Inv (Service.report_insert emp inp r)
unfolding Service.report_insert
report_insert-Inv emp inp (ok rec) = search keeps_rules
report_insert-Inv emp inp (err e) = recover_lost_race-Inv emp inp e

module _ (shifts : ShiftResolver) (reads : ShiftResolverReads shifts) where
  pub validate_shift_if_given-Keeps :
      (P : TenantDb → Type 0) (emp : ℕ) (s : Option ℕ)
      → Keeps P (Service.validate_shift_if_given shifts emp s)
  unfolding Service.validate_shift_if_given
  validate_shift_if_given-Keeps P emp none = Keeps-pure tt
  validate_shift_if_given-Keeps P emp (some s) = validate_own_shift-Keeps shifts reads P emp s

  insert_check_in-Inv :
      (emp : ℕ) (inp : CheckInInput) → Keeps Inv (Service.insert_check_in shifts emp inp)
  unfolding Service.insert_check_in
  insert_check_in-Inv emp inp =
      search (store_keeps, validate_shift_if_given-Keeps Inv, report_insert-Inv)

  replay_or_insert-Inv :
      (emp : ℕ) (inp : CheckInInput) (r : Result Record)
      → Keeps Inv (Service.replay_or_insert shifts emp inp r)
  unfolding Service.replay_or_insert
  replay_or_insert-Inv emp inp (ok existing) = search keeps_rules
  replay_or_insert-Inv emp inp (err e) = search (keeps_rules, insert_check_in-Inv)

  check_in-Inv :
      (employees : EmployeeResolver) (emp_reads : EmployeeResolverReads employees) (u : ℕ)
      (inp : CheckInInput)
      → Keeps Inv (Service.check_in employees shifts u inp)
  unfolding Service.check_in
  check_in-Inv employees emp_reads u inp =
      search (store_keeps, resolve_employee-Keeps employees emp_reads Inv, replay_or_insert-Inv)
        depth 8

  -- A check-in, a check-out and a break keep the invariant: every record has a status of the four, a
  -- check-in, a break mark exactly on a break and a check-out mark exactly when checked out, and ids and
  -- client ids are distinct. They do so under any interleaving with requests that keep it, and wherever
  -- the connection fails.
  pub attendance_writes-Inv :
      (employees : EmployeeResolver) (emp_reads : EmployeeResolverReads employees) (u c : ℕ)
      (ci : CheckInInput) (co : CheckOutInput) (on_break : Bool)
      → Keeps Inv (Service.check_in employees shifts u ci)
        × Keeps Inv (Service.check_out employees u co)
        × Keeps Inv (Service.set_break employees u c on_break)
  attendance_writes-Inv employees emp_reads u c ci co on_break = (
    check_in-Inv employees emp_reads u ci,
    check_out-Inv employees emp_reads u co,
    set_break-Inv employees emp_reads u c on_break,
  )
