-- ===== src/Examples/Data.antt =====
-- A small tenant: one employee with a login, one published shift, one open attendance record and one
-- pending request for leave.
use opero.Prelude.{ℕ, ◌≡◌, refl, none, some, [], ◌∷◌}
use opero.Effects.{pure}
use opero.Effects.Keeps.{Keeps-pure}
use opero.Effects.Triple.{Triple-pure}
use opero.Prelude.{inr}
use opero.Tenant.{TenantDb}
use opero.Resolvers.{
  EmployeeResolver, ShiftResolver, EmployeeResolverReads, ShiftResolverReads, Answers,
}
use opero.Identity.Types.{Employee}
use opero.Roster.Types.{Shift}
use opero.Attendance.Types.{Record, CheckInInput, CheckOutInput}
use opero.Leave.Types.{Request, CreateInput}

abbrev pub an_employee : Employee
an_employee = record {
  id = 7;
  user_id = some 3;
  role_id = none;
  full_name = "Linh Tran";
  email = none;
  phone = none;
  employment_type = "full_time";
  department_id = none;
  title = none;
  status = "active";
  hired_at = none;
  location = none;
  languages = [];
  emergency_contact_name = none;
  emergency_contact_phone = none;
  reports_to = none;
  employee_code = none;
  created_at = 1;
  updated_at = 1;
}

abbrev pub a_shift : Shift
a_shift = record {
  id = 11;
  employee_id = 7;
  location_id = none;
  tour_id = none;
  starts_at = 100_000;
  ends_at = 200_000;
  notes = none;
  status = "published";
  created_at = 1;
  updated_at = 1;
}

abbrev pub open_record : Record
open_record = record {
  id = 21;
  employee_id = 7;
  shift_id = some 11;
  client_id = 5;
  check_in_at = some 101;
  check_in_lat = none;
  check_in_lng = none;
  check_in_photo_url = none;
  check_out_at = none;
  check_out_lat = none;
  check_out_lng = none;
  check_out_photo_url = none;
  break_started_at = none;
  status = "checked_in";
  created_at = 101;
  updated_at = 101;
}

abbrev pub closed_record : Record
closed_record = record open_record { check_out_at = some 190; status = "checked_out" }

abbrev pub pending_leave : Request
pending_leave = record {
  id = 31;
  employee_id = 7;
  kind = "holiday";
  start_date = 400;
  end_date = 404;
  note = none;
  status = "pending";
  reviewed_by = none;
  reviewed_at = none;
  created_at = 1;
  updated_at = 1;
}

abbrev pub tenant : TenantDb
tenant = record {
  departments = [];
  roles = [];
  employees = an_employee ∷ [];
  locations = [];
  tours = [];
  shifts = a_shift ∷ [];
  attendance = open_record ∷ [];
  leave_requests = pending_leave ∷ [];
  leave_balances = [];
}

abbrev pub a_check_in : CheckInInput
a_check_in = record {
  client_id = 6;
  shift_id = some 11;
  lat = some 1;
  lng = some 2;
  photo_url = none;
}

abbrev pub same_check_in : CheckInInput
same_check_in = record a_check_in { client_id = 5 }

abbrev pub a_check_out : CheckOutInput
a_check_out = record { client_id = 5; lat = some 1; lng = some 2; photo_url = none }

abbrev pub a_leave : CreateInput
a_leave = record { kind = "sick"; start_date = 500; end_date = 501; note = some "  " }

-- Resolvers that know one answer.
abbrev pub everyone_is : ℕ → EmployeeResolver
everyone_is emp = record { employee_id_by_user_id = λ u. pure (some emp) }

abbrev pub shifts_are : ℕ → ShiftResolver
shifts_are emp = record { shift_owner_by_id = λ i. pure (some (emp, "published")) }

pub everyone_is-Reads : (emp : ℕ) → EmployeeResolverReads (everyone_is emp)
everyone_is-Reads emp = record { keeps = λ P u. Keeps-pure (some emp) }

pub shifts_are-Reads : (emp : ℕ) → ShiftResolverReads (shifts_are emp)
shifts_are-Reads emp = record { keeps = λ P i. Keeps-pure (some (emp, "published")) }

pub everyone_is-Answers :
    (P : TenantDb → Type 0) (emp u : ℕ)
    → Answers P (λ e. e ≡ emp) ((everyone_is emp).employee_id_by_user_id u)
everyone_is-Answers P emp u = Triple-pure (some emp) (λ w h. (h, inr (emp, refl, refl)))
