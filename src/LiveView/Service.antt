-- ===== src/LiveView/Service.antt =====
-- liveview/service.go and the window of liveview/handler.go. What the package takes of roster,
-- attendance and identity is a parameter.
use opero.Prelude.{ℕ, String, Option, none, some, List, [], ◌+◌, ◌*◌, map}
use opero.Prelude.Calendar.{day, hour, day_of}
use opero.Prelude.GoMap.{Index, lookup, index}
use opero.Effects.{pure, ◌>>=◌}
use opero.Tenant.{Call}
use opero.Roster.Types.{Shift, ShiftFilter}
use opero.Attendance.Types.{Record}
use opero.Identity.Types.{Employee, EmployeeFilter}

-- `shiftLister`, `attendanceLister` and `employeeLister`.
pub record Sources : Type 0 where
  pub list_shifts : ShiftFilter → Call (List Shift)
  pub list_by_shift_ids : List ℕ → Call (List Record)
  pub list_employees : EmployeeFilter → Call (List Employee)

pub record Entry : Type 0 where
  pub employee_id : ℕ
  pub employee_name : String
  pub shift : Shift
  pub attendance_status : String
  pub check_in_at : Option ℕ
  pub check_out_at : Option ℕ
  pub check_in_lat : Option ℕ
  pub check_in_lng : Option ℕ
  pub break_started_at : Option ℕ

abbrev pub linked : Option ℕ → Record → Option (ℕ × Record)
linked none r = none
linked (some s) r = some (s, r)

abbrev pub by_shift : Record → Option (ℕ × Record)
by_shift r = linked r.shift_id r

abbrev pub name_by_id : Employee → Option (ℕ × String)
name_by_id e = some (e.id, e.full_name)

-- The zero value of a missing key.
abbrev pub or_empty : Option String → String
or_empty none = ""
or_empty (some s) = s

abbrev pub not_checked_in : String → Shift → Entry
not_checked_in name sh = record {
  employee_id = sh.employee_id;
  employee_name = name;
  shift = sh;
  attendance_status = "not_checked_in";
  check_in_at = none;
  check_out_at = none;
  check_in_lat = none;
  check_in_lng = none;
  break_started_at = none;
}

abbrev pub with_record : Option Record → Entry → Entry
with_record none e = e
with_record (some r) e = record e {
  attendance_status = r.status;
  check_in_at = r.check_in_at;
  check_out_at = r.check_out_at;
  check_in_lat = r.check_in_lat;
  check_in_lng = r.check_in_lng;
  break_started_at = r.break_started_at;
}

unfoldable pub entry : Index Record → Index String → Shift → Entry
entry records names sh =
    with_record (lookup sh.id records) (not_checked_in (or_empty (lookup sh.employee_id names)) sh)

abbrev pub published_in : ℕ → ℕ → ShiftFilter
published_in from to = record {
  employee_id = none;
  status = some "published";
  from = some from;
  to = some to;
}

abbrev pub everyone : EmployeeFilter
everyone = record { department_id = none; status = none }

unfoldable pub live_view : Sources → ℕ → ℕ → Call (List Entry)
live_view sources from to = do
  shifts ← sources.list_shifts (published_in from to)
  records ← sources.list_by_shift_ids (map (λ s. s.id) shifts)
  emps ← sources.list_employees everyone
  pure (map (entry (index by_shift records []) (index name_by_id emps [])) shifts)

-- `resolveWindow`: a bound that is left out is that of the current day in UTC.
unfoldable pub resolve_window : Option ℕ → Option ℕ → ℕ → ℕ × ℕ
unfolding day_of
resolve_window none none now = (day_of now * day, day_of now * day + 24 * hour)
resolve_window (some from) none now = (from, from + 24 * hour)
resolve_window none (some to) now = (day_of now * day, to)
resolve_window (some from) (some to) now = (from, to)
