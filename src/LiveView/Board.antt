-- ===== src/LiveView/Board.antt =====
-- The board of liveview/service.go, run on the packages that it joins.
use opero.Prelude.{String, Bool, true, List}
use opero.Effects.{World, Turn}
use opero.Tenant.{TenantDb}
use opero.Attendance.Queries as AttendanceQueries
use opero.Attendance.Store as AttendanceStore
use opero.Attendance.Service as Attendance
use opero.Roster.Queries as RosterQueries
use opero.Roster.Store as RosterStore
use opero.Roster.Service as Roster
use opero.Identity.Queries as PeopleQueries
use opero.Identity.Store as PeopleStore
use opero.Identity.Service as People
use opero.LiveView.Service.{Sources}

-- `NewService` with the services of the three packages.
abbrev pub services : (String → String → Bool) → Sources
services collates = record {
  list_shifts = Roster.list_shifts;
  list_by_shift_ids = Attendance.list_by_shift_ids;
  list_employees = People.list_employees collates;
}

-- A database that no other request writes meanwhile.
abbrev pub still : TenantDb → List (Turn TenantDb) → World TenantDb
still db turns = record { pool = true; db = db; turns = turns }
