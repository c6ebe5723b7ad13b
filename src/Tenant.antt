-- ===== src/Tenant.antt =====
-- A tenant's database (backend/db/migrations/tenant): the tables that the packages read and write,
-- each as the list of its rows. SQL promises no order without ORDER BY; a new row goes to the front.
use opero.Prelude.{ℕ, Bool, List, ◌==◌, any_row}
use opero.Effects.{M, Query}
use opero.Attendance.Types.{Record}
use opero.Leave.Types.{Request, Entitlement}
use opero.Roster.Types.{Location, Shift}
use opero.Identity.Types.{Department, Role, Employee}
use opero.Tours.Types.{Tour}

pub record TenantDb : Type 0 where
  pub departments : List Department
  pub roles : List Role
  pub employees : List Employee
  pub locations : List Location
  pub tours : List Tour
  pub shifts : List Shift
  pub attendance : List Record
  pub leave_requests : List Request
  pub leave_balances : List Entitlement

-- A request on the tenant database, and a statement of it.
abbrev pub Call : Type 0 → Type 0
Call = M TenantDb

abbrev pub Statement : Type 0 → Type 0
Statement = Query TenantDb

-- `REFERENCES`: the row that a foreign key names is there.
abbrev pub has_employee : TenantDb → ℕ → Bool
has_employee db i = any_row (λ e. e.id == i) db.employees

abbrev pub has_location : TenantDb → ℕ → Bool
has_location db i = any_row (λ l. l.id == i) db.locations

abbrev pub has_tour : TenantDb → ℕ → Bool
has_tour db i = any_row (λ t. t.id == i) db.tours

abbrev pub has_shift : TenantDb → ℕ → Bool
has_shift db i = any_row (λ s. s.id == i) db.shifts

abbrev pub has_department : TenantDb → ℕ → Bool
has_department db i = any_row (λ d. d.id == i) db.departments

abbrev pub has_role : TenantDb → ℕ → Bool
has_role db i = any_row (λ r. r.id == i) db.roles
