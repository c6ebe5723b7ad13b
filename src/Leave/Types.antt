-- ===== src/Leave/Types.antt =====
-- leave/types.go, and a row of leave_balances. Dates are numbered days: `end - start + 1` counts days.
use opero.Prelude.{ℕ, String, Option}

abbrev pub default_entitled_days : ℕ
default_entitled_days = 22

abbrev pub status_pending : String
status_pending = "pending"

abbrev pub status_approved : String
status_approved = "approved"

abbrev pub status_rejected : String
status_rejected = "rejected"

pub record Request : Type 0 where
  pub id : ℕ
  pub employee_id : ℕ
  pub kind : String
  pub start_date : ℕ
  pub end_date : ℕ
  pub note : Option String
  pub status : String
  pub reviewed_by : Option ℕ
  pub reviewed_at : Option ℕ
  pub created_at : ℕ
  pub updated_at : ℕ

pub record CreateInput : Type 0 where
  pub kind : String
  pub start_date : ℕ
  pub end_date : ℕ
  pub note : Option String

pub record Filter : Type 0 where
  pub employee_id : Option ℕ
  pub status : Option String

pub record Entitlement : Type 0 where
  pub employee_id : ℕ
  pub year : ℕ
  pub entitled_days : ℕ
