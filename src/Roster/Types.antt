-- ===== src/Roster/Types.antt =====
-- roster/types.go.
use opero.Prelude.{ℕ, String, Option}

pub record Location : Type 0 where
  pub id : ℕ
  pub name : String
  pub address : Option String
  pub lat : Option ℕ
  pub lng : Option ℕ
  pub created_at : ℕ
  pub updated_at : ℕ

pub record Shift : Type 0 where
  pub id : ℕ
  pub employee_id : ℕ
  pub location_id : Option ℕ
  pub tour_id : Option ℕ
  pub starts_at : ℕ
  pub ends_at : ℕ
  pub notes : Option String
  pub status : String
  pub created_at : ℕ
  pub updated_at : ℕ

pub record CreateLocationInput : Type 0 where
  pub name : String
  pub address : Option String
  pub lat : Option ℕ
  pub lng : Option ℕ

pub record UpdateLocationInput : Type 0 where
  pub name : Option String
  pub address : Option String
  pub lat : Option ℕ
  pub lng : Option ℕ

pub record CreateShiftInput : Type 0 where
  pub employee_id : ℕ
  pub location_id : Option ℕ
  pub tour_id : Option ℕ
  pub starts_at : ℕ
  pub ends_at : ℕ
  pub notes : Option String

pub record UpdateShiftInput : Type 0 where
  pub employee_id : Option ℕ
  pub location_id : Option ℕ
  pub tour_id : Option ℕ
  pub starts_at : Option ℕ
  pub ends_at : Option ℕ
  pub notes : Option String

pub record ShiftFilter : Type 0 where
  pub employee_id : Option ℕ
  pub status : Option String
  pub from : Option ℕ
  pub to : Option ℕ
