-- ===== src/Attendance/Types.antt =====
-- attendance/types.go and the sqlc parameter structs. Identifiers are numbers (`uuid.Nil` is 0),
-- instants are nanoseconds since Go's zero time, a nullable column or pointer is an `Option`, and a
-- float64 that is only stored is its bit pattern.
use opero.Prelude.{ℕ, String, Option}

pub record Record : Type 0 where
  pub id : ℕ
  pub employee_id : ℕ
  pub shift_id : Option ℕ
  pub client_id : ℕ
  pub check_in_at : Option ℕ
  pub check_in_lat : Option ℕ
  pub check_in_lng : Option ℕ
  pub check_in_photo_url : Option String
  pub check_out_at : Option ℕ
  pub check_out_lat : Option ℕ
  pub check_out_lng : Option ℕ
  pub check_out_photo_url : Option String
  pub break_started_at : Option ℕ
  pub status : String
  pub created_at : ℕ
  pub updated_at : ℕ

pub record DemoRecordInput : Type 0 where
  pub employee_id : ℕ
  pub shift_id : Option ℕ
  pub check_in_at : Option ℕ
  pub check_in_lat : Option ℕ
  pub check_in_lng : Option ℕ
  pub check_out_at : Option ℕ
  pub check_out_lat : Option ℕ
  pub check_out_lng : Option ℕ
  pub break_started_at : Option ℕ
  pub status : String

pub record CheckInInput : Type 0 where
  pub client_id : ℕ
  pub shift_id : Option ℕ
  pub lat : Option ℕ
  pub lng : Option ℕ
  pub photo_url : Option String

pub record CheckOutInput : Type 0 where
  pub client_id : ℕ
  pub lat : Option ℕ
  pub lng : Option ℕ
  pub photo_url : Option String

pub record AttendanceFilter : Type 0 where
  pub employee_id : Option ℕ
  pub status : Option String
  pub from : Option ℕ
  pub to : Option ℕ
