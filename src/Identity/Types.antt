-- ===== src/Identity/Types.antt =====
-- identity/types.go. A nil slice of an input is `none`.
use opero.Prelude.{ℕ, String, Option, List}

pub record Department : Type 0 where
  pub id : ℕ
  pub name : String
  pub parent_id : Option ℕ
  pub description : Option String
  pub lead_employee_id : Option ℕ
  pub icon : Option String
  pub color : Option String
  pub created_at : ℕ
  pub updated_at : ℕ

pub record Employee : Type 0 where
  pub id : ℕ
  pub user_id : Option ℕ
  pub role_id : Option ℕ
  pub full_name : String
  pub email : Option String
  pub phone : Option String
  pub employment_type : String
  pub department_id : Option ℕ
  pub title : Option String
  pub status : String
  pub hired_at : Option ℕ
  pub location : Option String
  pub languages : List String
  pub emergency_contact_name : Option String
  pub emergency_contact_phone : Option String
  pub reports_to : Option ℕ
  pub employee_code : Option String
  pub created_at : ℕ
  pub updated_at : ℕ

pub record EmployeeFilter : Type 0 where
  pub department_id : Option ℕ
  pub status : Option String

pub record Role : Type 0 where
  pub id : ℕ
  pub name : String
  pub description : Option String
  pub department_id : Option ℕ
  pub access_level : String
  pub permissions : List String
  pub created_at : ℕ
  pub updated_at : ℕ

pub record CreateRoleInput : Type 0 where
  pub name : String
  pub description : Option String
  pub department_id : Option ℕ
  pub access_level : String
  pub permissions : Option (List String)

pub record UpdateRoleInput : Type 0 where
  pub name : Option String
  pub description : Option String
  pub department_id : Option ℕ
  pub access_level : Option String
  pub permissions : Option (List String)

pub record CreateDepartmentInput : Type 0 where
  pub name : String
  pub parent_id : Option ℕ
  pub description : Option String
  pub lead_employee_id : Option ℕ
  pub icon : Option String
  pub color : Option String

pub record UpdateDepartmentInput : Type 0 where
  pub name : Option String
  pub parent_id : Option ℕ
  pub description : Option String
  pub lead_employee_id : Option ℕ
  pub icon : Option String
  pub color : Option String

pub record CreateEmployeeInput : Type 0 where
  pub user_id : Option ℕ
  pub role_id : Option ℕ
  pub full_name : String
  pub email : Option String
  pub phone : Option String
  pub employment_type : String
  pub department_id : Option ℕ
  pub title : Option String
  pub status : String
  pub hired_at : Option ℕ
  pub location : Option String
  pub languages : Option (List String)
  pub emergency_contact_name : Option String
  pub emergency_contact_phone : Option String
  pub reports_to : Option ℕ
  pub employee_code : Option String

pub record UpdateEmployeeInput : Type 0 where
  pub full_name : Option String
  pub employment_type : Option String
  pub email : Option String
  pub phone : Option String
  pub department_id : Option ℕ
  pub title : Option String
  pub status : Option String
  pub hired_at : Option ℕ
  pub role_id : Option ℕ
  pub location : Option String
  pub languages : Option (List String)
  pub emergency_contact_name : Option String
  pub emergency_contact_phone : Option String
  pub reports_to : Option ℕ
  pub employee_code : Option String

-- What CreateEmployeeLogin returns (identity/service.go).
pub record LoginResult : Type 0 where
  pub user_id : ℕ
  pub email : String
  pub role : String
