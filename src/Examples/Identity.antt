-- ===== src/Examples/Identity.antt =====
-- Runs of the theorems on departments, employees and roles.
use opero.Prelude.{String, none, some, [], ◌∷◌}
use opero.Effects.Keeps.{Keeps}
use opero.Identity.Types.{
  CreateDepartmentInput, UpdateDepartmentInput, CreateEmployeeInput, UpdateEmployeeInput,
  CreateRoleInput, UpdateRoleInput,
}
use opero.Identity.Invariant.{Inv}
use opero.Identity.Requests.{identity_writes-Inv}
use opero.Identity.Store
use opero.Identity.Service

abbrev guides : CreateDepartmentInput
guides = record {
  name = "Guides";
  parent_id = none;
  description = none;
  lead_employee_id = some 7;
  icon = none;
  color = none;
}

abbrev renamed : UpdateDepartmentInput
renamed = record {
  name = some "Tour guides";
  parent_id = none;
  description = none;
  lead_employee_id = none;
  icon = none;
  color = none;
}

abbrev a_guide : CreateEmployeeInput
a_guide = record {
  user_id = some 3;
  role_id = none;
  full_name = "Mai Le";
  email = none;
  phone = none;
  employment_type = "freelance";
  department_id = none;
  title = none;
  status = "";
  hired_at = none;
  location = none;
  languages = none;
  emergency_contact_name = none;
  emergency_contact_phone = none;
  reports_to = some 7;
  employee_code = none;
}

abbrev promoted : UpdateEmployeeInput
promoted = record {
  full_name = none;
  employment_type = some "full_time";
  email = none;
  phone = none;
  department_id = none;
  title = some "Lead";
  status = none;
  hired_at = none;
  role_id = none;
  location = none;
  languages = some ("vi" ∷ []);
  emergency_contact_name = none;
  emergency_contact_phone = none;
  reports_to = none;
  employee_code = none;
}

abbrev a_role : CreateRoleInput
a_role = record {
  name = "Guide";
  description = none;
  department_id = none;
  access_level = "mobile";
  permissions = none;
}

abbrev raised : UpdateRoleInput
raised = record {
  name = none;
  description = none;
  department_id = none;
  access_level = some "web_manager";
  permissions = none;
}

abbrev fold : String → String
fold s = s

identity_writes-Inv_example :
    (Keeps Inv (Service.create_department guides)
      × Keeps Inv (Service.update_department 7 renamed)
      × Keeps Inv (Service.delete_department 7))
    × (Keeps Inv (Service.create_employee a_guide)
        × Keeps Inv (Service.update_employee 7 promoted)
        × Keeps Inv (Service.delete_employee 7)
        × Keeps Inv (Store.set_employee_user_id 7 3))
    × Keeps Inv (Service.create_role fold a_role)
    × Keeps Inv (Service.update_role fold 7 raised)
    × Keeps Inv (Service.delete_role 7)
identity_writes-Inv_example =
    identity_writes-Inv 7 3 fold guides renamed a_guide promoted a_role raised
