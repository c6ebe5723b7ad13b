-- ===== src/Examples/Logins.antt =====
-- Runs of the theorems on the logins of employees and on tours.
use opero.Prelude.{ℕ, String, ◌≡◌, ◌≢◌, refl, Bool, true, false, none, some, [], ◌∷◌, ◌⊎◌, leb}
use opero.Prelude.Int.{pos, negsuc}
use opero.Effects.{Link, up, cut, lost}
use opero.Tenant.{TenantDb}
use opero.Logins.Service.{Databases, control_users}
use opero.Logins.Service
use opero.Logins.Compensation.{Withdrawn, Linked, start, create_employee_login-Compensates}
use opero.Tours.Types.{CreateInput}
use opero.Tours.Bounds.{Stored, create-KeepsLowBits}
use opero.Tours.Bounds as TourBounds
use opero.Tours.Service as Tours
use opero.Examples.Controlplane.{some_crypto, control}
use opero.Examples.Data.{tenant, an_employee}

-- The employee without a login yet.
abbrev databases : Databases
databases = record {
  tenant = record tenant { employees = record an_employee { user_id = none } ∷ [] };
  control = control;
}

abbrev untouched : TenantDb → TenantDb
untouched db = db

-- A link that is cut or that holds is not one that loses an answer.
abbrev loses : Link → Bool
loses up = false
loses cut = false
loses lost = true

cut_is_not_lost : cut ≢ lost
cut_is_not_lost e = absurd (ground (opero.Prelude.arith))

create_employee_login-Compensates_example :
    let o =
      Service.create_employee_login
        (control_users some_crypto)
        4
        7
        "linh@acme.test "
        "a password"
        ""
        (start some_crypto 4 7 "linh@acme.test " "a password" "" databases untouched cut 1 70 2 71 3
          72 4 73 []) in
    Withdrawn some_crypto 4 7 "linh@acme.test " "a password" "" databases untouched cut 1 70 2 71 3
      72 4 73 [] o
    ⊎ Linked some_crypto 4 7 "linh@acme.test " "a password" "" databases untouched cut 1 70 2 71 3
        72 4 73 [] o
create_employee_login-Compensates_example =
    create_employee_login-Compensates some_crypto 4 7 "linh@acme.test " "a password" "" databases
      untouched cut 1 70 2 71 3 72 4 73 [] cut_is_not_lost

abbrev a_tour : CreateInput
a_tour = record {
  name = "Old town";
  category = "walking";
  meeting_point = none;
  duration_min = pos 90;
  max_guests = pos 12;
  guides_needed = pos 1;
  drivers_needed = negsuc 4294967295;
  departure_times = none;
  price_cents = pos 4294967301;
  rating = none;
  active = true;
  color = none;
  description = none;
}

create-KeepsLowBits_example :
    Stored
      (λ r. true)
      a_tour
      tenant
      5
      80
      []
      (Tours.create (λ r. true) a_tour (TourBounds.start (λ r. true) a_tour tenant 5 80 []))
create-KeepsLowBits_example = create-KeepsLowBits (λ r. true) a_tour tenant 5 80 []
