-- ===== src/Attendance/Foreign.antt =====
-- Nobody touches another employee's record by its client id (attendance/service.go).
use opero.Prelude.{ℕ, ◌≡◌, ◌≢◌, ◌⊎◌, Bool, not, Option, none, some, ◌==◌, if◌then◌else◌, arith}
use opero.Effects.{◌>>=◌, ◌>>◌, tenant_store, Result, ok, err, pure, raise}
use opero.Effects.Error.{attendance, Err-discrete, errors_is}
use opero.Effects.Keeps.{Holds, Keeps-tenant_store}
use opero.Effects.Triple.{
  Triple, Triple-pure, Triple-raise, Triple-if, Triple-bind, Triple-attempt, Triple-Keeps,
  Triple-weaken, Triple-fact,
}
use opero.Tenant.{TenantDb, Call}
use opero.Resolvers.{EmployeeResolver, ShiftResolver, Answers}
use opero.Attendance.Types.{Record, CheckInInput, CheckOutInput}
use opero.Attendance.Replay.{IsStored, Found, get_by_client_id-Found}
use opero.Attendance.Store
use opero.Attendance.Service
use opero.Attendance.Service.{err_not_found, err_conflict, err_validation}

-- The employee found, if one is, is `emp`.
pub resolved :
    (employees : EmployeeResolver) (P : TenantDb → Type 0) (u emp : ℕ)
    → Answers P (λ e. e ≡ emp) (employees.employee_id_by_user_id u)
    → Triple
        (Holds P)
        (Service.resolve_employee employees u)
        (λ x w. Holds P w × (x ≡ emp))
        (λ e. Holds P)
unfolding Service.resolve_employee
resolved employees P u emp answers = Triple-bind _ _ answers after
  where
    after :
        (found : Option ℕ)
        → Triple
            (λ w. Holds P w × ((found ≡ none) ⊎ ((a : ℕ) × (found ≡ some a) × (a ≡ emp))))
            (elim found as (λ _. Call ℕ) [ none ↦ raise err_validation | some id ↦ pure id ])
            (λ x w. Holds P w × (x ≡ emp))
            (λ e. Holds P)
    after none = Triple-raise err_validation (λ w h. h.0)
    after (some id) = Triple-pure id (λ w h. (h.0, ground arith))

module _ (P : TenantDb → Type 0) (c : ℕ) (r : Record)
    (stored : (db : TenantDb) → P db → IsStored c r db) (employees : EmployeeResolver) (u emp : ℕ)
    (answers : Answers P (λ e. e ≡ emp) (employees.employee_id_by_user_id u))
    (foreign : r.employee_id ≢ emp) where
  -- The test that check-out and break make after the look-up.
  own_test :
      {A : Type 0} (e : ℕ) (rec : Record) (m : Call A)
      → e ≡ emp
      → Triple
          (Found P r (ok rec))
          (if not (rec.employee_id == e) then raise err_not_found else m)
          (λ x w. ⊥)
          (λ e. Holds P)
  own_test e rec m same =
      Triple-if (not (rec.employee_id == e)) _ _ (λ _. Triple-raise err_not_found (λ w h. h.0))
        (λ own. record { run = λ w h. absurd (ground arith) })

  -- The look-up of the caller's employee and of the record, and what follows.
  looked_up :
      {A : Type 0} (k : ℕ → Record → Call A)
      → ((e : ℕ) (rec : Record)
          → e ≡ emp
          → Triple (Found P r (ok rec)) (k e rec) (λ x w. ⊥) (λ e. Holds P))
      → Triple
          (Holds P)
          (do
            e ← Service.resolve_employee employees u
            tenant_store attendance
            rec ← Store.get_by_client_id c
            k e rec)
          (λ x w. ⊥)
          (λ e. Holds P)
  looked_up k tail = Triple-bind _ _ (resolved employees P u emp answers) λ e. Triple-fact _ λ same.
      Triple-bind _ _ (Triple-Keeps _ (Keeps-tenant_store attendance)) λ _.
        Triple-bind _ _
          (Triple-weaken _ (λ w h. h) (λ a w h. h) (λ e w h. h.0)
            (get_by_client_id-Found P c r stored))
          λ rec. tail e rec same

  check_out-foreign :
      (inp : CheckOutInput)
      → Triple
          (Holds P)
          (Service.check_out employees u (record inp { client_id = c }))
          (λ x w. ⊥)
          (λ e. Holds P)
  unfolding Service.check_out
  check_out-foreign inp =
      Triple-if (c == 0) _ _ (λ _. Triple-raise err_validation (λ w h. h))
        λ _. looked_up _ λ e rec same. own_test e rec _ same

  set_break-foreign :
      (on_break : Bool)
      → Triple (Holds P) (Service.set_break employees u c on_break) (λ x w. ⊥) (λ e. Holds P)
  unfolding Service.set_break
  set_break-foreign on_break =
      Triple-if (c == 0) _ _ (λ _. Triple-raise err_validation (λ w h. h))
        λ _. looked_up _ λ e rec same. own_test e rec _ same

  replay_foreign :
      (shifts : ShiftResolver) (e : ℕ) (inp : CheckInInput) (x : Result Record)
      → e ≡ emp
      → Triple (Found P r x) (Service.replay_or_insert shifts e inp x) (λ x w. ⊥) (λ e. Holds P)
  unfolding Service.replay_or_insert Err-discrete
  replay_foreign shifts e inp (ok rec) same =
      Triple-if (not (rec.employee_id == e)) _ _ (λ _. Triple-raise err_conflict (λ w h. h.0))
        (λ own. record { run = λ w h. absurd (ground arith) })
  replay_foreign shifts e inp (err x) same =
      Triple-if (not (errors_is x err_not_found)) _ _ (λ _. Triple-raise x (λ w h. h.0))
        (λ nf. record { run = λ w h. absurd (ground arith) })

  check_in-foreign :
      (shifts : ShiftResolver) (inp : CheckInInput)
      → Triple
          (Holds P)
          (Service.check_in employees shifts u (record inp { client_id = c }))
          (λ x w. ⊥)
          (λ e. Holds P)
  unfolding Service.check_in
  check_in-foreign shifts inp =
      Triple-if (c == 0) _ _ (λ _. Triple-raise err_validation (λ w h. h))
        λ _. Triple-bind _ _ (resolved employees P u emp answers) λ e. Triple-fact _ λ same.
          Triple-bind _ _ (Triple-Keeps _ (Keeps-tenant_store attendance)) λ _.
            Triple-bind _ _ (Triple-attempt _ (get_by_client_id-Found P c r stored))
              λ x. replay_foreign shifts e (record inp { client_id = c }) x same

  -- Under a property that says that the client id has a record of another employee than the one to
  -- which the user resolves, no check-in, check-out or break of the user with that client id succeeds,
  -- and the property is kept, so that the record is still there, whatever other requests that keep it do
  -- meanwhile.
  pub foreign-Refused :
      (shifts : ShiftResolver) (ci : CheckInInput) (co : CheckOutInput) (on_break : Bool)
      → Triple
          (Holds P)
          (Service.check_in employees shifts u (record ci { client_id = c }))
          (λ x w. ⊥)
          (λ e. Holds P)
        × Triple
            (Holds P)
            (Service.check_out employees u (record co { client_id = c }))
            (λ x w. ⊥)
            (λ e. Holds P)
        × Triple (Holds P) (Service.set_break employees u c on_break) (λ x w. ⊥) (λ e. Holds P)
  foreign-Refused shifts ci co on_break =
      (check_in-foreign shifts ci, check_out-foreign co, set_break-foreign on_break)
