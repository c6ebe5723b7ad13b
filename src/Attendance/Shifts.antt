-- ===== src/Attendance/Shifts.antt =====
-- Check-in against a shift (attendance/service.go, `validateOwnShift`).
use opero.Prelude.{
  ℕ, String, ◌≡◌, ◌⊎◌, refl, sym, subst, false, not, ◌&&◌, ◌||◌, Option, none, some, ◌==◌, str_eq,
  if◌then◌else◌, arith,
}
use opero.Effects.{Result, ok, err, pure, raise}
use opero.Effects.Error.{attendance, errors_is}
use opero.Effects.Keeps.{Keeps, Holds, Keeps-tenant_store, Keeps-query, Keeps-attempt}
use opero.Effects.Triple.{
  Triple, Triple-pure, Triple-raise, Triple-if, Triple-bind, Triple-Keeps, Triple-fact,
}
use opero.Tenant.{TenantDb, Call}
use opero.Resolvers.{EmployeeResolver, ShiftResolver, Answers}
use opero.Attendance.Types.{Record, CheckInInput}
use opero.Attendance.Queries.{by_client}
use opero.Attendance.Store
use opero.Attendance.Service
use opero.Attendance.Service.{err_not_found, err_conflict, err_validation}
use opero.Attendance.Foreign.{resolved}
use opero.Attendance.Queries.{checked_in_record}
use opero.Attendance.Queries

-- The shift is another's, or is not published.
abbrev pub IsNotOwn : ℕ → ℕ × String → Type 0
IsNotOwn emp os = ((os.0 == emp) && str_eq os.1 "published") ≡ false

module _ (P : TenantDb → Type 0) (shifts : ShiftResolver) (emp s : ℕ)
    (answers : Answers P (IsNotOwn emp) (shifts.shift_owner_by_id s)) where
  validate_refused :
      (e : ℕ)
      → e ≡ emp
      → Triple (Holds P) (Service.validate_own_shift shifts e s) (λ x w. ⊥) (λ e. Holds P)
  unfolding Service.validate_own_shift
  validate_refused e same = Triple-bind _ _ answers after
    where
      after :
          (found : Option (ℕ × String))
          → Triple
              (λ w.
                Holds P w
                × ((found ≡ none) ⊎ ((a : ℕ × String) × (found ≡ some a) × IsNotOwn emp a)))
              (elim found as (λ _. Call Unit) [
                | none ↦ raise err_validation
                | some (owner, status) ↦
                    if not (owner == e) || not (str_eq status "published")
                    then raise err_validation
                    else pure tt
              ])
              (λ x w. ⊥)
              (λ e. Holds P)
      after none = Triple-raise err_validation (λ w h. h.0)
      after (some (owner, status)) =
          Triple-if (not (owner == e) || not (str_eq status "published")) _ _
            (λ _. Triple-raise err_validation (λ w h. h.0))
            (λ own. record { run = λ w h. absurd (ground arith) })

  refuses :
      (inp : CheckInInput) (e : ℕ) (x : Result Record)
      → inp.shift_id ≡ some s
      → e ≡ emp
      → Triple
          (Holds P)
          (Service.replay_or_insert shifts e inp x)
          (λ y w. Holds P w × (y.1 ≡ false))
          (λ e. Holds P)
  unfolding Service.replay_or_insert Service.insert_check_in Service.validate_shift_if_given
  refuses inp e (ok r) given same =
      Triple-if (not (r.employee_id == e)) _ _ (λ _. Triple-raise err_conflict (λ w h. h))
        (λ _. Triple-pure (r, false) (λ w h. (h, refl)))
  refuses inp e (err x) given same =
      Triple-if (not (errors_is x err_not_found)) _ _ (λ _. Triple-raise x (λ w h. h))
        (λ _.
          Triple-bind _ _
            (subst
              (λ o.
                Triple (Holds P) (Service.validate_shift_if_given shifts e o) (λ x w. ⊥)
                  (λ e. Holds P))
              (sym given) (validate_refused e same))
            λ _. record { run = λ w h. absurd h })

  get-Keeps : (c : ℕ) → Keeps P (Store.get_by_client_id c)
  unfolding Store.get_by_client_id Queries.get_attendance_by_client_id
  get-Keeps c = Keeps-query _ _ (λ now fresh db h. h)

  -- A check-in for a shift that is not a published shift of the caller's creates no record and writes
  -- nothing: it keeps every property of the database that the other requests keep.
  pub check_in-IsNotOwn :
      (employees : EmployeeResolver) (u : ℕ) (inp : CheckInInput)
      → Answers P (λ e. e ≡ emp) (employees.employee_id_by_user_id u)
      → inp.shift_id ≡ some s
      → Triple
          (Holds P)
          (Service.check_in employees shifts u inp)
          (λ x w. Holds P w × (x.1 ≡ false))
          (λ e. Holds P)
  unfolding Service.check_in
  check_in-IsNotOwn employees u inp emp_answers given =
      Triple-if (inp.client_id == 0) _ _ (λ _. Triple-raise err_validation (λ w h. h))
        λ _. Triple-bind _ _ (resolved employees P u emp emp_answers) λ e. Triple-fact _ λ same.
          Triple-bind _ _ (Triple-Keeps _ (Keeps-tenant_store attendance)) λ _.
            Triple-bind _ _ (Triple-Keeps _ (Keeps-attempt _ (get-Keeps inp.client_id)))
              λ x. refuses inp e x given same
