-- ===== src/Attendance/Creation.antt =====
-- What a check-in stores (attendance/service.go).
use opero.Prelude.{ℕ, ◌≡◌, inl, inr, ◌∙◌, Bool, true, false, not, ◌==◌, ==_iff, arith, find_row}
use opero.Effects.{Result, ok, err, World}
use opero.Effects.Error.{Err, attendance, errors_is}
use opero.Effects.Keeps.{Holds, Keeps-tenant_store}
use opero.Effects.Triple.{
  Triple, Triple-pure, Triple-raise, Triple-if, Triple-bind, Triple-attempt, Triple-query,
  Triple-Keeps, Triple-weaken, Triple-fact, AnyError, Replied, Holds-Unit,
}
use opero.Tenant.{TenantDb}
use opero.Resolvers.{EmployeeResolver, ShiftResolver, ShiftResolverReads, Answers}
use opero.Attendance.Types.{Record, CheckInInput}
use opero.Attendance.Queries.{by_client, checked_in_record, insert_record}
use opero.Attendance.Replay.{IsStored}
use opero.Attendance.Requests.{validate_shift_if_given-Keeps}
use opero.Attendance.Foreign.{resolved}
use opero.Attendance.Queries
use opero.Attendance.Store
use opero.Attendance.Service
use opero.Attendance.Service.{err_not_found, err_conflict, err_validation}

abbrev Any : TenantDb → Type 0
Any db = Unit {0}

abbrev Stored : ℕ → Record → World TenantDb → Type 0
Stored c r w = Holds Any w × IsStored c r w.db

get_ran :
    (c : ℕ) (r : Record) (w : World TenantDb)
    → Replied Any Store.map_err (Queries.get_attendance_by_client_id c) (ok r) w
    → Stored c r w
unfolding Queries.get_attendance_by_client_id Store.map_err
get_ran c r w (h, inl e) = absurd (ground arith)
get_ran c r w (h, inr ran) = (h, ground (arith, ran.answered, ran.left))

-- A look-up that succeeds returns what is stored.
get_stores :
    (c : ℕ) → Triple (Holds Any) (Store.get_by_client_id c) (λ r. Stored c r) (λ e. Holds Any)
unfolding Store.get_by_client_id
get_stores c =
    Triple-weaken _ (λ w h. h) (get_ran c) (λ e w h. h.0) (Triple-query Any _ _ (λ _ _ _ _. tt))

create_ran :
    (emp : ℕ) (inp : CheckInInput) (r : Record) (w : World TenantDb)
    → Replied Any Store.map_err (Queries.create_check_in emp inp) (ok r) w
    → Stored inp.client_id r w × (r.employee_id ≡ emp)
unfolding Queries.create_check_in Store.map_err find_row
create_ran emp inp r w (h, inl e) = absurd (ground arith)
create_ran emp inp r w (h, inr ran) =
    ((h, ground (arith, ran.answered, ran.left)), ground (arith, ran.answered))

-- An insertion that succeeds stores the caller's record under the client id.
create_stores :
    (emp : ℕ) (inp : CheckInInput)
    → Triple
        (Holds Any)
        (Store.create_check_in emp inp)
        (λ r w. Stored inp.client_id r w × (r.employee_id ≡ emp))
        (λ e. Holds Any)
unfolding Store.create_check_in
create_stores emp inp =
    Triple-weaken _ (λ w h. h) (create_ran emp inp) (λ e w h. h.0)
      (Triple-query Any _ _ (λ _ _ _ _. tt))

-- The record in a look-up's result is stored; in an insertion's, it is the caller's too.
abbrev FoundNow : ℕ → Result Record → World TenantDb → Type 0
FoundNow c (ok r) w = Stored c r w
FoundNow c (err e) w = Holds Any w

abbrev InsertedNow : ℕ → ℕ → Result Record → World TenantDb → Type 0
InsertedNow c emp (ok r) w = Stored c r w × (r.employee_id ≡ emp)
InsertedNow c emp (err e) w = Holds Any w

module _ (emp : ℕ) (inp : CheckInInput) where
  abbrev Own : Record × Bool → World TenantDb → Type 0
  Own x w = IsStored inp.client_id x.0 w.db × (x.0.employee_id ≡ emp)

  own_or_raise_stores :
      (e : Err) (x : Result Record)
      → Triple (FoundNow inp.client_id x) (Service.own_or_raise emp e x) Own AnyError
  unfolding Service.own_or_raise
  own_or_raise_stores e (ok r) =
      Triple-if (r.employee_id == emp) _ _
        (λ own. Triple-pure (r, false) (λ w h. (h.1, (==_iff _ _).0 own)))
        (λ _. Triple-raise e (λ w h. tt))
  own_or_raise_stores e (err _) = Triple-raise e (λ w h. tt)

  report_insert_stores :
      (x : Result Record)
      → Triple (InsertedNow inp.client_id emp x) (Service.report_insert emp inp x) Own AnyError
  unfolding Service.report_insert Service.recover_lost_race
  report_insert_stores (ok r) = Triple-pure (r, true) (λ w h. (h.0.1, h.1))
  report_insert_stores (err e) =
      Triple-if (errors_is e err_conflict) _ _
        (λ _. Triple-bind _ _ (Triple-attempt _ (get_stores inp.client_id)) (own_or_raise_stores e))
        (λ _. Triple-raise e (λ w h. tt))

  module _ (shifts : ShiftResolver) (reads : ShiftResolverReads shifts) where
    replay_or_insert_stores :
        (x : Result Record)
        → Triple (FoundNow inp.client_id x) (Service.replay_or_insert shifts emp inp x) Own AnyError
    unfolding Service.replay_or_insert Service.insert_check_in
    replay_or_insert_stores (ok r) =
        Triple-if (not (r.employee_id == emp)) _ _ (λ _. Triple-raise err_conflict (λ w h. tt))
          (λ own. Triple-pure (r, false) (λ w h. (h.1, ground arith)))
    replay_or_insert_stores (err e) =
        Triple-if (not (errors_is e err_not_found)) _ _ (λ _. Triple-raise e (λ w h. tt))
          (λ _.
            Triple-bind _ _
              (Triple-weaken _ (λ w h. h) (λ a w h. h) (λ e w h. tt)
                (Triple-Keeps _ (validate_shift_if_given-Keeps shifts reads Any emp inp.shift_id)))
              λ _. Triple-bind _ _ (Triple-attempt _ (create_stores emp inp)) report_insert_stores)

-- A check-in that succeeds returns the record stored under its client id, and that record belongs to
-- the caller's employee, whatever other requests that keep the user linked to it do meanwhile.
pub check_in-IsStored :
    (P : TenantDb → Type 0) (employees : EmployeeResolver) (shifts : ShiftResolver) (u emp : ℕ)
    → Answers P (λ e. e ≡ emp) (employees.employee_id_by_user_id u)
    → ShiftResolverReads shifts
    → (inp : CheckInInput)
    → Triple
        (Holds P)
        (Service.check_in employees shifts u inp)
        (λ x w. IsStored inp.client_id x.0 w.db × (x.0.employee_id ≡ emp))
        AnyError
unfolding Service.check_in
check_in-IsStored P employees shifts u emp answers reads inp =
    Triple-if (inp.client_id == 0) _ _ (λ _. Triple-raise err_validation (λ w h. tt))
      λ _.
        Triple-bind _ _
          (Triple-weaken _ (λ w h. h) (λ a w h. (Holds-Unit w, h.1)) (λ e w h. tt)
            (resolved employees P u emp answers))
          λ e. Triple-fact _ λ same.
            Triple-bind _ _
              (Triple-weaken _ (λ w h. h) (λ a w h. h) (λ e w h. tt)
                (Triple-Keeps _ (Keeps-tenant_store attendance)))
              λ _. Triple-bind _ _ (Triple-attempt _ (get_stores inp.client_id)) λ x.
                Triple-weaken _ (λ w h. h) (λ a w h. (h.0, h.1 ∙ same)) (λ e w h. h)
                  (replay_or_insert_stores e inp shifts reads x)
