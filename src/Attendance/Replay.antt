-- ===== src/Attendance/Replay.antt =====
-- Check-in is idempotent by client id (attendance/service.go).
use opero.Prelude.{
  ℕ, ◌≡◌, ◌≢◌, ◌⊎◌, List, ◌∷◌, true, if◌then◌else◌, inl, inr, sym, Bool, false, not, some, ◌==◌,
  arith, find_row,
}
use opero.Effects.{
  Result, ok, err, World, Turn, quiet, pure, raise, attempt, tenant_store, query, exec, ◌>>=◌,
}
use opero.Effects.Error.{attendance, Err-discrete, internal, errors_is}
use opero.Attendance.Requests.{resolve_employee-Keeps}
use opero.Effects.Keeps.{Holds, Keeps-tenant_store}
use opero.Effects.Triple.{
  Triple, Triple-pure, Triple-raise, Triple-if, Triple-bind, Triple-attempt, Triple-query,
  Triple-Keeps, Triple-weaken, Replied,
}
use opero.Tenant.{TenantDb}
use opero.Resolvers.{EmployeeResolver, ShiftResolver, EmployeeResolverReads}
use opero.Attendance.Types.{Record, CheckInInput}
use opero.Attendance.Queries.{by_client}
use opero.Attendance.Queries
use opero.Attendance.Store
use opero.Attendance.Service
use opero.Attendance.Service.{err_not_found, err_conflict, err_validation}

-- The record that a look-up of the client id finds.
abbrev pub IsStored : ℕ → Record → TenantDb → Type 0
IsStored c r db = find_row (by_client c) db.attendance ≡ some r

-- The result of a look-up of `r` in a database that keeps `P`: the record, or that of a broken
-- connection.
abbrev pub Found : (TenantDb → Type 0) → Record → Result Record → World TenantDb → Type 0
Found P r x w = Holds P w × ((x ≡ err internal) ⊎ (x ≡ ok r))

module _ (P : TenantDb → Type 0) (c : ℕ) (r : Record)
    (stored : (db : TenantDb) → P db → IsStored c r db) where
  read_stored :
      (x : Result Record) (w : World TenantDb)
      → Replied P Store.map_err (Queries.get_attendance_by_client_id c) x w
      → Found P r x w
  unfolding Queries.get_attendance_by_client_id Store.map_err
  read_stored x w (h, inl e) = (h, inl (sym e))
  read_stored x w (h, inr ran) = (h, inr (sym (rw (stored _ ran.started) at ran.answered)))

  pub get_by_client_id-Found :
      Triple (Holds P) (Store.get_by_client_id c) (λ a. Found P r (ok a)) (λ e. Found P r (err e))
  unfolding Store.get_by_client_id Queries.get_attendance_by_client_id
  get_by_client_id-Found =
      Triple-weaken _ (λ w h. h) (λ b w h. read_stored (ok b) w h)
        (λ e w h. read_stored (err e) w h) (Triple-query P _ _ (λ now fresh db h. h))

module _ (shifts : ShiftResolver) (emp : ℕ) (inp : CheckInInput) (r : Record) where
  Again : Record × Bool → World TenantDb → Type 0
  Again x w = Holds (IsStored inp.client_id r) w × (x ≡ (r, false))

  replay_or_insert-Again :
      (x : Result Record)
      → Triple
          (Found (IsStored inp.client_id r) r x)
          (Service.replay_or_insert shifts emp inp x)
          Again
          (λ e. Holds (IsStored inp.client_id r))
  unfolding Service.replay_or_insert Again Err-discrete
  replay_or_insert-Again (ok existing) =
      Triple-if (not (existing.employee_id == emp)) _ _ (λ _. Triple-raise _ (λ w h. h.0))
        (λ _. Triple-pure (existing, false) (λ w h. (h.0, ground arith)))
  replay_or_insert-Again (err e) =
      Triple-if (not (errors_is e err_not_found)) _ _ (λ _. Triple-raise e (λ w h. h.0))
        (λ nf. record { run = λ w h. absurd (ground arith) })

-- Whoever checks in with a stored client id.
replays_only :
    (employees : EmployeeResolver) (shifts : ShiftResolver)
    (reads : EmployeeResolverReads employees) (u : ℕ) (inp : CheckInInput) (r : Record)
    → Triple
        (Holds (IsStored inp.client_id r))
        (Service.check_in employees shifts u inp)
        (λ x w. Holds (IsStored inp.client_id r) w × (x ≡ (r, false)))
        (λ e. Holds (IsStored inp.client_id r))
unfolding Service.check_in Again
replays_only employees shifts reads u inp r =
    Triple-if (inp.client_id == 0) _ _ (λ _. Triple-raise err_validation (λ w h. h))
      λ _. Triple-bind _ _ (Triple-Keeps _ (resolve_employee-Keeps employees reads _ u)) λ emp.
        Triple-bind _ _ (Triple-Keeps _ (Keeps-tenant_store attendance)) λ _.
          Triple-bind _ _
            (Triple-attempt _
              (get_by_client_id-Found (IsStored inp.client_id r) inp.client_id r (λ db h. h)))
            (replay_or_insert-Again shifts emp inp r)

-- Once a check-in is stored under a client id, a check-in with that client id whose caller has an
-- employee and which finds the database with no other request meanwhile answers: it returns the
-- stored record with `created` false if the record is of the caller's employee, a conflict if it is
-- not, and leaves the database as it was. And under every failure of the connection, whatever other
-- requests that leave the record alone do meanwhile, the record stays stored and a check-in that
-- succeeds returns it with `created` false.
pub check_in-replay :
    (employees : EmployeeResolver) (shifts : ShiftResolver)
    (reads : EmployeeResolverReads employees) (u emp : ℕ) (inp : CheckInInput) (r : Record)
    (start : World TenantDb) (db : TenantDb) (t k : ℕ) (rest : List (Turn TenantDb))
    → inp.client_id ≢ 0
    → IsStored inp.client_id r db
    → employees.employee_id_by_user_id u start
      ≡ (ok (some emp), record { pool = true; db = db; turns = quiet t k ∷ rest })
    → (Service.check_in employees shifts u inp start ≡ (
      if r.employee_id == emp then ok (r, false) else err err_conflict,
      record { pool = true; db = db; turns = rest },
    ))
      × Triple
          (Holds (IsStored inp.client_id r))
          (Service.check_in employees shifts u inp)
          (λ x w. Holds (IsStored inp.client_id r) w × (x ≡ (r, false)))
          (λ e. Holds (IsStored inp.client_id r))
unfolding Service.check_in Service.resolve_employee Service.replay_or_insert Store.get_by_client_id
    Store.map_err Queries.get_attendance_by_client_id query exec attempt ◌>>=◌ pure raise
    tenant_store
check_in-replay employees shifts reads u emp inp r start db t k rest named stored linked =
    (ground (arith, named, stored, linked), replays_only employees shifts reads u inp r)
