-- ===== src/Attendance/Ownership.antt =====
-- Whose records check-out and break may change, and when (attendance/service.go).
use opero.Prelude.{
  ℕ, String, ◌≡◌, refl, Bool, true, false, not, ◌&&◌, ◌==◌, str_eq, str_eq-of-eq, if◌then◌else◌,
  arith,
}
use opero.Effects.{ok, World, pure, raise, tenant_store, ◌>>=◌, ◌>>◌}
use opero.Effects.Error.{attendance}
use opero.Effects.Keeps.{Holds, Keeps-tenant_store}
use opero.Effects.Triple.{
  Triple, Triple-pure, Triple-raise, Triple-if, Triple-bind, Triple-Keeps, Triple-weaken,
}
use opero.Tenant.{TenantDb, Call}
use opero.Resolvers.{EmployeeResolver, EmployeeResolverReads}
use opero.Attendance.Types.{Record, CheckOutInput}
use opero.Attendance.Replay.{IsStored, Found, get_by_client_id-Found}
use opero.Attendance.Requests.{resolve_employee-Keeps}
use opero.Attendance.Store
use opero.Attendance.Service
use opero.Attendance.Service.{err_not_found, err_conflict, err_validation}

module _ (employees : EmployeeResolver) (reads : EmployeeResolverReads employees) (u : ℕ) where
  -- The steps that check-out and break share, on a client id that has the record `r`.
  lookup_own :
      {A : Type 0} (c : ℕ) (r : Record) (k : ℕ → Record → Call A) (Q : A → World TenantDb → Type 0)
      → ((emp : ℕ) (rec : Record)
          → Triple (Found (IsStored c r) r (ok rec)) (k emp rec) Q (λ e. Holds (IsStored c r)))
      → Triple
          (Holds (IsStored c r))
          (do
            emp ← Service.resolve_employee employees u
            tenant_store attendance
            rec ← Store.get_by_client_id c
            k emp rec)
          Q
          (λ e. Holds (IsStored c r))
  lookup_own c r k Q tail =
      Triple-bind _ _ (Triple-Keeps _ (resolve_employee-Keeps employees reads _ u)) λ emp.
        Triple-bind _ _ (Triple-Keeps _ (Keeps-tenant_store attendance)) λ _.
          Triple-bind _ _
            (Triple-weaken _ (λ w h. h) (λ a w h. h) (λ e w h. h.0)
              (get_by_client_id-Found (IsStored c r) c r (λ db h. h)))
            (tail emp)

  check_out-closed :
      (inp : CheckOutInput) (r : Record)
      → str_eq r.status "checked_out" ≡ true
      → Triple
          (Holds (IsStored inp.client_id r))
          (Service.check_out employees u inp)
          (λ x w. Holds (IsStored inp.client_id r) w × (x ≡ r))
          (λ e. Holds (IsStored inp.client_id r))
  unfolding Service.check_out
  check_out-closed inp r closed =
      Triple-if (inp.client_id == 0) _ _ (λ _. Triple-raise err_validation (λ w h. h))
        λ _. lookup_own inp.client_id r _ _ λ emp rec.
          Triple-if (not (rec.employee_id == emp)) _ _
            (λ _. Triple-raise err_not_found (λ w h. h.0))
            λ _.
              Triple-if (str_eq rec.status "checked_out") _ _
                (λ _. Triple-pure rec (λ w h. (h.0, ground arith)))
                (λ other. record { run = λ w h. absurd (ground arith) })

  -- The three last tests of `set_break` on a record that is checked out.
  set_break_refused :
      (c emp : ℕ) (target : String) (r rec : Record)
      → str_eq r.status "checked_out" ≡ true
      → str_eq "checked_out" target ≡ false
      → Triple
          (Found (IsStored c r) r (ok rec))
          (if not (rec.employee_id == emp)
            then raise err_not_found
            else if str_eq rec.status target
            then pure rec
            else if not (str_eq rec.status "checked_in") && not (str_eq rec.status "on_break")
            then raise err_validation
            else Store.set_status c target)
          (λ x w. ⊥)
          (λ e. Holds (IsStored c r))
  set_break_refused c emp target r rec closed differs =
      Triple-if (not (rec.employee_id == emp)) _ _ (λ _. Triple-raise err_not_found (λ w h. h.0))
        λ _.
          Triple-if (str_eq rec.status target) _ _
            (λ same. record {
              run =
                  λ w h. ground (arith, str_eq-of-eq r.status "checked_out" target closed differs);
            })
            λ _.
              Triple-if (not (str_eq rec.status "checked_in") && not (str_eq rec.status "on_break"))
                _ _ (λ _. Triple-raise err_validation (λ w h. h.0))
                (λ opened. record {
                  run = λ w h. ground (
                    arith,
                    str_eq-of-eq r.status "checked_out" "checked_in" {b = false} closed refl,
                    str_eq-of-eq r.status "checked_out" "on_break" {b = false} closed refl,
                  );
                })

  target_differs : (b : Bool) → str_eq "checked_out" (Service.break_target b) ≡ false
  target_differs true = refl
  target_differs false = refl

  set_break-closed :
      (c : ℕ) (on_break : Bool) (r : Record)
      → str_eq r.status "checked_out" ≡ true
      → Triple
          (Holds (IsStored c r))
          (Service.set_break employees u c on_break)
          (λ x w. ⊥)
          (λ e. Holds (IsStored c r))
  unfolding Service.set_break
  set_break-closed c on_break r closed =
      Triple-if (c == 0) _ _ (λ _. Triple-raise err_validation (λ w h. h))
        λ _. lookup_own c r _ _ λ emp rec.
          set_break_refused c emp (Service.break_target on_break) r rec closed
            (target_differs on_break)

  -- A record that is checked out stays as it is under every check-out and break, whoever asks and
  -- whatever other requests that leave the record alone do meanwhile: a check-out that succeeds returns
  -- it, and no break starts or ends on it.
  pub checked_out-IsFinal :
      (inp : CheckOutInput) (on_break : Bool) (r : Record)
      → str_eq r.status "checked_out" ≡ true
      → Triple
          (Holds (IsStored inp.client_id r))
          (Service.check_out employees u inp)
          (λ x w. Holds (IsStored inp.client_id r) w × (x ≡ r))
          (λ e. Holds (IsStored inp.client_id r))
        × Triple
            (Holds (IsStored inp.client_id r))
            (Service.set_break employees u inp.client_id on_break)
            (λ x w. ⊥)
            (λ e. Holds (IsStored inp.client_id r))
  checked_out-IsFinal inp on_break r closed =
      (check_out-closed inp r closed, set_break-closed inp.client_id on_break r closed)
