-- ===== src/Examples/Leave.antt =====
-- Runs of the theorems on leave.
use opero.Prelude.{String, ◌≡◌, refl, Bool, true, false, none, some, List, [], ◌∷◌, ◌+◌}
use opero.Effects.{Result, ok, err, World, Turn, quiet}
use opero.Effects.Keeps.{Keeps}
use opero.Tenant.{TenantDb}
use opero.Identity.Service.{employee_resolver}
use opero.Identity.Reads.{employee_resolver-Reads}
use opero.Leave.Types.{Request}
use opero.Leave.Queries.{reviewed}
use opero.Leave.Queries
use opero.Leave.Service
use opero.Leave.Invariant.{Inv}
use opero.Leave.Requests.{leave_writes-Inv}
use opero.Leave.Decisions.{IsStored, Confirms, decided-IsFinal}
use opero.Leave.Success.{approve-overturns}
use opero.Leave.Balances.{used_in, approval-spends}
use opero.Examples.Data

leave_writes-Inv_example :
    Keeps Inv (Service.create_my_leave employee_resolver 3 Data.a_leave)
    × Keeps Inv (Service.approve 31 9)
    × Keeps Inv (Service.reject 31 9)
leave_writes-Inv_example =
    leave_writes-Inv employee_resolver employee_resolver-Reads 3 31 9 Data.a_leave

abbrev rejected_leave : Request
rejected_leave = reviewed "rejected" (some 9) 50 Data.pending_leave

decided-IsFinal_example :
    Confirms 31 rejected_leave "approved" (Service.approve 31 9)
    × Confirms 31 rejected_leave "rejected" (Service.reject 31 9)
decided-IsFinal_example = decided-IsFinal 31 rejected_leave refl 9

abbrev decided : String → Result Request × World TenantDb
decided target = (
  ok (reviewed target (some 9) 61 Data.pending_leave),
  record {
    pool = true;
    db = record Data.tenant {
      leave_requests = reviewed target (some 9) 61 Data.pending_leave ∷ [];
    };
    turns = [];
  },
)

abbrev two_turns : World TenantDb
two_turns = record { pool = true; db = Data.tenant; turns = quiet 60 0 ∷ quiet 61 0 ∷ [] }

approve-overturns_example :
    let rejected = λ (d : TenantDb). (Queries.set_leave_status 31 "rejected" (some 8) 55 0 d).1 in
    let w = Service.approve 31 9 (record {
      pool = true;
      db = Data.tenant;
      turns = quiet 50 0 ∷ record (quiet 61 0) { rival = rejected } ∷ [];
    }) in
    let final = reviewed "approved" (some 9) 61 Data.pending_leave in
    IsStored 31 (reviewed "rejected" (some 8) 55 Data.pending_leave) (rejected Data.tenant)
    × (w.0 ≡ ok final)
    × IsStored 31 final w.1.db
unfolding opero.Prelude.find_row
approve-overturns_example =
    approve-overturns Data.tenant [] 31 9 50 0 61 0 Data.pending_leave refl refl 8 55 0

approval-spends_example :
    let (_, after) = Queries.set_leave_status 31 "approved" (some 9) 61 0 Data.tenant in
    used_in after 7 2 ≡ used_in Data.tenant 7 2 + 5
unfolding opero.Prelude.any_row opero.Prelude.find_row opero.Prelude.Calendar.year_start
    opero.Prelude.Calendar.year_end
approval-spends_example =
    approval-spends Data.tenant 31 9 61 0 2 Data.pending_leave (refl, tt) refl refl refl refl
