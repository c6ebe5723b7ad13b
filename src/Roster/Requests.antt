-- ===== src/Roster/Requests.antt =====
-- The requests of roster/service.go keep the invariant, whatever other requests commit between their
-- statements and wherever the connection fails.
use opero.Prelude.{ℕ, String}
use opero.Effects.{Result, ok, err}
use opero.Effects.Keeps.{Keeps, Keeps-query, keeps_rules}
use opero.Tenant.{TenantDb}
use opero.Resolvers.{ShiftResolverReads}
use opero.Roster.Types.{Shift, CreateShiftInput, UpdateShiftInput}
use opero.Roster.Invariant
use opero.Roster.Invariant.{Inv}
use opero.Roster.Queries
use opero.Roster.Store
use opero.Roster.Service

create-Inv : (inp : CreateShiftInput) (status : String) → Keeps Inv (Store.create_shift inp status)
unfolding Store.create_shift
create-Inv inp status = Keeps-query _ _ (Invariant.create_shift-Inv inp status)

update-Inv : (i : ℕ) (inp : UpdateShiftInput) → Keeps Inv (Store.update_shift i inp)
unfolding Store.update_shift
update-Inv i inp = Keeps-query _ _ (Invariant.update_shift-Inv i inp)

publish-Inv : (i : ℕ) → Keeps Inv (Store.publish_shift i)
unfolding Store.publish_shift
publish-Inv i = Keeps-query _ _ (Invariant.publish_shift-Inv i)

delete-Inv : (i : ℕ) → Keeps Inv (Store.delete_shift i)
unfolding Store.delete_shift Queries.delete_shift
delete-Inv i = Keeps-query _ _ (Invariant.delete_shifts-Inv _)

delete_by_note-Inv : (note : String) → Keeps Inv (Store.delete_shifts_by_note note)
unfolding Store.delete_shifts_by_note Queries.delete_shifts_by_note
delete_by_note-Inv note = Keeps-query _ _ (Invariant.delete_shifts-Inv _)

delete_place-Inv : (i : ℕ) → Keeps Inv (Store.delete_location i)
unfolding Store.delete_location
delete_place-Inv i = Keeps-query _ _ (Invariant.delete_location-Inv i)

ruleset store_keeps = (
  keeps_rules, create-Inv, update-Inv, publish-Inv, delete-Inv, delete_by_note-Inv,
  delete_place-Inv,
)

-- Each request of the roster that writes shifts, and the deletion of a location, keeps the invariant:
-- every shift ends after it starts, has a status of the two, and an id of its own. It does so under any
-- interleaving with requests that keep it.
pub roster_writes-Inv :
    (i : ℕ) (inp : CreateShiftInput) (upd : UpdateShiftInput) (note : String)
    → Keeps Inv (Service.create_shift inp)
      × Keeps Inv (Service.create_published_shift inp)
      × Keeps Inv (Service.update_shift i upd)
      × Keeps Inv (Service.publish_shift i)
      × Keeps Inv (Service.delete_shift i)
      × Keeps Inv (Service.delete_shifts_by_note note)
      × Keeps Inv (Service.delete_location i)
unfolding Service.create_shift Service.create_published_shift Service.update_shift
    Service.publish_shift Service.delete_shift Service.delete_shifts_by_note Service.delete_location
roster_writes-Inv i inp upd note = (
  search store_keeps depth 12,
  search store_keeps depth 12,
  search store_keeps depth 12,
  search store_keeps depth 12,
  search store_keeps depth 12,
  search store_keeps depth 12,
  search store_keeps depth 12,
)

get-Keeps : (P : TenantDb → Type 0) (i : ℕ) → Keeps P (Store.get_shift i)
unfolding Store.get_shift Queries.get_shift
get-Keeps P i = Keeps-query _ _ (λ now fresh db v. v)

report_owner-Keeps : (P : TenantDb → Type 0) (r : Result Shift) → Keeps P (Service.report_owner r)
unfolding Service.report_owner
report_owner-Keeps P (ok s) = search keeps_rules
report_owner-Keeps P (err e) = search keeps_rules

-- The shift resolver that attendance takes only reads.
pub shift_resolver-Reads : ShiftResolverReads Service.shift_resolver
unfolding Service.shift_owner_by_id
shift_resolver-Reads = record {
  keeps = λ P i. search (keeps_rules, get-Keeps P, report_owner-Keeps P) depth 8;
}
