-- ===== src/Roster/Invariant.antt =====
-- What holds of shifts between requests.
use opero.Prelude.{
  ℕ, String, ◌≡◌, refl, Bool, true, false, List, ◌∷◌, arith, ltb, if◌then◌else◌, All, All-update,
  All-delete, All-find, KeysDistinct, KeysDistinct-update, KeysDistinct-delete, any_row, find_row,
  update_rows, Bool-cases, Option-cases, inl, inr,
}
use opero.Prelude.Calendar.{to_micros}
use opero.Effects.Keeps.{KeepsQuery}
use opero.Tenant.{TenantDb}
use opero.Roster.Types.{Shift, CreateShiftInput, UpdateShiftInput}
use opero.Roster.Queries.{
  status_allowed, new_shift, shift_by_id, updated_shift, try_update, keys_exist, published,
  refers_to, location_by_id, without_location,
}
use opero.Roster.Queries

-- A shift ends after it starts, and is a draft or published.
pub record IsShift (s : Shift) : Type 0 where
  pub in_order : ltb s.starts_at s.ends_at ≡ true
  pub allowed : status_allowed s.status ≡ true

pub record Inv (db : TenantDb) : Type 0 where
  pub each : All IsShift db.shifts
  pub ids : KeysDistinct (λ s. s.id) db.shifts

add-Inv :
    (s : Shift) (db : TenantDb)
    → IsShift s
    → any_row (shift_by_id s.id) db.shifts ≡ false
    → Inv db
    → Inv (record db { shifts = s ∷ db.shifts })
add-Inv s db c fresh v = record { each = (c, v.each); ids = (fresh, v.ids) }

new-Inv :
    (now fresh : ℕ) (inp : CreateShiftInput) (status : String) (db : TenantDb)
    → status_allowed status ≡ true
    → ltb (to_micros inp.starts_at) (to_micros inp.ends_at) ≡ true
    → any_row (shift_by_id fresh) db.shifts ≡ false
    → Inv db
    → Inv (record db { shifts = new_shift now fresh inp status ∷ db.shifts })
new-Inv now fresh inp status db a o =
    add-Inv (new_shift now fresh inp status) db (record { in_order = o; allowed = a })

pub create_shift-Inv :
    (inp : CreateShiftInput) (status : String) → KeepsQuery Inv (Queries.create_shift inp status)
unfolding Queries.create_shift
create_shift-Inv inp status now fresh db v = ground (arith, new-Inv now fresh inp status db)

update-Inv :
    (i : ℕ) (f : Shift → Shift) (db : TenantDb)
    → ((s : Shift) → IsShift s → IsShift (f s))
    → ((s : Shift) → (f s).id ≡ s.id)
    → Inv db
    → Inv (record db { shifts = update_rows (shift_by_id i) f db.shifts })
update-Inv i f db c same v = record {
  each = All-update IsShift _ _ (λ s _. c s) db.shifts v.each;
  ids = KeysDistinct-update _ _ _ same db.shifts v.ids;
}

pub publish_shift-Inv : (i : ℕ) → KeepsQuery Inv (Queries.publish_shift i)
unfolding Queries.publish_shift status_allowed
publish_shift-Inv i now fresh db v = elim (Option-cases (find_row (shift_by_id i) db.shifts)) [
  | inl e ↦ rw (e, Queries.publish_shift) v
  | inr (s, e) ↦
      rw (e, Queries.publish_shift)
        (update-Inv i (published now) db (λ s c. record { in_order = c.in_order; allowed = refl })
          (λ s. refl) v)
]

replaced-IsShift :
    (now : ℕ) (inp : UpdateShiftInput) (s x : Shift)
    → IsShift s
    → ltb (updated_shift inp now s).starts_at (updated_shift inp now s).ends_at ≡ true
    → IsShift (record (updated_shift inp now s) { id = x.id })
replaced-IsShift now inp s x c o = record { in_order = o; allowed = c.allowed }

try_update-Inv :
    (i now : ℕ) (inp : UpdateShiftInput) (s : Shift) (db : TenantDb)
    → IsShift s
    → Inv db
    → Inv (try_update i s now inp db).1
try_update-Inv i now inp s db c v =
    elim (Bool-cases (ltb (updated_shift inp now s).starts_at (updated_shift inp now s).ends_at)) [
      | inl o ↦ elim (Bool-cases (keys_exist db inp.employee_id inp.location_id inp.tour_id)) [
        | inl k ↦
            rw (o, k, try_update)
              (update-Inv i _ db (λ x _. replaced-IsShift now inp s x c o) (λ x. refl) v)
        | inr k ↦ rw (o, k, try_update) v
      ]
      | inr o ↦ rw (o, try_update) v
    ]

pub update_shift-Inv :
    (i : ℕ) (inp : UpdateShiftInput) → KeepsQuery Inv (Queries.update_shift i inp)
unfolding Queries.update_shift
update_shift-Inv i inp now fresh db v = elim (Option-cases (find_row (shift_by_id i) db.shifts)) [
  | inl e ↦ rw (e, Queries.update_shift) v
  | inr (s, e) ↦
      rw (e, Queries.update_shift)
        (try_update-Inv i now inp s db (All-find IsShift _ db.shifts v.each e) v)
]

pub delete_shifts-Inv : (p : Shift → Bool) → KeepsQuery Inv (Queries.delete_shifts p)
unfolding Queries.delete_shifts
delete_shifts-Inv p now fresh db v = record {
  each = All-delete IsShift p db.shifts v.each;
  ids = KeysDistinct-delete _ p db.shifts v.ids;
}

unlink-Inv :
    (b : Bool) (p : Shift → Bool) (now : ℕ) (xs : List Shift)
    → All IsShift xs
    → KeysDistinct (λ s. s.id) xs
    → let ys = if b then update_rows p (without_location now) xs else xs in
      All IsShift ys × KeysDistinct (λ s. s.id) ys
unlink-Inv true p now xs a d = (
  All-update IsShift _ _ (λ s _ c. record { in_order = c.in_order; allowed = c.allowed }) xs a,
  KeysDistinct-update _ _ _ (λ s. refl) xs d,
)
unlink-Inv false p now xs a d = (a, d)

pub delete_location-Inv : (i : ℕ) → KeepsQuery Inv (Queries.delete_location i)
unfolding Queries.delete_location
delete_location-Inv i now fresh db v =
    let (a, d) =
      unlink-Inv (any_row (location_by_id i) db.locations) (λ s. refers_to i s.location_id) now
        db.shifts v.each v.ids in
    record { each = a; ids = d }
