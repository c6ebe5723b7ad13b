-- ===== src/Roster/Success.antt =====
-- The life of a shift in a database that answers (roster/service.go): created as a draft, changed,
-- published.
use opero.Prelude.{
  ℕ, Bool, ◌≡◌, ◌≢◌, ◌==◌, ◌&&◌, not, refl, true, false, Option, none, some, coalesce, List, ◌∷◌,
  arith, ltb, any_row, find_row, find_row-none, find_row-update,
}
use opero.Prelude.Calendar.{to_micros, to_micros_if_given, to_micros-reflects}
use opero.Effects.{
  ok, err, World, Turn, quiet, pure, raise, attempt, tenant_store, exec, query, ◌>>=◌,
}
use opero.Effects.Error.{roster, not_found}
use opero.Tenant.{TenantDb}
use opero.Roster.Types.{Shift, CreateShiftInput, UpdateShiftInput}
use opero.Roster.Queries.{shift_by_id, new_shift, published, updated_shift, keys_exist}
use opero.Roster.Queries
use opero.Roster.Store
use opero.Roster.Service
use opero.Roster.Service.{err_validation, misordered}

abbrev one_turn : TenantDb → ℕ → ℕ → List (Turn TenantDb) → World TenantDb
one_turn db t k rest = record { pool = true; db = db; turns = quiet t k ∷ rest }

abbrev pub IsStored : ℕ → Shift → TenantDb → Type 0
IsStored i s db = find_row (shift_by_id i) db.shifts ≡ some s

-- The input that CreateShift stores: it names an employee and a start, the whole microseconds of its
-- bounds are in order, and the rows that it names are there.
abbrev pub may_be_stored : TenantDb → CreateShiftInput → Bool
may_be_stored db inp =
    not (inp.employee_id == 0)
    && not (inp.starts_at == 0)
    && ltb (to_micros inp.starts_at) (to_micros inp.ends_at)
    && keys_exist db (some inp.employee_id) inp.location_id inp.tour_id

-- A change whose resulting shift is in order does not give its bounds out of order.
ordered-NotMisordered :
    (starts ends : Option ℕ) (a b : ℕ)
    → ltb (coalesce (to_micros_if_given starts) a) (coalesce (to_micros_if_given ends) b) ≡ true
    → misordered starts ends ≡ false
ordered-NotMisordered none ends a b h = refl
ordered-NotMisordered (some s) none a b h = refl
ordered-NotMisordered (some s) (some e) a b h = ground (arith, to_micros-reflects s e h)

module _ (db : TenantDb) (rest : List (Turn TenantDb)) (t k : ℕ) where
  -- With an unused key and no other request meanwhile: an input that names an employee and a start,
  -- whose bounds are in order in whole microseconds and whose rows are there is stored as a draft.
  -- GetShift then returns what CreateShift returned, the resolver that attendance asks reports it as a
  -- draft of its employee, and every other shift is found as before. Any other input is refused as
  -- invalid and nothing is written.
  pub create_shift-get_shift :
      (inp : CreateShiftInput) (t' k' : ℕ)
      → any_row (shift_by_id k) db.shifts ≡ false
      → let (r, w) =
          Service.create_shift inp
            (record { pool = true; db = db; turns = quiet t k ∷ quiet t' k' ∷ rest }) in
        (may_be_stored db inp ≡ true
          → (s : Shift) × (r ≡ ok s)
            × ((Service.get_shift s.id w).0 ≡ ok s)
            × (s ≡ new_shift t k inp "draft")
            × ((Service.shift_owner_by_id s.id w).0 ≡ ok (some (inp.employee_id, "draft")))
            × ((j : ℕ)
                → j ≢ s.id
                → find_row (shift_by_id j) w.db.shifts ≡ find_row (shift_by_id j) db.shifts))
        × (may_be_stored db inp ≡ false → (r ≡ err err_validation) × (w.db ≡ db))
  unfolding Service.create_shift Service.get_shift Service.shift_owner_by_id Service.report_owner
      Store.create_shift Store.get_shift Queries.create_shift Queries.get_shift
      Queries.status_allowed Store.map_err query exec attempt ◌>>=◌ pure raise tenant_store find_row
  create_shift-get_shift inp t' k' fresh = (
    λ yes.
        let before = to_micros-reflects inp.starts_at inp.ends_at in
        (
          new_shift t k inp "draft",
          ground (arith, yes, fresh, before),
          ground (arith, yes, fresh, before),
          refl,
          ground (arith, yes, fresh, before),
          λ j other. ground (arith, yes, fresh, before, other),
        ),
    λ no. (ground (arith, no, fresh), ground (arith, no, fresh)),
  )

  -- Publishing a stored shift returns it as published, and from then on the resolver that attendance
  -- asks names its employee and reports it as published. A shift that is not there is not found.
  pub publish_shift-IsSeen :
      (i t' k' : ℕ)
      → let (r, w) =
          Service.publish_shift i
            (record { pool = true; db = db; turns = quiet t k ∷ quiet t' k' ∷ rest }) in
        ((s : Shift)
          → IsStored i s db
          → (r ≡ ok (published t s))
            × ((Service.shift_owner_by_id i w).0 ≡ ok (some (s.employee_id, "published"))))
        × (any_row (shift_by_id i) db.shifts ≡ false
            → (r ≡ err (not_found roster)) × ((Service.shift_owner_by_id i w).0 ≡ ok none))
  unfolding Service.publish_shift Service.shift_owner_by_id Service.report_owner Store.publish_shift
      Store.get_shift Queries.publish_shift Queries.get_shift Store.map_err query exec attempt ◌>>=◌
      pure raise tenant_store
  publish_shift-IsSeen i t' k' = (
    λ s h.
        let after = find_row-update (shift_by_id i) (published t) (λ x. refl) db.shifts {x = s} h in
        (ground (arith, h), ground (arith, h, after)),
    λ h.
        let gone = find_row-none (shift_by_id i) db.shifts h in
        (ground (arith, gone), ground (arith, gone)),
  )

  -- With no other request meanwhile, a change of a stored shift, to keys that exist, is judged by
  -- the shift that it makes, with the given bounds cut to whole microseconds: if that one ends
  -- after it starts it is stored and returned, and otherwise the change is refused as invalid and
  -- nothing is written, whether the change gives both bounds or one of them.
  pub update_shift-IsOrdered :
      (i : ℕ) (upd : UpdateShiftInput) (s : Shift)
      → IsStored i s db
      → keys_exist db upd.employee_id upd.location_id upd.tour_id ≡ true
      → let s' = updated_shift upd t s in
        let (r, w) = Service.update_shift i upd (one_turn db t k rest) in
        (ltb s'.starts_at s'.ends_at ≡ true → (r ≡ ok s') × IsStored i s' w.db)
        × (ltb s'.starts_at s'.ends_at ≡ false → (r ≡ err err_validation) × (w.db ≡ db))
  unfolding Service.update_shift Store.update_shift Queries.update_shift Store.map_err query exec
      ◌>>=◌ pure raise tenant_store
  update_shift-IsOrdered i upd s h keys = (
    λ o.
        let sent = ordered-NotMisordered upd.starts_at upd.ends_at s.starts_at s.ends_at o in
        (
          ground (arith, h, o, sent),
          ground (
            arith,
            h,
            o,
            sent,
            find_row-update (shift_by_id i) (λ x. record (updated_shift upd t s) { id = x.id })
                (λ x. refl) db.shifts {x = s} h,
          ),
        ),
    λ o. (ground (arith, h, o), ground (arith, h, o)),
  )
