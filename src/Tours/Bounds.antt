-- ===== src/Tours/Bounds.antt =====
-- The numbers of a tour (tours/store.go, i32 and Create).
use opero.Prelude.{
  ℕ, ◌-◌, ◌%◌, ◌<◌, ◌≡◌, refl, Bool, true, false, not, List, ◌∷◌, arith, inl, inr, Bool-cases,
  any_row, if◌then◌else◌, is_blank,
}
use opero.Prelude.Int.{ℤ, pos, negsuc, pos_part}
use opero.Effects.{Result, ok, err, World, Turn, quiet, raise, exec, query, tenant_store, ◌>>=◌}
use opero.Effects.Error.{tours, validation}
use opero.Tenant.{TenantDb, Call}
use opero.Tours.Types.{Tour, CreateInput, valid_category}
use opero.Tours.Queries.{CreateTourParams, create_allowed, new_tour, tour_by_id, not_negative}
use opero.Tours.Queries
use opero.Tours.Store
use opero.Tours.Service

-- The number that an input keeps of its lowest 32 bits.
abbrev pub low_bits : ℤ → ℕ
low_bits (pos n) = n % 0x100000000
low_bits (negsuc n) = 0xffffffff - n % 0x100000000

i32-bounds :
    (v : ℤ)
    → not_negative (Store.i32 v) ≡ true
    → (pos_part (Store.i32 v) < 0x80000000) × (pos_part (Store.i32 v) ≡ low_bits v)
unfolding Store.i32
i32-bounds (pos n) h = ground arith
i32-bounds (negsuc n) h = ground arith

-- The number of a stored tour against that of the input.
abbrev pub Fits : ℕ → ℤ → Type 0
Fits stored given = (stored < 0x80000000) × (stored ≡ low_bits given)

abbrev pub AllFit : Tour → CreateInput → Type 0
AllFit tour inp =
    Fits tour.duration_min inp.duration_min
    × Fits tour.max_guests inp.max_guests
    × Fits tour.guides_needed inp.guides_needed
    × Fits tour.drivers_needed inp.drivers_needed
    × Fits tour.price_cents inp.price_cents

new_tour-Fits :
    (rated : ℕ → Bool) (inp : CreateInput) (now fresh : ℕ)
    → create_allowed rated (Store.create_params inp) ≡ true
    → AllFit (new_tour now fresh (Store.create_params inp)) inp
new_tour-Fits rated inp now fresh h = (
  i32-bounds inp.duration_min (ground (arith, h)),
  i32-bounds inp.max_guests (ground (arith, h)),
  i32-bounds inp.guides_needed (ground (arith, h)),
  i32-bounds inp.drivers_needed (ground (arith, h)),
  i32-bounds inp.price_cents (ground (arith, h)),
)

module _ (rated : ℕ → Bool) (inp : CreateInput) (db : TenantDb) (t k : ℕ)
    (rest : List (Turn TenantDb)) where
  abbrev pub Stored : Result Tour × World TenantDb → Type 0
  Stored (ok tour, w) = AllFit tour inp × (w.db ≡ record db { tours = tour ∷ db.tours })
  Stored (err e, w) = w.db ≡ db

  abbrev pub start : World TenantDb
  start = record { pool = true; db = db; turns = quiet t k ∷ rest }

  guarded :
      (test : Bool) (m : Call Tour)
      → Stored (m start)
      → Stored ((if test then raise (validation tours) else m) start)
  unfolding raise
  guarded true m h = refl
  guarded false m h = h

  inserted : Stored (Store.create rated inp start)
  unfolding Store.create Store.map_err Queries.create_tour query exec
  inserted = elim (Bool-cases (create_allowed rated (Store.create_params inp))) [
    | inr barred ↦ rw barred refl
    | inl allowed ↦ elim (Bool-cases (any_row (tour_by_id k) db.tours)) [
      | inl taken ↦ rw (allowed, taken) refl
      | inr free ↦ rw (allowed, free) (new_tour-Fits rated inp t k allowed, refl)
    ]
  ]

  -- Create, with no other request before its statement, stores the tour that it returns, each of whose
  -- five numbers is below 2^31 and has the lowest 32 bits of the input's number, which may be a larger
  -- one; or it returns an error and leaves the database as it was.
  pub create-KeepsLowBits : Stored (Service.create rated inp start)
  unfolding Service.create tenant_store ◌>>=◌
  create-KeepsLowBits =
      guarded (is_blank inp.name) _ (guarded (not (valid_category inp.category)) _ inserted)
