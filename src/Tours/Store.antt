-- ===== src/Tours/Store.antt =====
-- tours/store.go: the statements with their errors mapped to the package's sentinels, and the conversions
-- to int32.
use opero.Prelude.{
  ℕ, ◌-◌, ◌%◌, String, Bool, Option, none, some, List, [], ◌==◌, ltb, coalesce, str_eq,
  if◌then◌else◌,
}
use opero.Prelude.Int.{ℤ, pos, negsuc}
use opero.Effects.{Answer, rows, no_rows, sql_error, broken, Result, ok, err, query}
use opero.Effects.Error.{tours, validation, not_found, internal}
use opero.Tenant.{Call}
use opero.Tours.Types.{Tour, CreateInput, UpdateInput, Filter}
use opero.Tours.Queries
use opero.Tours.Queries.{CreateTourParams, UpdateTourParams}

-- `int32(v)` keeps the lowest 32 bits of the number, in two's complement.
unfoldable pub i32 : ℤ → ℤ
i32 (pos n) = let m = n % 0x100000000 in if ltb m 0x80000000 then pos m else negsuc (0xffffffff - m)
i32 (negsuc n) =
    let m = n % 0x100000000 in if ltb m 0x80000000 then negsuc m else pos (0xffffffff - m)

unfoldable pub i32p : Option ℤ → Option ℤ
unfolding i32
i32p none = none
i32p (some v) = some (i32 v)

-- `mapErr`, on the answers that are errors.
unfoldable pub map_err {ℓ} : {A : Type ℓ} → Answer A → Result A
map_err (rows a) = ok a
map_err no_rows = err (not_found tours)
map_err (sql_error code) = if str_eq code "23514" then err (validation tours) else err internal
map_err broken = err internal

-- A deletion of no row is not found.
unfoldable pub some_deleted : Answer ℕ → Result (Unit {0})
unfolding map_err
some_deleted (rows n) = if n == 0 then err (not_found tours) else ok tt
some_deleted no_rows = err (not_found tours)
some_deleted (sql_error code) = map_err (sql_error code)
some_deleted broken = map_err broken

abbrev pub create_params : CreateInput → CreateTourParams
create_params inp = record {
  name = inp.name;
  category = inp.category;
  meeting_point = inp.meeting_point;
  duration_min = i32 inp.duration_min;
  max_guests = i32 inp.max_guests;
  guides_needed = i32 inp.guides_needed;
  drivers_needed = i32 inp.drivers_needed;
  departure_times = coalesce inp.departure_times [];
  price_cents = i32 inp.price_cents;
  rating = inp.rating;
  active = inp.active;
  color = inp.color;
  description = inp.description;
}

unfoldable pub create : (ℕ → Bool) → CreateInput → Call Tour
unfolding map_err i32
create rated inp = query map_err (Queries.create_tour rated (create_params inp))

unfoldable pub get : ℕ → Call Tour
unfolding map_err
get i = query map_err (Queries.get_tour i)

unfoldable pub list : (String → String → Bool) → Filter → Call (List Tour)
unfolding map_err
list collates f = query map_err (Queries.list_tours collates f)

abbrev pub update_params : UpdateInput → UpdateTourParams
update_params inp = record {
  name = inp.name;
  category = inp.category;
  meeting_point = inp.meeting_point;
  duration_min = i32p inp.duration_min;
  max_guests = i32p inp.max_guests;
  guides_needed = i32p inp.guides_needed;
  drivers_needed = i32p inp.drivers_needed;
  departure_times = inp.departure_times;
  price_cents = i32p inp.price_cents;
  rating = inp.rating;
  active = inp.active;
  color = inp.color;
  description = inp.description;
}

unfoldable pub update : (ℕ → Bool) → ℕ → UpdateInput → Call Tour
unfolding map_err i32p
update rated i inp = query map_err (Queries.update_tour rated i (update_params inp))

unfoldable pub delete : ℕ → Call Unit
unfolding some_deleted
delete i = query some_deleted (Queries.delete_tour i)
