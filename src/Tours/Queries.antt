-- ===== src/Tours/Queries.antt =====
-- gen/sqlc/tours/tours.sql.go: the statements on tours, with the table's constraints. The columns of type
-- integer hold int32 values. `rated` is the database's test of a float64, between 0 and 5.
use opero.Prelude.{
  ℕ, String, Bool, true, false, not, ◌&&◌, ◌||◌, Option, none, some, List, ◌∷◌, ◌==◌, any_row,
  find_row, select_rows, update_rows, delete_rows, count_rows, sort_by, coalesce, coalesce_null,
  holds_if_given, str_eq, if◌then◌else◌,
}
use opero.Prelude.Int.{ℤ, pos, negsuc, pos_part}
use opero.Effects.{Answer, rows, no_rows, sql_error, one}
use opero.Tenant.{TenantDb, Statement}
use opero.Roster.Types.{Shift}
use opero.Tours.Types.{Tour, Filter}

-- The parameters of CreateTour: int32 where the input has int.
pub record CreateTourParams : Type 0 where
  pub name : String
  pub category : String
  pub meeting_point : Option String
  pub duration_min : ℤ
  pub max_guests : ℤ
  pub guides_needed : ℤ
  pub drivers_needed : ℤ
  pub departure_times : List String
  pub price_cents : ℤ
  pub rating : Option ℕ
  pub active : Bool
  pub color : Option String
  pub description : Option String

pub record UpdateTourParams : Type 0 where
  pub name : Option String
  pub category : Option String
  pub meeting_point : Option String
  pub duration_min : Option ℤ
  pub max_guests : Option ℤ
  pub guides_needed : Option ℤ
  pub drivers_needed : Option ℤ
  pub departure_times : Option (List String)
  pub price_cents : Option ℤ
  pub rating : Option ℕ
  pub active : Option Bool
  pub color : Option String
  pub description : Option String

-- The CHECK constraints.
unfoldable pub category_allowed : String → Bool
category_allowed c =
    str_eq c "walking"
    || str_eq c "day_trip"
    || str_eq c "food"
    || str_eq c "driving"
    || str_eq c "evening"

abbrev pub not_negative : ℤ → Bool
not_negative (pos n) = true
not_negative (negsuc n) = false

abbrev pub tour_by_id : ℕ → Tour → Bool
tour_by_id i t = t.id == i

abbrev pub create_allowed : (ℕ → Bool) → CreateTourParams → Bool
create_allowed rated arg =
    category_allowed arg.category
    && not_negative arg.duration_min
    && not_negative arg.max_guests
    && not_negative arg.guides_needed
    && not_negative arg.drivers_needed
    && not_negative arg.price_cents
    && holds_if_given rated arg.rating

abbrev pub new_tour : ℕ → ℕ → CreateTourParams → Tour
new_tour now fresh arg = record {
  id = fresh;
  name = arg.name;
  category = arg.category;
  meeting_point = arg.meeting_point;
  duration_min = pos_part arg.duration_min;
  max_guests = pos_part arg.max_guests;
  guides_needed = pos_part arg.guides_needed;
  drivers_needed = pos_part arg.drivers_needed;
  departure_times = arg.departure_times;
  price_cents = pos_part arg.price_cents;
  rating = arg.rating;
  active = arg.active;
  color = arg.color;
  description = arg.description;
  created_at = now;
  updated_at = now;
}

unfoldable pub create_tour : (ℕ → Bool) → CreateTourParams → Statement Tour
unfolding category_allowed
create_tour rated arg now fresh db =
    if not (create_allowed rated arg)
    then (sql_error "23514", db)
    else if any_row (tour_by_id fresh) db.tours
    then (sql_error "23505", db)
    else (rows (new_tour now fresh arg), record db { tours = new_tour now fresh arg ∷ db.tours })

unfoldable pub get_tour : ℕ → Statement Tour
get_tour i now fresh db = (one (find_row (tour_by_id i) db.tours), db)

abbrev pub same_flag : Bool → Bool → Bool
same_flag true b = b
same_flag false b = not b

abbrev pub wanted : Filter → Tour → Bool
wanted f t =
    holds_if_given (λ c. str_eq t.category c) f.category
    && holds_if_given (λ a. same_flag t.active a) f.active

-- The order of names is the database's collation.
unfoldable pub list_tours : (String → String → Bool) → Filter → Statement (List Tour)
list_tours collates f now fresh db =
    (rows (sort_by (λ a b. collates a.name b.name) (select_rows (wanted f) db.tours)), db)

abbrev pub updated_tour : ℕ → UpdateTourParams → Tour → Tour
updated_tour now arg t = record t {
  name = coalesce arg.name t.name;
  category = coalesce arg.category t.category;
  meeting_point = coalesce_null arg.meeting_point t.meeting_point;
  duration_min = pos_part (coalesce arg.duration_min (pos t.duration_min));
  max_guests = pos_part (coalesce arg.max_guests (pos t.max_guests));
  guides_needed = pos_part (coalesce arg.guides_needed (pos t.guides_needed));
  drivers_needed = pos_part (coalesce arg.drivers_needed (pos t.drivers_needed));
  departure_times = coalesce arg.departure_times t.departure_times;
  price_cents = pos_part (coalesce arg.price_cents (pos t.price_cents));
  rating = coalesce_null arg.rating t.rating;
  active = coalesce arg.active t.active;
  color = coalesce_null arg.color t.color;
  description = coalesce_null arg.description t.description;
  updated_at = now;
}

abbrev pub update_allowed : (ℕ → Bool) → UpdateTourParams → Bool
update_allowed rated arg =
    holds_if_given category_allowed arg.category
    && holds_if_given not_negative arg.duration_min
    && holds_if_given not_negative arg.max_guests
    && holds_if_given not_negative arg.guides_needed
    && holds_if_given not_negative arg.drivers_needed
    && holds_if_given not_negative arg.price_cents
    && holds_if_given rated arg.rating

-- The columns that keep their value satisfy the constraints already.
abbrev pub update_tour_row :
    (ℕ → Bool) → Option Tour → ℕ → UpdateTourParams → ℕ → TenantDb → Answer Tour × TenantDb
update_tour_row rated none i arg now db = (no_rows, db)
update_tour_row rated (some t) i arg now db =
    if not (update_allowed rated arg) then (sql_error "23514", db) else (
      rows (updated_tour now arg t),
      record db { tours = update_rows (tour_by_id i) (updated_tour now arg) db.tours },
    )

unfoldable pub update_tour : (ℕ → Bool) → ℕ → UpdateTourParams → Statement Tour
unfolding category_allowed
update_tour rated i arg now fresh db =
    update_tour_row rated (find_row (tour_by_id i) db.tours) i arg now db

abbrev pub on_tour : ℕ → Option ℕ → Bool
on_tour i none = false
on_tour i (some t) = t == i

abbrev pub without_tour : ℕ → Shift → Shift
without_tour now s = record s { tour_id = none; updated_at = now }

-- The shifts of the tour keep no tour.
unfoldable pub delete_tour : ℕ → Statement ℕ
delete_tour i now fresh db = (
  rows (count_rows (tour_by_id i) db.tours),
  record db {
    tours = delete_rows (tour_by_id i) db.tours;
    shifts =
        if any_row (tour_by_id i) db.tours
        then update_rows (λ s. on_tour i s.tour_id) (without_tour now) db.shifts
        else db.shifts;
  },
)
