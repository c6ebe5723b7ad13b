-- ===== src/Tours/Types.antt =====
-- tours/types.go. `rating` is the bit pattern of a float64. The int fields of a stored tour are not
-- negative, those of an input may be. A nil slice of an input is `none`.
use opero.Prelude.{ℕ, String, Option, Bool, ◌||◌, List, str_eq}
use opero.Prelude.Int.{ℤ}

pub record Tour : Type 0 where
  pub id : ℕ
  pub name : String
  pub category : String
  pub meeting_point : Option String
  pub duration_min : ℕ
  pub max_guests : ℕ
  pub guides_needed : ℕ
  pub drivers_needed : ℕ
  pub departure_times : List String
  pub price_cents : ℕ
  pub rating : Option ℕ
  pub active : Bool
  pub color : Option String
  pub description : Option String
  pub created_at : ℕ
  pub updated_at : ℕ

pub record CreateInput : Type 0 where
  pub name : String
  pub category : String
  pub meeting_point : Option String
  pub duration_min : ℤ
  pub max_guests : ℤ
  pub guides_needed : ℤ
  pub drivers_needed : ℤ
  pub departure_times : Option (List String)
  pub price_cents : ℤ
  pub rating : Option ℕ
  pub active : Bool
  pub color : Option String
  pub description : Option String

pub record UpdateInput : Type 0 where
  pub name : Option String
  pub category : Option String
  pub meeting_point : Option String
  pub duration_min : Option ℤ
  pub max_guests : Option ℤ
  pub guides_needed : Option ℤ
  pub drivers_needed : Option ℤ
  pub departure_times : Option (List String)
  pub price_cents : Option ℤ
  pub rating : Option ℕ
  pub active : Option Bool
  pub color : Option String
  pub description : Option String

pub record Filter : Type 0 where
  pub category : Option String
  pub active : Option Bool

-- `ValidCategory`, which looks in `validCategories`.
unfoldable pub valid_category : String → Bool
valid_category c =
    str_eq c "walking"
    || str_eq c "day_trip"
    || str_eq c "food"
    || str_eq c "driving"
    || str_eq c "evening"
