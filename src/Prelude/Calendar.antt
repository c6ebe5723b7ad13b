-- ===== src/Prelude/Calendar.antt =====
-- The Gregorian calendar of Go's `time` in UTC. An instant is nanoseconds since Go's zero time,
-- 1 January of year 1; a day is a number of days since then.
use Prim.Native.Nat.{ℕ, zero, suc, ◌+◌, ◌-◌, ◌*◌, ◌/◌, ◌≤◌, ◌<◌}
use mathlib.Core.Path.{◌≡◌, refl}
use mathlib.Core.Logic.{inl, inr}
use mathlib.Core.Bool.{true}
use mathlib.Core.Option.{Option, none, some}
use native.Mathlib.Omega.{arith}
use opero.Prelude.Tests.{ltb, if◌then◌else◌, Bool-cases}

abbrev pub second : ℕ
second = 1_000_000_000

abbrev pub minute : ℕ
minute = 60_000_000_000

abbrev pub hour : ℕ
hour = 3_600_000_000_000

abbrev pub day : ℕ
day = 86_400_000_000_000

-- What pgx sends of an instant and a timestamptz column keeps: its whole microseconds.
unfoldable pub to_micros : ℕ → ℕ
to_micros t = t / 1_000 * 1_000

abbrev pub to_micros_if_given : Option ℕ → Option ℕ
to_micros_if_given none = none
to_micros_if_given (some t) = some (to_micros t)

-- Instants whose microseconds are in order are in order.
pub to_micros-reflects : (a b : ℕ) → ltb (to_micros a) (to_micros b) ≡ true → ltb a b ≡ true
unfolding to_micros
to_micros-reflects a b h = ground arith

unfoldable pub day_of : ℕ → ℕ
day_of t = t / day

-- `time.Date(y, time.January, 1, …)`.
unfoldable pub year_start : ℕ → ℕ
year_start y = 365 * (y - 1) + (y - 1) / 4 + (y - 1) / 400 - (y - 1) / 100

-- `time.Date(y, time.December, 31, …)`.
unfoldable pub year_end : ℕ → ℕ
unfolding year_start
year_end y = year_start (y + 1) - 1

-- The year of a day, counting up from `y`.
unfoldable pub year_from : ℕ → ℕ → ℕ → ℕ
unfolding year_start
year_from zero y d = y
year_from (suc f) y d =
    let later = year_from f (y + 1) d in if ltb d (year_start (y + 1)) then y else later

-- `Year()`: a year has at least 365 days, so that many years are enough.
unfoldable pub year_of : ℕ → ℕ
unfolding year_from
year_of d = year_from (d / 365 + 1) 1 d

pub year_start-le : (y : ℕ) → 1 ≤ y → year_start y + 365 ≤ year_start (y + 1)
unfolding year_start
year_start-le y h = omega arith

year_from-bounds :
    (f y d : ℕ)
    → 1 ≤ y
    → year_start y ≤ d
    → d < year_start y + 365 * f
    → (year_start (year_from f y d) ≤ d) × (d < year_start (year_from f y d + 1))
unfolding year_from
year_from-bounds zero y d p h l = absurd (omega arith)
year_from-bounds (suc f) y d p h l = elim (Bool-cases (ltb d (year_start (y + 1)))) [
  | inl before ↦ rw before (h, ground arith)
  | inr after ↦
      rw after (
        year_from-bounds f (y + 1) d (omega arith) (ground arith)
          (omega (arith, year_start-le y p)))
]

-- The year of a day is the one that the day lies in.
pub year_of-bounds : (d : ℕ) → (year_start (year_of d) ≤ d) × (d ≤ year_end (year_of d))
unfolding year_of year_end
year_of-bounds d =
    let bounds =
      year_from-bounds (d / 365 + 1) 1 d (omega arith) (unfold year_start in omega arith)
        (unfold year_start in omega arith) in
    (bounds.0, omega (arith, bounds))

-- 27 July 2026.
a_day : year_of 739_823 ≡ 2026
unfolding year_of
a_day = refl
