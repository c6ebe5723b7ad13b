-- ===== src/Stats/Week.antt =====
-- The week of stats/service.go (startOfWeek).
use opero.Prelude.{ℕ, ◌≡◌, ◌≤◌, ◌<◌, ◌+◌, ◌*◌, ◌%◌, arith}
use opero.Prelude.Calendar.{day, day_of}
use opero.Stats.Service.{weekday, start_of_week}

-- The week of an instant starts at midnight of a Monday, and the instant is within seven days of it.
pub start_of_week-IsMonday :
    (now : ℕ)
    → (weekday (start_of_week now) ≡ 1)
      × (start_of_week now % day ≡ 0)
      × (start_of_week now ≤ now)
      × (now < start_of_week now + 7 * day)
unfolding weekday start_of_week day_of
start_of_week-IsMonday now = (omega arith, omega arith, omega arith, omega arith)
