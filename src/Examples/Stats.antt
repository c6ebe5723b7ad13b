-- ===== src/Examples/Stats.antt =====
-- Runs of the theorems on the numbers of an employee.
use opero.Prelude.{ℕ, ◌≡◌, ◌≤◌, ◌<◌, ◌+◌, ◌*◌, ◌%◌, ◌⊎◌, some, none, List, [], ◌∷◌, All}
use opero.Prelude.Calendar.{day}
use opero.Prelude.GoMap.{lookup}
use opero.Attendance.Types.{Record}
use opero.Stats.Service.{weekday, start_of_week, check_in_by_shift}
use opero.Stats.CheckIns.{IsElsewhere, Recorded, NotBefore, check_in_by_shift-IsEarliest}
use opero.Stats.Week.{start_of_week-IsMonday}
use opero.Examples.Data

-- Noon of 27 July 2026, a Monday, and a record of one shift twice.
abbrev noon : ℕ
noon = 739_823 * 86_400_000_000_000 + 43_200_000_000_000

abbrev two_records : List Record
two_records = record Data.open_record { check_in_at = some 90 } ∷ Data.open_record ∷ []

start_of_week-IsMonday_example :
    (weekday (start_of_week noon) ≡ 1)
    × (start_of_week noon % day ≡ 0)
    × (start_of_week noon ≤ noon)
    × (noon < start_of_week noon + 7 * day)
start_of_week-IsMonday_example = start_of_week-IsMonday noon

check_in_by_shift-IsEarliest_example :
    let found = lookup 11 (check_in_by_shift two_records []) in
    (All (λ r. IsElsewhere 11 r.shift_id r.check_in_at) two_records × (found ≡ none))
    ⊎ ((c : ℕ) × (found ≡ some c) × Recorded 11 two_records c × All (NotBefore 11 c) two_records)
check_in_by_shift-IsEarliest_example = check_in_by_shift-IsEarliest 11 two_records
