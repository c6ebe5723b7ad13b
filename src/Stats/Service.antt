-- ===== src/Stats/Service.antt =====
-- stats/service.go. The arithmetic of float64 and the first instants of months (Go's time package) are
-- parameters, and so is what the package takes of roster, attendance and identity.
use opero.Prelude.{
  ℕ, Option, none, some, List, [], ◌∷◌, ◌+◌, ◌-◌, ◌*◌, ◌%◌, ◌==◌, ltb, leb, length, if◌then◌else◌,
}
use opero.Prelude.Calendar.{day, day_of}
use opero.Prelude.GoMap.{Index, lookup, index}
use opero.Effects.{pure, ◌>>=◌}
use opero.Tenant.{Call}
use opero.Roster.Types.{Shift, ShiftFilter}
use opero.Attendance.Types.{Record, AttendanceFilter}
use opero.Identity.Types.{Employee}

-- The operations of float64 that the code uses; `minutes` and `hours` are those of time.Duration.
pub record Float64 : Type 1 where
  pub F : Type 0
  pub of_int : ℕ → F
  pub to_int : F → ℕ
  pub half : F
  pub minutes : ℕ → F
  pub hours : ℕ → F
  pub plus : F → F → F
  pub times : F → F → F
  pub over : F → F → F

-- The first instant of the month of an instant, and that of the next month.
pub record Months : Type 0 where
  pub month_start : ℕ → ℕ
  pub month_end : ℕ → ℕ

-- `myShiftLister`, `attendanceLister` and `employeeResolver`.
pub record Modules : Type 0 where
  pub list_my_shifts : ℕ → ShiftFilter → Call (List Shift)
  pub list : AttendanceFilter → Call (List Record)
  pub employee_id_by_user_id : ℕ → Call (Option ℕ)
  pub get_employee : ℕ → Call Employee

pub record MyStats (F : Type 0) : Type 0 where
  pub shifts_this_month : ℕ
  pub hours_this_week : F
  pub on_time_pct : ℕ
  pub tenure_days : Option ℕ

-- `Weekday()`, Sunday first: the day of Go's zero time is a Monday.
unfoldable pub weekday : ℕ → ℕ
unfolding day_of
weekday t = (day_of t + 1) % 7

unfoldable pub start_of_week : ℕ → ℕ
unfolding day_of weekday
start_of_week now = (day_of now - (weekday now + 6) % 7) * day

-- `Sub` of a later and an earlier instant: it stops at the longest Duration.
unfoldable pub sub : ℕ → ℕ → ℕ
sub later earlier =
    if leb (later - earlier) 9_223_372_036_854_775_807
    then later - earlier
    else 9_223_372_036_854_775_807

abbrev pub window : ℕ → ℕ → ShiftFilter
window from to = record { employee_id = none; status = none; from = some from; to = some to }

abbrev pub of_employee : ℕ → AttendanceFilter
of_employee i = record { employee_id = some i; status = none; from = none; to = none }

-- `m[k] = v`: one entry for each key.
unfoldable pub set : ℕ → ℕ → Index ℕ → Index ℕ
set k v [] = (k, v) ∷ []
set k v ((j, a) ∷ m) = let rest = set k v m in if j == k then (k, v) ∷ m else (j, a) ∷ rest

abbrev pub set_if_earlier : ℕ → ℕ → Option ℕ → Index ℕ → Index ℕ
set_if_earlier s c none m = set s c m
set_if_earlier s c (some existing) m = if ltb c existing then set s c m else m

abbrev pub keep_earliest : Option ℕ → Option ℕ → Index ℕ → Index ℕ
keep_earliest (some s) (some c) m = set_if_earlier s c (lookup s m) m
keep_earliest (some s) none m = m
keep_earliest none c m = m

-- `checkInByShift`
unfoldable pub check_in_by_shift : List Record → Index ℕ → Index ℕ
check_in_by_shift [] m = m
check_in_by_shift (r ∷ rs) m = check_in_by_shift rs (keep_earliest r.shift_id r.check_in_at m)

abbrev pub starts_at : Shift → Option (ℕ × ℕ)
starts_at s = some (s.id, s.starts_at)

-- `considered` and `onTime`
abbrev pub tally_one : Option ℕ → ℕ → ℕ × ℕ → ℕ × ℕ
tally_one none c t = t
tally_one (some start) c (considered, on_time) =
    (considered + 1, if leb c start then on_time + 1 else on_time)

unfoldable pub tally : Index ℕ → Index ℕ → ℕ × ℕ
tally starts [] = (0, 0)
tally starts ((s, c) ∷ m) = tally_one (lookup s starts) c (tally starts m)

module _ (float : Float64) where
  open float use {F, of_int, to_int, half, minutes, hours, plus, times, over}

  unfoldable pub round_to1 : F → F
  round_to1 v = over (of_int (to_int (plus (times v (of_int 10)) half))) (of_int 10)

  abbrev pub add_pair : ℕ → Option ℕ → Option ℕ → F → F
  add_pair week none out sum = sum
  add_pair week (some ci) none sum = sum
  add_pair week (some ci) (some out) sum =
      if ltb ci week then sum else if ltb ci out then plus sum (minutes (sub out ci)) else sum

  -- `weekMinutes`
  unfoldable pub week_minutes : ℕ → List Record → F → F
  week_minutes week [] sum = sum
  week_minutes week (r ∷ rs) sum =
      week_minutes week rs (add_pair week r.check_in_at r.check_out_at sum)

  unfoldable pub percent : ℕ × ℕ → ℕ
  percent (considered, on_time) =
      if considered == 0
      then 100
      else to_int (times (over (of_int on_time) (of_int considered)) (of_int 100))

  -- The column is a date: its instant is the day's midnight. A hiring after `now` counts no day.
  abbrev pub tenure : ℕ → Option ℕ → Option ℕ
  tenure now none = none
  tenure now (some hired) =
      if ltb now (hired * day)
      then some 0
      else some (to_int (over (hours (sub now (hired * day))) (of_int 24)))

  module _ (months : Months) (modules : Modules) where
    open months use {month_start, month_end}
    open modules use {list_my_shifts, list, employee_id_by_user_id, get_employee}

    unfoldable pub on_time_of : ℕ → ℕ → Index ℕ → Call ℕ
    unfolding index
    on_time_of user_id now [] = pure 100
    on_time_of user_id now (c ∷ cs) = do
      all_shifts ← list_my_shifts user_id (window (now - 90 * day) (now + day))
      pure (percent (tally (index starts_at all_shifts []) (c ∷ cs)))

    unfoldable pub stats_of : ℕ → ℕ → Option ℕ → Call (MyStats F)
    stats_of user_id now none = pure record {
      shifts_this_month = 0;
      hours_this_week = of_int 0;
      on_time_pct = 100;
      tenure_days = none;
    }
    stats_of user_id now (some emp_id) = do
      month_shifts ← list_my_shifts user_id (window (month_start now) (month_end now))
      records ← list (of_employee emp_id)
      pct ← on_time_of user_id now (check_in_by_shift records [])
      emp ← get_employee emp_id
      pure record {
        shifts_this_month = length month_shifts;
        hours_this_week =
            round_to1 (over (week_minutes (start_of_week now) records (of_int 0)) (of_int 60));
        on_time_pct = pct;
        tenure_days = tenure now emp.hired_at;
      }

    unfoldable pub my_stats : ℕ → ℕ → Call (MyStats F)
    my_stats user_id now = do found ← employee_id_by_user_id user_id; stats_of user_id now found
