-- ===== src/Leave/Service.antt =====
-- leave/service.go.
use opero.Prelude.{
  ℕ, String, Bool, not, ◌||◌, Option, none, some, List, [], ◌==◌, ltb, str_eq, if◌then◌else◌,
}
use opero.Prelude.Int.{ℤ, pos, sub_ℕ}
use opero.Prelude.Calendar.{day_of, year_of, year_start, year_end}
use opero.Effects.{pure, raise, tenant_store, ◌>>=◌, ◌>>◌}
use opero.Effects.Error.{Err, leave, validation}
use opero.Tenant.{Call}
use opero.Resolvers.{EmployeeResolver}
use opero.Leave.Types.{
  Request, CreateInput, Filter, default_entitled_days, status_pending, status_approved,
  status_rejected,
}
use opero.Leave.Store

pub record Balance : Type 0 where
  pub year : ℕ
  pub entitled_days : ℤ
  pub used_days : ℤ
  pub remaining_days : ℤ

abbrev pub err_validation : Err
err_validation = validation leave

unfoldable pub valid_type : String → Bool
valid_type k = str_eq k "holiday" || str_eq k "sick" || str_eq k "personal"

-- The zero time is day 0. The input is a copy of the caller's, so that the assignment of nil to a
-- blank note in it, the function's last step, reaches nobody: what is left of the function is its
-- answer.
unfoldable pub validate_create : CreateInput → Call Unit
unfolding valid_type
validate_create inp =
    if not (valid_type inp.kind)
    then raise err_validation
    else if inp.start_date == 0 || inp.end_date == 0
    then raise err_validation
    else if ltb inp.end_date inp.start_date
    then raise err_validation
    else pure tt

module _ (employees : EmployeeResolver) where
  open employees use {employee_id_by_user_id}

  unfoldable pub create_for : CreateInput → Option ℕ → Call Request
  create_for inp none = raise err_validation
  create_for inp (some emp) = do tenant_store leave; Store.create emp inp

  unfoldable pub create_my_leave : ℕ → CreateInput → Call Request
  unfolding create_for
  create_my_leave user_id inp = do
    validate_create inp
    found ← employee_id_by_user_id user_id
    create_for inp found

  unfoldable pub list_for : Option ℕ → Call (List Request)
  list_for none = pure []
  list_for (some emp) = do
    tenant_store leave
    Store.list (record { employee_id = some emp; status = none })

  unfoldable pub list_my_leave : ℕ → Call (List Request)
  unfolding list_for
  list_my_leave user_id = do found ← employee_id_by_user_id user_id; list_for found

  abbrev pub entitled_or_default : Option ℕ → ℕ
  entitled_or_default none = default_entitled_days
  entitled_or_default (some n) = n

  unfoldable pub balance_for : ℕ → Option ℕ → Call Balance
  balance_for year none = pure (record {
    year = year;
    entitled_days = pos default_entitled_days;
    used_days = pos 0;
    remaining_days = pos default_entitled_days;
  })
  balance_for year (some emp) = do
    tenant_store leave
    found ← Store.entitlement emp year
    let entitled = entitled_or_default found
    used ← Store.sum_approved_days emp (year_start year) (year_end year)
    pure (record {
      year = year;
      entitled_days = pos entitled;
      used_days = pos used;
      remaining_days = sub_ℕ entitled used;
    })

  unfoldable pub my_balance : ℕ → ℕ → Call Balance
  unfolding balance_for
  my_balance user_id now = do
    let year = year_of (day_of now)
    found ← employee_id_by_user_id user_id
    balance_for year found

unfoldable pub list : Filter → Call (List Request)
list f = do tenant_store leave; Store.list f

unfoldable pub review : ℕ → String → ℕ → Call Request
review i target reviewer_user_id = do
  tenant_store leave
  cur ← Store.get i
  if str_eq cur.status target
      then pure cur
      else if not (str_eq cur.status status_pending)
      then raise err_validation
      else Store.set_status i target (some reviewer_user_id)

unfoldable pub approve : ℕ → ℕ → Call Request
unfolding review
approve i reviewer_user_id = review i status_approved reviewer_user_id

unfoldable pub reject : ℕ → ℕ → Call Request
unfolding review
reject i reviewer_user_id = review i status_rejected reviewer_user_id
