-- ===== src/Attendance/Invariant.antt =====
-- What holds of attendance_records between the requests of the field app.
use opero.Prelude.{
  ℕ, String, ◌≡◌, refl, true, false, arith, str_eq, str_eq-of-eq, Option-cases, Bool-cases, inl,
  inr, is_some, All, All-update, KeysDistinct, KeysDistinct-update, find_row, update_rows,
}
use opero.Effects.Keeps.{KeepsQuery}
use opero.Tenant.{TenantDb}
use opero.Attendance.Types.{Record, CheckInInput, CheckOutInput}
use opero.Attendance.Queries.{
  status_allowed, insert_record, with_status, check_out_record, checked_in_record, open_of_client,
  by_client,
}
use opero.Attendance.Queries

-- A record's status agrees with its time stamps.
pub record IsCoherent (r : Record) : Type 0 where
  pub allowed : status_allowed r.status ≡ true
  pub arrived : is_some r.check_in_at ≡ true
  pub break_marked : is_some r.break_started_at ≡ str_eq r.status "on_break"
  pub out_marked : is_some r.check_out_at ≡ str_eq r.status "checked_out"

pub record Inv (db : TenantDb) : Type 0 where
  pub coherent : All IsCoherent db.attendance
  pub ids : KeysDistinct (λ r. r.id) db.attendance
  pub clients : KeysDistinct (λ r. r.client_id) db.attendance

insert_record-Inv :
    (r : Record) (db : TenantDb) → IsCoherent r → Inv db → Inv (insert_record r db).1
unfolding insert_record
insert_record-Inv r db c v = ground arith

checked_in_record-IsCoherent :
    (now fresh emp : ℕ) (inp : CheckInInput) → IsCoherent (checked_in_record now fresh emp inp)
unfolding status_allowed
checked_in_record-IsCoherent now fresh emp inp = record {
  allowed = refl;
  arrived = refl;
  break_marked = refl;
  out_marked = refl;
}

pub create_check_in-Inv :
    (emp : ℕ) (inp : CheckInInput) → KeepsQuery Inv (Queries.create_check_in emp inp)
unfolding Queries.create_check_in
create_check_in-Inv emp inp now fresh db v =
    insert_record-Inv _ db (checked_in_record-IsCoherent now fresh emp inp) v

check_out_record-IsCoherent :
    (inp : CheckOutInput) (now : ℕ) (r : Record)
    → IsCoherent r
    → IsCoherent (check_out_record inp now r)
unfolding status_allowed
check_out_record-IsCoherent inp now r c = record {
  allowed = refl;
  arrived = c.arrived;
  break_marked = refl;
  out_marked = refl;
}

pub check_out-Inv : (inp : CheckOutInput) → KeepsQuery Inv (Queries.check_out inp)
unfolding Queries.check_out
check_out-Inv inp now fresh db v = record {
  coherent =
      All-update IsCoherent _ _ (λ r _. check_out_record-IsCoherent inp now r) db.attendance
        v.coherent;
  ids = KeysDistinct-update _ _ _ (λ r. refl) db.attendance v.ids;
  clients = KeysDistinct-update _ _ _ (λ r. refl) db.attendance v.clients;
}

with_status-IsCoherent :
    (c now : ℕ) (status : String) (r : Record)
    → status_allowed status ≡ true
    → str_eq status "checked_out" ≡ false
    → open_of_client c r ≡ true
    → IsCoherent r
    → IsCoherent (with_status status now r)
with_status-IsCoherent c now status r a o h v = record {
  allowed = a;
  arrived = v.arrived;
  break_marked = ground arith;
  out_marked = ground (
    arith,
    v.out_marked,
    str_eq-of-eq r.status "checked_in" "checked_out" {b = false},
    str_eq-of-eq r.status "on_break" "checked_out" {b = false},
  );
}

pub set_attendance_status-Inv :
    (c : ℕ) (status : String)
    → str_eq status "checked_out" ≡ false
    → KeepsQuery Inv (Queries.set_attendance_status c status)
unfolding Queries.set_attendance_status
set_attendance_status-Inv c status o now fresh db v =
    elim (Option-cases (find_row (open_of_client c) db.attendance)) [
      | inl e ↦ rw (e, Queries.set_attendance_status) v
      | inr (r, e) ↦ elim (Bool-cases (status_allowed status)) [
        | inl a ↦ rw (e, a, Queries.set_attendance_status) (set_rows a)
        | inr a ↦ rw (e, a, Queries.set_attendance_status) v
      ]
    ]
  where
    set_rows :
        status_allowed status ≡ true
        → Inv (record db {
          attendance = update_rows (open_of_client c) (with_status status now) db.attendance;
        })
    set_rows a = record {
      coherent =
          All-update IsCoherent _ _ (λ r h. with_status-IsCoherent c now status r a o h)
            db.attendance v.coherent;
      ids = KeysDistinct-update _ _ _ (λ r. refl) db.attendance v.ids;
      clients = KeysDistinct-update _ _ _ (λ r. refl) db.attendance v.clients;
    }
