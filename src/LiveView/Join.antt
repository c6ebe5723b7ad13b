-- ===== src/LiveView/Join.antt =====
-- The join of liveview/service.go: what an entry of the board says of its shift.
use opero.Prelude.{
  ℕ, String, Bool, true, false, ◌≡◌, refl, sym, ◌∙◌, ap, Option, none, some, List, [], ◌∷◌, ◌⊎◌,
  inl, inr, arith, ◌==◌, ==_iff, subst, any_row, map, All, select_rows, sort_by, if◌then◌else◌,
}
use mathlib.Core.Path.{ap₂}
use mathlib.Core.List.{Memᴰ}
use opero.Tenant.{TenantDb}
use opero.Attendance.Types.{Record}
use opero.Attendance.Queries.{linked_to_any}
use opero.Roster.Types.{Shift}
use opero.Identity.Types.{Employee}
use opero.Identity.Queries as PeopleQueries
use opero.Prelude.GoMap.{Index, lookup, index}
use opero.LiveView.Service.{
  Entry, by_shift, name_by_id, linked, or_empty, not_checked_in, with_record, entry, everyone,
}
use opero.LiveView.Index.{
  keyed, Finds, index-Finds, Mem-of-select, All-unselect, any_row-map, Mem-of-sort, All-unsort,
}

-- What the entry of a shift shows of attendance.
pub record Shows (r : Record) (e : Entry) : Type 0 where
  pub status : e.attendance_status ≡ r.status
  pub checked_in : e.check_in_at ≡ r.check_in_at
  pub checked_out : e.check_out_at ≡ r.check_out_at
  pub lat : e.check_in_lat ≡ r.check_in_lat
  pub lng : e.check_in_lng ≡ r.check_in_lng
  pub break_start : e.break_started_at ≡ r.break_started_at

-- The entry of a shift of the tables: the name is that of an employee row with the shift's employee, or
-- empty where there is none; the attendance is that of a record linked to the shift, or none where none is.
pub record Joined (db : TenantDb) (e : Entry) : Type 0 where
  pub owner : e.employee_id ≡ e.shift.employee_id
  pub name :
      (All (λ p. (p.id == e.shift.employee_id) ≡ false) db.employees × (e.employee_name ≡ ""))
      ⊎ ((p : Employee) × Memᴰ p db.employees
          × (p.id ≡ e.shift.employee_id)
          × (e.employee_name ≡ p.full_name))
  pub state :
      (All (λ r. keyed e.shift.id (by_shift r) ≡ false) db.attendance
        × (e ≡ not_checked_in e.employee_name e.shift))
      ⊎ ((r : Record) × Memᴰ r db.attendance × (r.shift_id ≡ some e.shift.id) × Shows r e)

-- Whether a record is linked to the shift.
linked-within :
    (ids : List ℕ) (k : ℕ)
    → any_row (λ i. i == k) ids ≡ true
    → (r : Record) (o : Option ℕ) → keyed k (linked o r) ≡ true
    → elim o [ none ↦ false | some s ↦ any_row (λ i. i == s) ids ] ≡ true
linked-within ids k here r none h = h
linked-within ids k here r (some s) h =
    subst (λ j. any_row (λ i. i == j) ids ≡ true) (sym ((==_iff s k).0 h)) here

linked-some :
    (r : Record) (o : Option ℕ) {k : ℕ} {q : Record}
    → linked o r ≡ some (k, q)
    → (o ≡ some k) × (r ≡ q)
linked-some r none h = absurd (ground arith)
linked-some r (some s) h = (cc, cc)

abbrev pub ids : List Shift → List ℕ
ids shifts = map (λ s. s.id) shifts

abbrev pub linked_records : TenantDb → List Shift → List Record
linked_records db shifts = select_rows (linked_to_any (ids shifts)) db.attendance

abbrev pub listed_employees : TenantDb → (String → String → Bool) → List Employee
listed_employees db collates =
    sort_by (λ a b. collates a.full_name b.full_name)
      (select_rows (PeopleQueries.wanted everyone) db.employees)

module _ (db : TenantDb) (shifts : List Shift) (sh : Shift) (listed : Memᴰ sh shifts) where
  module _ (name : String) where
    state-of :
        (o : Option Record)
        → Finds by_shift sh.id (linked_records db shifts) none o
        → (All (λ r. keyed sh.id (by_shift r) ≡ false) db.attendance
            × (with_record o (not_checked_in name sh) ≡ not_checked_in name sh))
          ⊎ ((r : Record) × Memᴰ r db.attendance
              × (r.shift_id ≡ some sh.id)
              × Shows r (with_record o (not_checked_in name sh)))
    state-of o (inl (a, e)) = inl (
      All-unselect (linked_to_any (ids shifts)) (λ r. keyed sh.id (by_shift r))
          (λ r h.
            linked-within (ids shifts) sh.id (any_row-map (λ s. s.id) shifts sh.id listed refl) r
              r.shift_id h)
          db.attendance a,
      ap (λ x. with_record x (not_checked_in name sh)) e,
    )
    state-of o (inr (r, b, i, h, e)) =
        let (linked_here, same) = linked-some r r.shift_id h in
        inr (
          r,
          Mem-of-select _ _ i,
          linked_here,
          subst (λ x. Shows r (with_record x (not_checked_in name sh)))
              (sym (e ∙ ap some (sym same)))
              (record {
                status = refl;
                checked_in = refl;
                checked_out = refl;
                lat = refl;
                lng = refl;
                break_start = refl;
              }),
        )

  name-of :
      (collates : String → String → Bool) (n : Option String)
      → Finds name_by_id sh.employee_id (listed_employees db collates) none n
      → (All (λ p. (p.id == sh.employee_id) ≡ false) db.employees × (or_empty n ≡ ""))
        ⊎ ((p : Employee) × Memᴰ p db.employees
            × (p.id ≡ sh.employee_id)
            × (or_empty n ≡ p.full_name))
  name-of collates n (inl (a, e)) = inl (
    All-unselect (PeopleQueries.wanted everyone) (λ p. p.id == sh.employee_id) (λ p h. refl) _
        (All-unsort _ _ _ a),
    ap or_empty e,
  )
  name-of collates n (inr (p, b, i, h, e)) =
      inr (p, Mem-of-select _ _ (Mem-of-sort _ _ i), cc, ap or_empty e ∙ cc)

  joined :
      (collates : String → String → Bool) (o : Option Record) (n : Option String)
      → Finds by_shift sh.id (linked_records db shifts) none o
      → Finds name_by_id sh.employee_id (listed_employees db collates) none n
      → Joined db (with_record o (not_checked_in (or_empty n) sh))
  joined collates none n ro rn = record {
    owner = refl;
    name = name-of collates n rn;
    state = state-of (or_empty n) none ro;
  }
  joined collates (some r) n ro rn = record {
    owner = refl;
    name = name-of collates n rn;
    state = state-of (or_empty n) (some r) ro;
  }

  pub entry-Joined :
      (collates : String → String → Bool)
      → Joined db (
          entry
            (index by_shift (linked_records db shifts) [])
            (index name_by_id (listed_employees db collates) [])
            sh)
  unfolding entry lookup
  entry-Joined collates =
      joined collates _ _ (index-Finds by_shift sh.id _ [])
        (index-Finds name_by_id sh.employee_id _ [])

with_record-shift : (o : Option Record) (e : Entry) → (with_record o e).shift ≡ e.shift
with_record-shift none e = refl
with_record-shift (some r) e = refl

pub entries-shifts :
    (records : Index Record) (names : Index String) (shifts : List Shift)
    → map (λ e. e.shift) (map (entry records names) shifts) ≡ shifts
unfolding entry
entries-shifts records names [] = refl
entries-shifts records names (sh ∷ shifts) =
    ap₂ (λ x xs. x ∷ xs) (with_record-shift (lookup sh.id records) _)
      (entries-shifts records names shifts)

pub All-map-mem :
    {A B : Type 0} (P : B → Type 0) (f : A → B) (xs : List A)
    → ((x : A) → Memᴰ x xs → P (f x))
    → All P (map f xs)
All-map-mem P f [] h = tt
All-map-mem P f (x ∷ xs) h = (h x (Memᴰ.head refl), All-map-mem P f xs (λ y i. h y (Memᴰ.tail i)))

-- No record is linked to a shift of an empty list.
pub none-linked : (rs : List Record) → select_rows (linked_to_any []) rs ≡ []
unfolding select_rows any_row
none-linked [] = refl
none-linked (r ∷ rs) = drop r.shift_id (none-linked rs)
  where
    drop :
        (o : Option ℕ)
        → select_rows (linked_to_any []) rs ≡ []
        → (if elim o [ none ↦ false | some s ↦ any_row (λ i. i == s) [] ]
            then r ∷ select_rows (linked_to_any []) rs
            else select_rows (linked_to_any []) rs)
          ≡ []
    drop none h = h
    drop (some s) h = h
