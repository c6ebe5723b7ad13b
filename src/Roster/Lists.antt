-- ===== src/Roster/Lists.antt =====
-- The lists of shifts (roster/service.go, ListMyShifts): what they hold.
use opero.Prelude.{
  ◌≡◌, Bool, true, ◌&&◌, List, arith, leb, select_rows, sort_by, All, count_rows, ◌∙◌,
}
use opero.Prelude.Sorting.{Ordered, All-sort, All-select, count-select, count-sort, sort-Ordered}
use opero.Roster.Types.{Shift, ShiftFilter}
use opero.Roster.Queries.{wanted}
use opero.Roster.Queries
use opero.Roster.Store
use opero.Roster.Service
use opero.Identity.Service as People
use opero.Identity.Store as PeopleStore
use opero.Identity.Queries as PeopleQueries

abbrev pub earlier : Shift → Shift → Bool
earlier a b = leb a.starts_at b.starts_at

-- The rows that a filter asks for: each passes it, they are by start, and each row of the table that
-- passes is there as often as in the table.
pub record Selection (f : ShiftFilter) (rows found : List Shift) : Type 0 where
  pub passing : All (λ s. wanted f s ≡ true) found
  pub by_start : Ordered earlier found
  pub complete : (q : Shift → Bool) → count_rows q found ≡ count_rows (λ s. q s && wanted f s) rows

pub listed :
    (f : ShiftFilter) (rows : List Shift)
    → Selection f rows (sort_by earlier (select_rows (wanted f) rows))
listed f rows = record {
  passing = All-sort (λ s. wanted f s ≡ true) earlier _ (All-select (wanted f) rows);
  by_start = sort-Ordered earlier (λ a b h. ground arith) (λ a b c h k. ground arith) _;
  complete = λ q. count-sort earlier q _ ∙ count-select (wanted f) q rows;
}
