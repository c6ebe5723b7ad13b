-- ===== src/Examples/LiveView.antt =====
-- Runs of the theorems on the board of who is working.
use opero.Prelude.{String, Bool, true}
use opero.Examples.Data

abbrev any_order : String → String → Bool
any_order a b = true
