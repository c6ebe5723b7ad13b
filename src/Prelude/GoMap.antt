-- ===== src/Prelude/GoMap.antt =====
-- Go maps whose keys are ids, as the loops of the packages fill and read them.
use Prim.Native.Nat.{ℕ}
use mathlib.Core.Option.{Option, none, some}
use mathlib.Core.List.{List, [], ◌∷◌}
use opero.Prelude.Tests.{◌==◌, if◌then◌else◌}

-- A Go map from ids: the latest entry of a key stands first.
abbrev pub Index : Type 0 → Type 0
Index A = List (ℕ × A)

unfoldable pub lookup : {A : Type 0} → ℕ → Index A → Option A
lookup k [] = none
lookup k ((j, a) ∷ m) = if j == k then some a else lookup k m

abbrev pub put : {A : Type 0} → Option (ℕ × A) → Index A → Index A
put none m = m
put (some e) m = e ∷ m

-- The loops that fill the two maps: each row in turn may put an entry.
unfoldable pub index : {A B : Type 0} → (A → Option (ℕ × B)) → List A → Index B → Index B
index f [] m = m
index f (x ∷ xs) m = index f xs (put (f x) m)
