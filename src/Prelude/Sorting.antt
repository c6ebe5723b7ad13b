-- ===== src/Prelude/Sorting.antt =====
-- ORDER BY and WHERE: what the selected and sorted rows are.
use mathlib.Core.Path.{◌≡◌, refl}
use mathlib.Core.Bool.{Bool, true, false, ◌&&◌}
use mathlib.Core.List.{List, [], ◌∷◌}
use native.Mathlib.Omega.{arith}
use Prim.Native.Nat.{ℕ, zero, suc, ◌≤◌}
use mathlib.Core.Option.{Option, none, some}
use opero.Prelude.Tests.{if◌then◌else◌, leb}
use opero.Prelude.Rows.{
  length, select_rows, count_rows, insert_by, sort_by, take_rows, collect, prepend, All,
}

module _ {ℓ} {A : Type ℓ} where
  -- Each row stands before every later one.
  abbrev pub Ordered : (A → A → Bool) → List A → Type 0
  Ordered before [] = Unit
  Ordered before (x ∷ xs) = All (λ y. before x y ≡ true) xs × Ordered before xs

module _ {ℓ κ} {A : Type ℓ} (P : A → Type κ) where
  All-insert :
      (before : A → A → Bool) (a : A) (xs : List A) → P a → All P xs → All P (insert_by before a xs)
  unfolding insert_by
  All-insert before a [] p h = (p, h)
  All-insert before a (x ∷ xs) p h = pick (before a x) (All-insert before a xs p h.1)
    where
      pick :
          (b : Bool)
          → All P (insert_by before a xs)
          → All P (if b then a ∷ x ∷ xs else x ∷ insert_by before a xs)
      pick true t = (p, h)
      pick false t = (h.0, t)

  pub All-sort : (before : A → A → Bool) (xs : List A) → All P xs → All P (sort_by before xs)
  unfolding sort_by
  All-sort before [] h = h
  All-sort before (x ∷ xs) h = All-insert before x _ h.0 (All-sort before xs h.1)

module _ {ℓ} {A : Type ℓ} (p : A → Bool) where
  pub All-select : (xs : List A) → All (λ x. p x ≡ true) (select_rows p xs)
  unfolding select_rows
  All-select [] = tt
  All-select (x ∷ xs) = pick (p x) refl (All-select xs)
    where
      pick :
          (b : Bool)
          → p x ≡ b
          → All (λ y. p y ≡ true) (select_rows p xs)
          → All (λ y. p y ≡ true) (if b then x ∷ select_rows p xs else select_rows p xs)
      pick true e t = (e, t)
      pick false e t = t

  -- The selection loses none of the rows that pass the test.
  pub count-select :
      (q : A → Bool) (xs : List A)
      → count_rows q (select_rows p xs) ≡ count_rows (λ x. q x && p x) xs
  unfolding select_rows count_rows
  count-select q [] = refl
  count-select q (x ∷ xs) = ground (arith, count-select q xs)

module _ {ℓ} {A : Type ℓ} (before : A → A → Bool) where
  count-insert :
      (q : A → Bool) (a : A) (xs : List A)
      → count_rows q (insert_by before a xs) ≡ count_rows q (a ∷ xs)
  unfolding insert_by count_rows
  count-insert q a [] = refl
  count-insert q a (x ∷ xs) = ground (arith, count-insert q a xs)

  -- Sorting loses and adds no row.
  pub count-sort : (q : A → Bool) (xs : List A) → count_rows q (sort_by before xs) ≡ count_rows q xs
  unfolding sort_by count_rows
  count-sort q [] = refl
  count-sort q (x ∷ xs) = ground (arith, count-sort q xs, count-insert q x (sort_by before xs))

  module _ (total : (a b : A) → before a b ≡ false → before b a ≡ true)
      (trans : (a b c : A) → before a b ≡ true → before b c ≡ true → before a c ≡ true) where
    All-before :
        (a x : A) (xs : List A)
        → before a x ≡ true
        → All (λ y. before x y ≡ true) xs
        → All (λ y. before a y ≡ true) xs
    All-before a x [] e h = tt
    All-before a x (y ∷ xs) e h = (trans a x y e h.0, All-before a x xs e h.1)

    Ordered-insert :
        (a : A) (xs : List A) → Ordered before xs → Ordered before (insert_by before a xs)
    unfolding insert_by
    Ordered-insert a [] h = (tt, tt)
    Ordered-insert a (x ∷ xs) h = pick (before a x) refl (Ordered-insert a xs h.1)
      where
        pick :
            (b : Bool)
            → before a x ≡ b
            → Ordered before (insert_by before a xs)
            → Ordered before (if b then a ∷ x ∷ xs else x ∷ insert_by before a xs)
        pick true e t = ((e, All-before a x xs e h.0), h)
        pick false e t = (All-insert (λ y. before x y ≡ true) before a xs (total a x e) h.0, t)

    pub sort-Ordered : (xs : List A) → Ordered before (sort_by before xs)
    unfolding sort_by
    sort-Ordered [] = tt
    sort-Ordered (x ∷ xs) = Ordered-insert x _ (sort-Ordered xs)

-- A list that is latest first stays so where rows are joined to others, and where it is cut.
module _ {ℓ κ} {A : Type ℓ} {B : Type κ} (f : A → Option B) (key : A → ℕ) (key' : B → ℕ)
    (same : (a : A) (b : B) → f a ≡ some b → key' b ≡ key a) where
  All-collect :
      (n : ℕ) (xs : List A)
      → All (λ y. leb (key y) n ≡ true) xs
      → All (λ b. leb (key' b) n ≡ true) (collect f xs)
  unfolding collect
  All-collect n [] h = tt
  All-collect n (x ∷ xs) h = pick (f x) refl (All-collect n xs h.1)
    where
      pick :
          (o : Option B)
          → f x ≡ o
          → All (λ b. leb (key' b) n ≡ true) (collect f xs)
          → All (λ b. leb (key' b) n ≡ true) (prepend o (collect f xs))
      pick none e t = t
      pick (some b) e t = (rw (same x b e) h.0, t)

  pub Ordered-collect :
      (xs : List A)
      → Ordered (λ a b. leb (key b) (key a)) xs
      → Ordered (λ a b. leb (key' b) (key' a)) (collect f xs)
  unfolding collect
  Ordered-collect [] h = tt
  Ordered-collect (x ∷ xs) h = pick (f x) refl (Ordered-collect xs h.1)
    where
      pick :
          (o : Option B)
          → f x ≡ o
          → Ordered (λ a b. leb (key' b) (key' a)) (collect f xs)
          → Ordered (λ a b. leb (key' b) (key' a)) (prepend o (collect f xs))
      pick none e t = t
      pick (some b) e t = (rw (same x b e) (All-collect (key x) xs h.0), t)

module _ {ℓ κ} {A : Type ℓ} (P : A → Type κ) where
  pub All-take : (n : ℕ) (xs : List A) → All P xs → All P (take_rows n xs)
  unfolding take_rows
  All-take zero xs h = tt
  All-take (suc n) [] h = tt
  All-take (suc n) (x ∷ xs) h = (h.0, All-take n xs h.1)

module _ {ℓ} {A : Type ℓ} where
  pub Ordered-take :
      (before : A → A → Bool) (n : ℕ) (xs : List A)
      → Ordered before xs
      → Ordered before (take_rows n xs)
  unfolding take_rows
  Ordered-take before zero xs h = tt
  Ordered-take before (suc n) [] h = tt
  Ordered-take before (suc n) (x ∷ xs) h =
      (All-take (λ y. before x y ≡ true) n xs h.0, Ordered-take before n xs h.1)

  pub length-take : (n : ℕ) (xs : List A) → length (take_rows n xs) ≤ n
  unfolding take_rows
  length-take zero xs = ground arith
  length-take (suc n) [] = ground arith
  length-take (suc n) (x ∷ xs) = ground (arith, length-take n xs)
