-- ===== src/Prelude/Rows.antt =====
-- Database tables as lists of rows: the scans of SELECT, UPDATE and DELETE, and what they keep.
use Prim.Native.Nat.{ℕ, zero, suc, ◌+◌}
use mathlib.Core.Path.{◌≡◌, refl, subst}
use mathlib.Core.Logic.{inl, inr}
use mathlib.Core.Bool.{Bool, true, false, ◌||◌}
use mathlib.Core.List.{List, [], ◌∷◌}
use mathlib.Core.Option.{Option, none, some}
use native.Mathlib.Omega.{arith}
use opero.Prelude.Tests.{◌==◌, if◌then◌else◌, Bool-cases}

module _ {ℓ} {A : Type ℓ} where
  abbrev pub length : List A → ℕ
  length [] = 0
  length (x ∷ xs) = suc (length xs)

  -- Whether some row passes the test.
  unfoldable pub any_row : (A → Bool) → List A → Bool
  any_row p [] = false
  any_row p (x ∷ xs) = p x || any_row p xs

  -- The first row that passes the test.
  unfoldable pub find_row : (A → Bool) → List A → Option A
  find_row p [] = none
  find_row p (x ∷ xs) = if p x then some x else find_row p xs

  -- The rows that pass the test.
  unfoldable pub select_rows : (A → Bool) → List A → List A
  select_rows p [] = []
  select_rows p (x ∷ xs) = let rest = select_rows p xs in if p x then x ∷ rest else rest

  -- `UPDATE … WHERE p`.
  unfoldable pub update_rows : (A → Bool) → (A → A) → List A → List A
  update_rows p f [] = []
  update_rows p f (x ∷ xs) = (if p x then f x else x) ∷ update_rows p f xs

  -- `DELETE … WHERE p`.
  unfoldable pub delete_rows : (A → Bool) → List A → List A
  delete_rows p [] = []
  delete_rows p (x ∷ xs) = let rest = delete_rows p xs in if p x then rest else x ∷ rest

  -- `LIMIT n`.
  unfoldable pub take_rows : ℕ → List A → List A
  take_rows zero xs = []
  take_rows (suc n) [] = []
  take_rows (suc n) (x ∷ xs) = x ∷ take_rows n xs

  -- How many rows pass the test.
  unfoldable pub count_rows : (A → Bool) → List A → ℕ
  count_rows p [] = 0
  count_rows p (x ∷ xs) = (if p x then 1 else 0) + count_rows p xs

  -- `ORDER BY`: the rows sorted by `before`.
  unfoldable pub insert_by : (A → A → Bool) → A → List A → List A
  insert_by before a [] = a ∷ []
  insert_by before a (x ∷ xs) =
      let rest = insert_by before a xs in if before a x then a ∷ x ∷ xs else x ∷ rest

  unfoldable pub sort_by : (A → A → Bool) → List A → List A
  unfolding insert_by
  sort_by before [] = []
  sort_by before (x ∷ xs) = insert_by before x (sort_by before xs)

abbrev pub prepend {ℓ} : {A : Type ℓ} → Option A → List A → List A
prepend none xs = xs
prepend (some a) xs = a ∷ xs

-- The values of the rows that have one: a JOIN to a row of another table.
unfoldable pub collect {ℓ κ} : {A : Type ℓ} {B : Type κ} → (A → Option B) → List A → List B
collect f [] = []
collect f (x ∷ xs) = prepend (f x) (collect f xs)

module _ {ℓ κ} {A : Type ℓ} where
  abbrev pub All : (A → Type κ) → List A → Type κ
  All P [] = Unit
  All P (x ∷ xs) = P x × All P xs

module _ {ℓ} {A : Type ℓ} where
  pub find_row-none : (p : A → Bool) (xs : List A) → any_row p xs ≡ false → find_row p xs ≡ none
  unfolding any_row find_row
  find_row-none p [] h = refl
  find_row-none p (x ∷ xs) h = ground (arith, find_row-none p xs)

  pub any_row-found :
      (p : A → Bool) (xs : List A) {x : A} → find_row p xs ≡ some x → any_row p xs ≡ true
  unfolding any_row find_row
  any_row-found p [] e = absurd (ground arith)
  any_row-found p (y ∷ xs) {x} e = elim (Bool-cases (p y)) [
    | inl hit ↦ ground (arith, hit)
    | inr miss ↦ ground (arith, miss, any_row-found p xs {x = x})
  ]

  pub find_row-holds : (p : A → Bool) (xs : List A) {x : A} → find_row p xs ≡ some x → p x ≡ true
  unfolding find_row
  find_row-holds p [] e = absurd (ground arith)
  find_row-holds p (y ∷ xs) {x} e = elim (Bool-cases (p y)) [
    | inl hit ↦ subst (λ z. p z ≡ true) (ground (arith, hit)) hit
    | inr miss ↦ find_row-holds p xs (ground (arith, miss))
  ]

  pub find_row-update :
      (p : A → Bool) (f : A → A)
      → ((x : A) → p (f x) ≡ p x)
      → (xs : List A) {x : A} → find_row p xs ≡ some x
      → find_row p (update_rows p f xs) ≡ some (f x)
  unfolding find_row update_rows
  find_row-update p f same [] e = absurd (ground arith)
  find_row-update p f same (y ∷ xs) {x} e = elim (Bool-cases (p y)) [
    | inl hit ↦ rw (hit, same y, hit) (ground arith)
    | inr miss ↦ rw (miss, miss) (find_row-update p f same xs (ground arith))
  ]

module _ {ℓ} {A : Type ℓ} where
  pub delete_rows-none : (p : A → Bool) (xs : List A) → any_row p xs ≡ false → delete_rows p xs ≡ xs
  unfolding any_row delete_rows
  delete_rows-none p [] h = refl
  delete_rows-none p (x ∷ xs) h = ground (arith, delete_rows-none p xs)

  pub update_rows-none :
      (p : A → Bool) (f : A → A) (xs : List A) → any_row p xs ≡ false → update_rows p f xs ≡ xs
  unfolding any_row update_rows
  update_rows-none p f [] h = refl
  update_rows-none p f (x ∷ xs) h = ground (arith, update_rows-none p f xs)

module _ {ℓ κ} {A : Type ℓ} (P : A → Type κ) where
  pub All-update :
      (p : A → Bool) (f : A → A)
      → ((x : A) → p x ≡ true → P x → P (f x))
      → (xs : List A) → All P xs
      → All P (update_rows p f xs)
  unfolding update_rows
  All-update p f keep [] h = h
  All-update p f keep (x ∷ xs) h = (head (p x) refl, All-update p f keep xs h.1)
    where
      head : (b : Bool) → p x ≡ b → P (if b then f x else x)
      head true e = keep x e h.0
      head false e = h.0

  pub All-delete : (p : A → Bool) (xs : List A) → All P xs → All P (delete_rows p xs)
  unfolding delete_rows
  All-delete p [] h = h
  All-delete p (x ∷ xs) h = pick (p x) (All-delete p xs h.1)
    where
      pick :
          (b : Bool)
          → All P (delete_rows p xs)
          → All P (if b then delete_rows p xs else x ∷ delete_rows p xs)
      pick true t = t
      pick false t = (h.0, t)

  pub All-find : (p : A → Bool) (xs : List A) {x : A} → All P xs → find_row p xs ≡ some x → P x
  unfolding find_row
  All-find p [] h e = absurd (ground arith)
  All-find p (y ∷ xs) h e = elim (Bool-cases (p y)) [
    | inl hit ↦ subst P (ground arith) h.0
    | inr miss ↦ All-find p xs h.1 (ground arith)
  ]

-- No two rows have the same key: a unique index.
module _ {ℓ} {A : Type ℓ} (key : A → ℕ) where
  abbrev pub has_key : ℕ → List A → Bool
  has_key k = any_row (λ x. key x == k)

  abbrev pub KeysDistinct : List A → Type 0
  KeysDistinct [] = Unit
  KeysDistinct (x ∷ xs) = (any_row (λ y. key y == key x) xs ≡ false) × KeysDistinct xs

module _ {ℓ} {A : Type ℓ} (key : A → ℕ) (p : A → Bool) where
  any_row-update :
      (f : A → A)
      → ((x : A) → key (f x) ≡ key x)
      → (k : ℕ) (xs : List A)
      → any_row (λ x. key x == k) (update_rows p f xs) ≡ any_row (λ x. key x == k) xs
  unfolding any_row update_rows
  any_row-update f same k [] = refl
  any_row-update f same k (x ∷ xs) = ground (arith, same x, any_row-update f same k xs)

  any_row-delete :
      (k : ℕ) (xs : List A)
      → any_row (λ x. key x == k) xs ≡ false
      → any_row (λ x. key x == k) (delete_rows p xs) ≡ false
  unfolding any_row delete_rows
  any_row-delete k [] h = refl
  any_row-delete k (x ∷ xs) h = ground (arith, any_row-delete k xs)

  pub KeysDistinct-update :
      (f : A → A)
      → ((x : A) → key (f x) ≡ key x)
      → (xs : List A) → KeysDistinct key xs
      → KeysDistinct key (update_rows p f xs)
  unfolding update_rows
  KeysDistinct-update f same [] h = h
  KeysDistinct-update f same (x ∷ xs) h =
      (ground (arith, same x, any_row-update f same (key x) xs), KeysDistinct-update f same xs h.1)

  pub KeysDistinct-delete :
      (xs : List A) → KeysDistinct key xs → KeysDistinct key (delete_rows p xs)
  unfolding delete_rows
  KeysDistinct-delete [] h = h
  KeysDistinct-delete (x ∷ xs) h =
      ground (arith, any_row-delete (key x) xs, KeysDistinct-delete xs h.1)
