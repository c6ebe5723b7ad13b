-- ===== src/LiveView/Index.antt =====
-- What a look-up in the maps of liveview/service.go finds.
use opero.Prelude.{
  ℕ, Bool, true, false, ◌≡◌, refl, ◌∙◌, ap, Option, none, some, List, [], ◌∷◌, ◌⊎◌, inl, inr, arith,
  ◌==◌, ==_iff, if◌then◌else◌, select_rows, any_row, map, All, Bool-cases, sort_by, insert_by,
}
use mathlib.Core.List.{Memᴰ}
use mathlib.Core.List.Memᴰ
use opero.Prelude.GoMap.{Index, lookup, put, index}

-- Whether a row puts an entry of the key.
abbrev pub keyed : {B : Type 0} → ℕ → Option (ℕ × B) → Bool
keyed k none = false
keyed k (some (j, b)) = j == k

-- Either no row puts an entry of the key and the look-up finds `old`, or it finds the entry of some row.
abbrev pub Finds : {A B : Type 0} → (A → Option (ℕ × B)) → ℕ → List A → Option B → Option B → Type 0
Finds {A} {B} f k xs old found =
    (All (λ x. keyed k (f x) ≡ false) xs × (found ≡ old))
    ⊎ ((x : A) × (b : B) × Memᴰ x xs × (f x ≡ some (k, b)) × (found ≡ some b))

module _ {A B : Type 0} (f : A → Option (ℕ × B)) (k : ℕ) where
  put-Finds :
      (x : A) (xs : List A) (m : Index B) (found : Option B)
      → (o : Option (ℕ × B)) → f x ≡ o
      → Finds f k xs (lookup k (put o m)) found
      → Finds f k (x ∷ xs) (lookup k m) found
  unfolding lookup
  put-Finds x xs m found o e (inr (y, b, i, h, g)) = inr (y, b, Memᴰ.tail i, h, g)
  put-Finds x xs m found none e (inl (a, g)) = inl ((ap (keyed k) e, a), g)
  put-Finds x xs m found (some (j, b)) e (inl (a, g)) = elim (Bool-cases (j == k)) [
    | inl hit ↦ inr (
      x,
      b,
      Memᴰ.head refl,
      e ∙ ap (λ i. some (i, b)) ((==_iff j k).0 hit),
      g ∙ ground (arith, hit),
    )
    | inr miss ↦ inl ((ap (keyed k) e ∙ miss, a), g ∙ ground (arith, miss))
  ]

  pub index-Finds :
      (xs : List A) (m : Index B) → Finds f k xs (lookup k m) (lookup k (index f xs m))
  unfolding index
  index-Finds [] m = inl (tt, refl)
  index-Finds (x ∷ xs) m = put-Finds x xs m _ (f x) refl (index-Finds xs (put (f x) m))

-- A row that a selection has is a row of the table.
pub Mem-of-select :
    {A : Type 0} (p : A → Bool) (xs : List A) {a : A} → Memᴰ a (select_rows p xs) → Memᴰ a xs
unfolding select_rows
Mem-of-select p [] i = i
Mem-of-select p (x ∷ xs) {a} i = pick (p x) (λ j. Mem-of-select p xs j) i
  where
    pick :
        (b : Bool)
        → (Memᴰ a (select_rows p xs) → Memᴰ a xs)
        → Memᴰ a (if b then x ∷ select_rows p xs else select_rows p xs)
        → Memᴰ a (x ∷ xs)
    pick true below (Memᴰ.head e) = Memᴰ.head e
    pick true below (Memᴰ.tail j) = Memᴰ.tail (below j)
    pick false below j = Memᴰ.tail (below j)

-- A test that no selected row passes, and that only rows of the selection may pass, no row passes.
pub All-unselect :
    {A : Type 0} (p q : A → Bool)
    → ((x : A) → q x ≡ true → p x ≡ true)
    → (xs : List A) → All (λ x. q x ≡ false) (select_rows p xs)
    → All (λ x. q x ≡ false) xs
unfolding select_rows
All-unselect p q within [] h = tt
All-unselect {A} p q within (x ∷ xs) h = elim (Bool-cases (q x)) [
  | inl hit ↦ absurd (clash (p x) (within x hit) hit h)
  | inr miss ↦ (miss, All-unselect p q within xs (rest (p x) h))
]
  where
    clash :
        (b : Bool)
        → b ≡ true
        → q x ≡ true
        → All (λ y. q y ≡ false) (if b then x ∷ select_rows p xs else select_rows p xs)
        → ⊥
    clash true e hit t = ground (arith, hit, t.0)
    clash false e hit t = ground (arith, e)

    rest :
        (b : Bool)
        → All (λ y. q y ≡ false) (if b then x ∷ select_rows p xs else select_rows p xs)
        → All (λ y. q y ≡ false) (select_rows p xs)
    rest true t = t.1
    rest false t = t

pub any_row-map :
    {A : Type 0} (f : A → ℕ) (xs : List A) (k : ℕ) {a : A}
    → Memᴰ a xs
    → f a ≡ k
    → any_row (λ i. i == k) (map f xs) ≡ true
unfolding any_row
any_row-map f [] k i h = absurd (Memᴰ.not-nil i)
any_row-map f (x ∷ xs) k (Memᴰ.head e) h = ground (arith, ap f e, h)
any_row-map f (x ∷ xs) k (Memᴰ.tail i) h = ground (arith, any_row-map f xs k i h)

module _ {A : Type 0} (before : A → A → Bool) where
  Mem-of-insert : (x : A) (xs : List A) {a : A} → Memᴰ a (insert_by before x xs) → Memᴰ a (x ∷ xs)
  unfolding insert_by
  Mem-of-insert x [] i = i
  Mem-of-insert x (y ∷ ys) {a} i = pick (before x y) (λ j. Mem-of-insert x ys j) i
    where
      pick :
          (b : Bool)
          → (Memᴰ a (insert_by before x ys) → Memᴰ a (x ∷ ys))
          → Memᴰ a (if b then x ∷ y ∷ ys else y ∷ insert_by before x ys)
          → Memᴰ a (x ∷ y ∷ ys)
      pick true below j = j
      pick false below (Memᴰ.head e) = Memᴰ.tail (Memᴰ.head e)
      pick false below (Memᴰ.tail j) = elim (below j) [
        | Memᴰ.head e ↦ Memᴰ.head e
        | Memᴰ.tail k ↦ Memᴰ.tail (Memᴰ.tail k)
      ]

  pub Mem-of-sort : (xs : List A) {a : A} → Memᴰ a (sort_by before xs) → Memᴰ a xs
  unfolding sort_by
  Mem-of-sort [] i = i
  Mem-of-sort (x ∷ xs) i = elim (Mem-of-insert x _ i) [
    | Memᴰ.head e ↦ Memᴰ.head e
    | Memᴰ.tail k ↦ Memᴰ.tail (Mem-of-sort xs k)
  ]

  module _ (P : A → Type 0) where
    All-uninsert : (x : A) (xs : List A) → All P (insert_by before x xs) → P x × All P xs
    unfolding insert_by
    All-uninsert x [] h = h
    All-uninsert x (y ∷ ys) h = pick (before x y) (λ t. All-uninsert x ys t) h
      where
        pick :
            (b : Bool)
            → (All P (insert_by before x ys) → P x × All P ys)
            → All P (if b then x ∷ y ∷ ys else y ∷ insert_by before x ys)
            → P x × All P (y ∷ ys)
        pick true below t = t
        pick false below (p, t) = let (q, r) = below t in (q, (p, r))

    pub All-unsort : (xs : List A) → All P (sort_by before xs) → All P xs
    unfolding sort_by
    All-unsort [] h = h
    All-unsort (x ∷ xs) h = let (p, t) = All-uninsert x _ h in (p, All-unsort xs t)
