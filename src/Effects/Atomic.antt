-- ===== src/Effects/Atomic.antt =====
-- What one transaction leaves: either what was there, or all of what it did.
use opero.Prelude.{◌≡◌, refl, Bool, List, ◌∷◌, ◌⊎◌, inl, inr, arith}
use opero.Effects.{
  Answer, rows, no_rows, sql_error, broken, Result, ok, err, Link, up, cut, lost, Turn, World,
  Query, query, exec, deliver,
}
use opero.Effects.Error.{Err}
use opero.Effects.Transaction.{transaction, settle}

-- A value comes with the change of `s`; an error leaves `s`, or the change when the answer of the commit
-- is lost.
abbrev pub Whole : {S A : Type 0} → S → (S → Type 0) → Result A × World S → Type 0
Whole s Changed (ok a, w) = Changed w.db
Whole s Changed (err e, w) = (w.db ≡ s) ⊎ Changed w.db

-- Only a row set is read as a value.
abbrev pub ReadsRows : {A B : Type 0} → (Answer A → Result B) → Answer A → Type 0
ReadsRows {A} read (rows a) = Unit {0}
ReadsRows read a = (e : Err) × (read a ≡ err e)

module _ {S A B : Type 0} (read : Answer A → Result B) (reads : (a : Answer A) → ReadsRows read a)
    (q : Query S A) where
  failing :
      (s : S) (Changed : S → Type 0) (r : Result B) (w : World S) (e : Err)
      → r ≡ err e
      → (w.db ≡ s) ⊎ Changed w.db
      → Whole s Changed (r, w)
  failing s Changed (ok b) w e h k = absurd (ground arith)
  failing s Changed (err x) w e h k = k

  changed :
      (s : S) (Changed : S → Type 0) (r : Result B) (w : World S)
      → Changed w.db
      → Whole s Changed (r, w)
  changed s Changed (ok b) w k = k
  changed s Changed (err x) w k = inr k

  module _ (Changed : S → Type 0) (s : S) (start : World S) where
    arrive :
        (l : Link) (o : Answer A × S)
        → ((a : A) (s' : S) → o ≡ (rows a, s') → Changed s')
        → let (r, w) = deliver l (settle s o) (record start { db = s }) in
          Whole s Changed (read r, w)
    arrive up (rows a, s') k = changed s Changed _ _ (k a s' refl)
    arrive up (no_rows, s') k = let (e, h) = reads no_rows in failing s Changed _ _ e h (inl refl)
    arrive up (sql_error code, s') k =
        let (e, h) = reads (sql_error code) in failing s Changed _ _ e h (inl refl)
    arrive up (broken, s') k = let (e, h) = reads broken in failing s Changed _ _ e h (inl refl)
    arrive cut o k = let (e, h) = reads broken in failing s Changed _ _ e h (inl refl)
    arrive lost (rows a, s') k =
        let (e, h) = reads broken in failing s Changed _ _ e h (inr (k a s' refl))
    arrive lost (no_rows, s') k = let (e, h) = reads broken in failing s Changed _ _ e h (inl refl)
    arrive lost (sql_error code, s') k =
        let (e, h) = reads broken in failing s Changed _ _ e h (inl refl)
    arrive lost (broken, s') k = let (e, h) = reads broken in failing s Changed _ _ e h (inl refl)

  -- The turn of the transaction: what a rival left, then all or nothing.
  pub transaction-Whole :
      (Changed : S → Type 0) (pool : Bool) (db : S) (t : Turn S) (ts : List (Turn S))
      → ((a : A) (s' : S) → q t.now t.fresh (t.rival db) ≡ (rows a, s') → Changed s')
      → Whole
          (t.rival db)
          Changed
          (query read (transaction q) (record { pool = pool; db = db; turns = t ∷ ts }))
  unfolding query exec transaction
  transaction-Whole Changed pool db t ts changes =
      arrive Changed (t.rival db) (record { pool = pool; db = t.rival db; turns = ts }) t.link
        (q t.now t.fresh (t.rival db)) changes
