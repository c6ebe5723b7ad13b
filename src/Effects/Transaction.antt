-- ===== src/Effects/Transaction.antt =====
-- Transactions (pool.Begin, the statements, Commit): they run one after the other, and an answer that
-- is no row set rolls back what they did. The whole is one turn: the link of the turn says whether the
-- commit reached the database and whether its answer arrived.
use opero.Prelude.{ℕ, ◌≡◌, refl, arith}
use opero.Effects.{Answer, rows, no_rows, sql_error, broken, Query}

module _ {S : Type 0} where
  abbrev pub carry : {A B : Type 0} → Answer A × S → (A → S → Answer B × S) → Answer B × S
  carry (rows a, s) k = k a s
  carry (no_rows, s) k = (no_rows, s)
  carry (sql_error code, s) k = (sql_error code, s)
  carry (broken, s) k = (broken, s)

  -- The next statement, unless this one fails.
  unfoldable pub then_run : {A B : Type 0} → Query S A → (A → Query S B) → Query S B
  then_run q k now fresh s = carry (q now fresh s) (λ a. k a now fresh)

  abbrev pub settle : {A : Type 0} → S → Answer A × S → Answer A × S
  settle s (rows a, s') = (rows a, s')
  settle s (no_rows, s') = (no_rows, s)
  settle s (sql_error code, s') = (sql_error code, s)
  settle s (broken, s') = (broken, s)

  unfoldable pub transaction : {A : Type 0} → Query S A → Query S A
  transaction q now fresh s = settle s (q now fresh s)

  unfoldable pub answer : {A : Type 0} → A → Query S A
  answer a now fresh s = (rows a, s)

  -- Two statements that end with rows did so each.
  pub then_run-rows :
      {A B : Type 0} (q : Query S A) (k : A → Query S B) (now fresh : ℕ) (s : S) (b : B) (s' : S)
      → then_run q k now fresh s ≡ (rows b, s')
      → (a : A) × (m : S) × (q now fresh s ≡ (rows a, m)) × (k a now fresh m ≡ (rows b, s'))
  unfolding then_run
  then_run-rows {A} {B} q k now fresh s b s' = go (q now fresh s)
    where
      go :
          (o : Answer A × S)
          → carry o (λ a. k a now fresh) ≡ (rows b, s')
          → (a : A) × (m : S) × (o ≡ (rows a, m)) × (k a now fresh m ≡ (rows b, s'))
      go (rows a, m) h = (a, m, refl, h)
      go (no_rows, m) h = absurd (ground arith)
      go (sql_error code, m) h = absurd (ground arith)
      go (broken, m) h = absurd (ground arith)
