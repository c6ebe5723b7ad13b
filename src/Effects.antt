-- ===== src/Effects.antt =====
-- How a request runs. A service method is a state-passing function: it returns a Go result (a value
-- or an error) and the state that it leaves. Each SQL statement takes one turn of the environment,
-- which says what other requests commit just before it, whether the connection holds, what the
-- database's clock shows and which key `gen_random_uuid()` gives.
pub mod Error
pub mod Keeps
pub mod Triple
pub mod Transaction
pub mod Atomic
pub mod Runs
use opero.Prelude.{ℕ, String, Bool, true, false, Option, none, some, List, [], ◌∷◌, if◌then◌else◌}
use Error.{Err, Package, no_tenant}

-- What PostgreSQL answers: a row set, no row where one was asked for (`pgx.ErrNoRows`), an error
-- with an SQLSTATE code, or a failure with no code.
pub data Answer {ℓ} (A : Type ℓ) : Type ℓ where
  rows : A → Answer A
  no_rows : Answer A
  sql_error : String → Answer A
  broken : Answer A

-- The answer of a `:one` query.
abbrev pub one {ℓ} : {A : Type ℓ} → Option A → Answer A
one none = no_rows
one (some a) = rows a

pub data Result {ℓ} (A : Type ℓ) : Type ℓ where
  ok : A → Result A
  err : Err → Result A

-- `up`: the statement runs and its answer arrives. `cut`: it never reaches the database.
-- `lost`: it runs and commits, and its answer is lost.
pub data Link : Type 0 where
  up cut lost : Link

pub record Turn (S : Type 0) : Type 0 where
  pub rival : S → S
  pub link : Link
  pub now : ℕ
  pub fresh : ℕ

-- `pool` says whether the request's context holds a tenant pool. A request whose turns have run out
-- gets no further answer.
pub record World (S : Type 0) : Type 0 where
  pub pool : Bool
  pub db : S
  pub turns : List (Turn S)

-- A turn with no rival and no failure.
abbrev pub quiet : {S : Type 0} → ℕ → ℕ → Turn S
quiet now fresh = record { rival = λ s. s; link = up; now = now; fresh = fresh }

abbrev pub Query : Type 0 → Type 0 → Type 0
Query S A = ℕ → ℕ → S → Answer A × S

abbrev pub M : Type 0 → Type 0 → Type 0
M S A = World S → Result A × World S

module _ {S : Type 0} where
  unfoldable pub pure : {A : Type 0} → A → M S A
  pure a w = (ok a, w)

  unfoldable pub raise : {A : Type 0} → Err → M S A
  raise e w = (err e, w)

  -- `tenantStore`: the store of the request, from the pool of its context.
  unfoldable pub tenant_store : Package → M S Unit
  tenant_store p w = if w.pool then (ok tt, w) else (err (no_tenant p), w)

  abbrev pub continue : {A B : Type 0} → Result A → (A → M S B) → M S B
  continue (ok a) f w = f a w
  continue (err e) f w = (err e, w)

  abbrev pub deliver : {A : Type 0} → Link → Answer A × S → World S → Answer A × World S
  deliver up (r, s) w = (r, record w { db = s })
  deliver cut r w = (broken, w)
  deliver lost (r, s) w = (broken, record w { db = s })

  abbrev pub run_turn : {A : Type 0} → List (Turn S) → Query S A → World S → Answer A × World S
  run_turn [] q w = (broken, w)
  run_turn (t ∷ ts) q w =
      deliver t.link (q t.now t.fresh (t.rival w.db)) (record w { db = t.rival w.db; turns = ts })

  -- One statement.
  unfoldable pub exec : {A : Type 0} → Query S A → World S → Answer A × World S
  exec q w = run_turn w.turns q w

  -- A store method: a statement, its answer read by `read`.
  unfoldable pub query : {A B : Type 0} → (Answer A → Result B) → Query S A → M S B
  unfolding exec
  query read q w = let (r, w') = exec q w in (read r, w')

  -- The result of a call as a value: Go code that looks at the error.
  unfoldable pub attempt : {A : Type 0} → M S A → M S (Result A)
  attempt m w = let (r, w') = m w in (ok r, w')

  infixl 5 ◌>>=◌ ◌>>◌
  unfoldable pub ◌>>=◌ : {A B : Type 0} → M S A → (A → M S B) → M S B
  unfolding pure raise tenant_store
  ◌>>=◌ m f w = let (r, w') = m w in continue r f w'

  abbrev pub ◌>>◌ : {A B : Type 0} → M S A → M S B → M S B
  m >> k = m >>= λ _. k
