-- ===== src/Effects/Keeps.antt =====
-- Invariants of requests. A request keeps `P` if it ends in a state with `P` from any state with `P`,
-- whatever it returns, as long as the other requests keep `P` too.
use opero.Prelude.{ℕ, ◌≡◌, refl, Bool, true, false, List, [], ◌∷◌, All, if◌then◌else◌}
use opero.Effects.{
  Answer, deliver, run_turn, continue, Result, ok, err, Turn, Link, up, cut, lost, World, Query, M,
  pure, raise, tenant_store, query, attempt, ◌>>=◌,
}
use opero.Effects.Error.{Err, Package, no_tenant}

-- The other requests keep `P`.
pub record Fair {S : Type 0} (P : S → Type 0) (t : Turn S) : Type 0 where
  pub rival_keeps : (s : S) → P s → P (t.rival s)

pub record Holds {S : Type 0} (P : S → Type 0) (w : World S) : Type 0 where
  pub holds : P w.db
  pub fair : All (Fair P) w.turns

pub record Keeps {S A : Type 0} (P : S → Type 0) (m : M S A) : Type 0 where
  pub at : (w : World S) → Holds P w → Holds P (m w).1

abbrev pub KeepsQuery : {S A : Type 0} → (S → Type 0) → Query S A → Type 0
KeepsQuery {S} P q = (now fresh : ℕ) (s : S) → P s → P (q now fresh s).1

module _ {S A : Type 0} {P : S → Type 0} where
  pub Keeps-attempt : (m : M S A) → Keeps P m → Keeps P (attempt m)
  unfolding attempt
  Keeps-attempt m k = record { at = λ w h. k.at w h }

  pub Keeps-raise : (e : Err) → Keeps P (raise {A = A} e)
  unfolding raise
  Keeps-raise e = record { at = λ _ holds. holds }

  pub Keeps-if :
      (test : Bool) (m n : M S A)
      → (test ≡ true → Keeps P m)
      → (test ≡ false → Keeps P n)
      → Keeps P (if test then m else n)
  Keeps-if false m n keep_yes keep_no = keep_no refl
  Keeps-if true m n keep_yes keep_no = keep_yes refl

  pub Keeps-pure : (a : A) → Keeps P (pure a)
  unfolding pure
  Keeps-pure a = record { at = λ _ holds. holds }

module _ {S A : Type 0} {P : S → Type 0} where
  Holds-turn :
      (ts : List (Turn S)) (q : Query S A) (w : World S)
      → KeepsQuery P q
      → Holds P w
      → All (Fair P) ts
      → Holds P (run_turn ts q w).1
  Holds-turn [] q w k h f = h
  Holds-turn (t ∷ ts) q w k h f = deliver-Holds t.link
    where
      before : P (t.rival w.db)
      before = (f.0).rival_keeps w.db h.holds

      deliver-Holds :
          (l : Link)
          → Holds P
              (deliver l
                (q t.now t.fresh (t.rival w.db))
                (record w { db = t.rival w.db; turns = ts })).1
      deliver-Holds up = record { holds = k t.now t.fresh (t.rival w.db) before; fair = f.1 }
      deliver-Holds cut = record { holds = before; fair = f.1 }
      deliver-Holds lost = record { holds = k t.now t.fresh (t.rival w.db) before; fair = f.1 }

module _ {S A B : Type 0} {P : S → Type 0} where
  Keeps-continue :
      (r : Result A) (f : A → M S B) → ((a : A) → Keeps P (f a)) → Keeps P (λ w. continue r f w)
  Keeps-continue (ok a) f k = record { at = λ w h. (k a).at w h }
  Keeps-continue (err e) f k = record { at = λ w h. h }

  pub Keeps-bind :
      (m : M S A) (f : A → M S B) → Keeps P m → ((a : A) → Keeps P (f a)) → Keeps P (m >>= f)
  unfolding ◌>>=◌
  Keeps-bind m f km kf = record {
    at = λ w h. let (r, w') = m w in (Keeps-continue r f kf).at w' (km.at w h);
  }

  pub Keeps-query :
      (read : Answer A → Result B) (q : Query S A) → KeepsQuery P q → Keeps P (query read q)
  unfolding query
  Keeps-query read q k = record { at = λ w h. Holds-turn w.turns q w k h h.fair }

module _ {S : Type 0} {P : S → Type 0} where
  Holds-if :
      (b : Bool) (r r' : Result (Unit {0})) (w : World S)
      → Holds P w
      → Holds P (if◌then◌else◌ {A = Result (Unit {0}) × World S} b (r, w) (r', w)).1
  Holds-if true r r' w h = h
  Holds-if false r r' w h = h

  pub Keeps-tenant_store : (p : Package) → Keeps P (tenant_store {S = S} p)
  unfolding tenant_store
  Keeps-tenant_store p = record { at = λ w h. Holds-if w.pool (ok tt) (err (no_tenant p)) w h }

pub ruleset keeps_rules =
    (Keeps-pure, Keeps-raise, Keeps-if, Keeps-attempt, Keeps-bind, Keeps-query, Keeps-tenant_store)
