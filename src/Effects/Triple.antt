-- ===== src/Effects/Triple.antt =====
-- What a request returns and leaves. From a state with `P`, a request with `Triple P m Q E` ends with
-- `Q` of its value and its final state, or with `E` of its error and its final state.
use opero.Prelude.{
  ℕ, ◌≡◌, refl, Bool, true, false, List, [], ◌∷◌, if◌then◌else◌, ◌⊎◌, inl, inr, All,
}
use opero.Effects.{
  Answer, broken, Result, ok, err, Link, up, cut, lost, Turn, World, Query, M, pure, raise, query,
  attempt, ◌>>=◌, deliver, run_turn, continue,
}
use opero.Effects.Error.{Err}
use opero.Effects.Keeps.{Keeps, KeepsQuery, Holds, Fair}

abbrev pub Outcome :
    {S A : Type 0} → (A → World S → Type 0) → (Err → World S → Type 0) → Result A × World S → Type 0
Outcome Q E (ok a, w) = Q a w
Outcome Q E (err e, w) = E e w

pub record Triple {S A : Type 0} (P : World S → Type 0) (m : M S A) (Q : A → World S → Type 0)
    (E : Err → World S → Type 0) : Type 0 where
  pub run : (w : World S) → P w → Outcome Q E (m w)

-- No claim about errors, or about the state.
abbrev pub AnyError : {S : Type 0} → Err → World S → Type 0
AnyError e w = Unit {0}

abbrev pub AnyState : {S : Type 0} → World S → Type 0
AnyState w = Unit {0}

module _ {S A : Type 0} {P : World S → Type 0} {Q : A → World S → Type 0}
    {E : Err → World S → Type 0} where
  pub Triple-pure : (a : A) → ((w : World S) → P w → Q a w) → Triple P (pure a) Q E
  unfolding pure
  Triple-pure a h = record { run = h }

  pub Triple-raise : (e : Err) → ((w : World S) → P w → E e w) → Triple P (raise e) Q E
  unfolding raise
  Triple-raise e h = record { run = h }

  pub Triple-if :
      (b : Bool) (m n : M S A)
      → (b ≡ true → Triple P m Q E)
      → (b ≡ false → Triple P n Q E)
      → Triple P (if b then m else n) Q E
  Triple-if true m n km kn = km refl
  Triple-if false m n km kn = kn refl

bind-Outcome :
    {S A B : Type 0} (R : A → World S → Type 0) (Q : B → World S → Type 0)
    (E : Err → World S → Type 0) (f : A → M S B) (r : Result A) (w : World S)
    → ((a : A) → Triple (R a) (f a) Q E)
    → Outcome R E (r, w)
    → Outcome Q E (continue r f w)
bind-Outcome R Q E f (ok a) w k h = (k a).run w h
bind-Outcome R Q E f (err e) w k h = h

-- A fact of the precondition that is not about the state.
pub Triple-fact :
    {S A : Type 0} {F : Type 0} {P : World S → Type 0} {Q : A → World S → Type 0}
    {E : Err → World S → Type 0} (m : M S A)
    → (F → Triple P m Q E)
    → Triple (λ w. P w × F) m Q E
Triple-fact m k = record { run = λ w h. (k h.1).run w h.0 }

module _ {S A B : Type 0} {P : World S → Type 0} {R : A → World S → Type 0}
    {Q : B → World S → Type 0} {E : Err → World S → Type 0} where
  pub Triple-bind :
      (m : M S A) (f : A → M S B)
      → Triple P m R E
      → ((a : A) → Triple (R a) (f a) Q E)
      → Triple P (m >>= f) Q E
  unfolding ◌>>=◌
  Triple-bind m f km kf = record {
    run = λ w h. let (r, w') = m w in bind-Outcome R Q E f r w' kf (km.run w h);
  }

attempt-Outcome :
    {S A : Type 0} (Q : Result A → World S → Type 0) (r : Result A) (w : World S)
    → Outcome (λ a. Q (ok a)) (λ e. Q (err e)) (r, w)
    → Q r w
attempt-Outcome Q (ok a) w h = h
attempt-Outcome Q (err e) w h = h

module _ {S A : Type 0} {P : World S → Type 0} {Q : Result A → World S → Type 0}
    {E : Err → World S → Type 0} where
  pub Triple-attempt :
      (m : M S A) → Triple P m (λ a. Q (ok a)) (λ e. Q (err e)) → Triple P (attempt m) Q E
  unfolding attempt
  Triple-attempt m k = record {
    run = λ w h. let (r, w') = m w in attempt-Outcome Q r w' (k.run w h);
  }

-- The result `r` came of the statement, run at some instant with some key on some state with `I`, and
-- the state that it left is the final one.
pub record Ran {S A B : Type 0} (I : S → Type 0) (read : Answer A → Result B) (q : Query S A)
    (r : Result B) (w : World S) : Type 0 where
  pub now : ℕ
  pub fresh : ℕ
  pub before : S
  pub started : I before
  pub answered : read (q now fresh before).0 ≡ r
  pub left : w.db ≡ (q now fresh before).1

module _ {S A B : Type 0} (I : S → Type 0) (read : Answer A → Result B) (q : Query S A) where
  -- The invariant holds, and the result is that of a broken connection or that of the statement.
  abbrev pub Replied : Result B → World S → Type 0
  Replied r w = Holds I w × ((read broken ≡ r) ⊎ Ran I read q r w)

  replied :
      (r : Result B) (w : World S)
      → Replied r w
      → Outcome (λ b. Replied (ok b)) (λ e. Replied (err e)) (r, w)
  replied (ok b) w h = h
  replied (err e) w h = h

  module _ (keeps : KeepsQuery I q) where
    Replied-turn :
        (ts : List (Turn S)) (w : World S)
        → Holds I w
        → All (Fair I) ts
        → let (r, w') = run_turn ts q w in Replied (read r) w'
    Replied-turn [] w h f = (h, inl refl)
    Replied-turn (t ∷ ts) w h f = arrive t.link
      where
        start : World S
        start = record w { db = t.rival w.db; turns = ts }

        before : I (t.rival w.db)
        before = (f.0).rival_keeps w.db h.holds

        after : Holds I (record start { db = (q t.now t.fresh (t.rival w.db)).1 })
        after = record { holds = keeps t.now t.fresh _ before; fair = f.1 }

        arrive :
            (l : Link)
            → let (r, w') = deliver l (q t.now t.fresh (t.rival w.db)) start in Replied (read r) w'
        arrive up = (
          after,
          inr (record {
            now = t.now;
            fresh = t.fresh;
            before = t.rival w.db;
            started = before;
            answered = refl;
            left = refl;
          }),
        )
        arrive cut = (record { holds = before; fair = f.1 }, inl refl)
        arrive lost = (after, inl refl)

    pub Triple-query : Triple (Holds I) (query read q) (λ b. Replied (ok b)) (λ e. Replied (err e))
    unfolding query
    Triple-query = record { run = λ w h. replied _ _ (Replied-turn w.turns w h h.fair) }

module _ {S A : Type 0} {I : S → Type 0} where
  Keeps-Outcome :
      (r : Result A) (w : World S) → Holds I w → Outcome (λ _. Holds I) (λ _. Holds I) (r, w)
  Keeps-Outcome (ok a) w h = h
  Keeps-Outcome (err e) w h = h

  -- An invariant is a triple.
  pub Triple-Keeps : (m : M S A) → Keeps I m → Triple (Holds I) m (λ _. Holds I) (λ _. Holds I)
  Triple-Keeps m k = record { run = λ w h. let (r, w') = m w in Keeps-Outcome r w' (k.at w h) }

-- Every state has the trivial invariant.
pub Holds-Unit : {S : Type 0} (w : World S) → Holds (λ _. Unit {0}) w
Holds-Unit {S} w = record { holds = tt; fair = all w.turns }
  where
    all : (ts : List (Turn S)) → All (Fair {S = S} (λ _. Unit {0})) ts
    all [] = tt
    all (t ∷ ts) = (record { rival_keeps = λ s h. tt }, all ts)

weaken :
    {S A : Type 0} {Q Q' : A → World S → Type 0} {E E' : Err → World S → Type 0}
    (q : (a : A) (w : World S) → Q a w → Q' a w) (e : (x : Err) (w : World S) → E x w → E' x w)
    (r : Result A) (w : World S)
    → Outcome Q E (r, w)
    → Outcome Q' E' (r, w)
weaken q e (ok a) w h = q a w h
weaken q e (err x) w h = e x w h

-- Weaker conclusions from a stronger assumption.
module _ {S A : Type 0} {P P' : World S → Type 0} {Q Q' : A → World S → Type 0}
    {E E' : Err → World S → Type 0} where
  pub Triple-weaken :
      (m : M S A)
      → ((w : World S) → P' w → P w)
      → ((a : A) (w : World S) → Q a w → Q' a w)
      → ((e : Err) (w : World S) → E e w → E' e w)
      → Triple P m Q E
      → Triple P' m Q' E'
  Triple-weaken m p q e k = record {
    run = λ w h.
        let (r, w') = m w in weaken {Q = Q} {Q' = Q'} {E = E} {E' = E'} q e r w' (k.run w (p w h));
  }
