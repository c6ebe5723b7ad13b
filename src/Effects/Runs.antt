-- ===== src/Effects/Runs.antt =====
-- Runs of requests, step by step: what a sequence of calls returns and leaves when its first call is
-- known to return and to leave.
use opero.Prelude.{ℕ, ◌≡◌, false, ap, List, ◌∷◌}
use opero.Effects.{
  Answer, Result, ok, err, Link, Turn, World, Query, M, attempt, query, exec, deliver, continue,
  ◌>>=◌,
}
use opero.Effects.Error.{Err}

-- A turn that no rival comes before.
abbrev pub calm : {S : Type 0} → Link → ℕ → ℕ → Turn S
calm link now fresh = record { rival = λ s. s; link = link; now = now; fresh = fresh }

abbrev pub world : {S : Type 0} → S → List (Turn S) → World S
world db turns = record { pool = false; db = db; turns = turns }

module _ {S A B : Type 0} where
  pub bind-ok :
      (m : M S A) (f : A → M S B) {w w' : World S} {a : A} → m w ≡ (ok a, w') → (m >>= f) w ≡ f a w'
  unfolding ◌>>=◌
  bind-ok m f e = ap (λ o. continue o.0 f o.1) e

  pub bind-err :
      (m : M S A) (f : A → M S B) {w w' : World S} {e : Err}
      → m w ≡ (err e, w')
      → (m >>= f) w ≡ (err e, w')
  unfolding ◌>>=◌
  bind-err m f h = ap (λ o. continue o.0 f o.1) h

  pub bind-attempt :
      (m : M S A) (f : Result A → M S B) {w w' : World S} {r : Result A}
      → m w ≡ (r, w')
      → (attempt m >>= f) w ≡ f r w'
  unfolding ◌>>=◌ attempt
  bind-attempt m f h = ap (λ o. f o.0 o.1) h

  -- A statement in a turn without a rival.
  pub query-calm :
      (read : Answer A → Result B) (q : Query S A) (l : Link) (t k : ℕ) (s s' : S) (a : Answer A)
      (ts : List (Turn S))
      → q t k s ≡ (a, s')
      → query read q (world s (calm l t k ∷ ts))
        ≡ (let (r, w) = deliver l (a, s') (world s ts) in (read r, w))
  unfolding query exec
  query-calm read q l t k s s' a ts h =
      ap (λ o. let (r, w) = deliver l o (world s ts) in (read r, w)) h
