-- ===== src/Pools/Sharing.antt =====
-- The TenantResolver against what it stands for: a partial function of the name of a database that, once
-- it has a value, keeps it.
use opero.Prelude.{
  ℕ, String, ◌≡◌, refl, sym, ap, subst, eq_iff, ◌∙◌, true, false, Option, none, some, List, [], ◌∷◌,
  ◌++◌, ◌⊎◌, inl, inr, arith, str_eq, is_empty, All, Bool-cases, Option-cases, eq_refl,
}
use opero.Pools.Cache.{
  Cache, Event, returned, failed, waiting, Step, hit, miss, enter, Run, stay, go, lookup,
  under_lock, store_new, outcome, pool,
}

-- The pools by name.
abbrev pub Pools : Type 0
Pools = String → Option ℕ

abbrev pub view : Cache → Pools
view c name = lookup name c

-- What a step may do: to return the pool of the name, which it may have given to that name alone if it
-- had none, or to change nothing.
abbrev pub SpecStep : Pools → Event → Pools → Type 0
SpecStep f (returned n p) g =
    (g n ≡ some p) × ((m : String) → (g m ≡ f m) ⊎ ((f m ≡ none) × (str_eq n m ≡ true)))
SpecStep f (failed n) g = (m : String) → g m ≡ f m
SpecStep f (waiting n) g = (m : String) → g m ≡ f m

-- A pool that was returned is that of its name.
abbrev pub Agrees : Cache → Event → Type 0
Agrees c (returned n p) = lookup n c ≡ some p
Agrees c (failed n) = Unit
Agrees c (waiting n) = Unit

abbrev Refines : String → Cache → Option ℕ × Cache → Type 0
Refines name c (o, c') = SpecStep (view c) (outcome name o) (view c')

store_new-Refines :
    (connected : Option ℕ) (name : String) (c : Cache)
    → lookup name c ≡ none
    → Refines name c (store_new connected name c)
unfolding lookup
store_new-Refines none name c e = λ m. refl
store_new-Refines (some p) name c e = (
  rw (eq_refl name) refl,
  λ m. elim (Bool-cases (str_eq name m)) [
    | inl same ↦ inr (ap (λ n. lookup n c) (sym ((eq_iff name m).0 same)) ∙ e, same)
    | inr other ↦ inl (rw other refl)
  ],
)

under_lock-Refines :
    (connected : Option ℕ) (name : String) (c : Cache)
    → Refines name c (under_lock connected name c)
unfolding under_lock
under_lock-Refines connected name c = elim (Option-cases (lookup name c)) [
  | inl e ↦ rw e (store_new-Refines connected name c e)
  | inr (p, e) ↦ rw e (e, λ m. inl refl)
]

Step-Refines : {c c' : Cache} {e : Event} → Step c e c' → SpecStep (view c) e (view c')
Step-Refines (hit name p c h) = (h, λ m. inl refl)
Step-Refines (miss name c h) = λ m. refl
Step-Refines (enter connected name c c' o h) =
    subst (Refines name c) h (under_lock-Refines connected name c)

grown :
    (f g : Pools) (e : Event) (m : String) (p : ℕ) → SpecStep f e g → f m ≡ some p → g m ≡ some p
grown f g (returned n q) m p s h = elim (s.1 m) [
  | inl same ↦ same ∙ h
  | inr (unset, here) ↦ absurd (ground (arith, h, unset))
]
grown f g (failed n) m p s h = s m ∙ h
grown f g (waiting n) m p s h = s m ∙ h

Run-grows :
    {c c' : Cache} {es : List Event} (m : String) (p : ℕ)
    → Run c es c'
    → lookup m c ≡ some p
    → lookup m c' ≡ some p
Run-grows m p (stay c) h = h
Run-grows m p (go c c' c'' e es s run) h =
    Run-grows m p run (grown (view c) (view c') e m p (Step-Refines s) h)

kept :
    {c c' : Cache} {es : List Event} (d : Cache) (e : Event)
    → SpecStep (view d) e (view c)
    → Run c es c'
    → Agrees c' e
kept d (returned n p) s run = Run-grows n p run s.0
kept d (failed n) s run = tt
kept d (waiting n) s run = tt

Run-Agrees : {c c' : Cache} {es : List Event} → Run c es c' → All (Agrees c') es
Run-Agrees (stay c) = tt
Run-Agrees (go c c' c'' e es s run) = (kept c e (Step-Refines s) run, Run-Agrees run)

Run-append :
    {c c' c'' : Cache} {es : List Event} (e : Event)
    → Run c es c'
    → Step c' e c''
    → Run c (es ++ (e ∷ [])) c''
Run-append {c''} e (stay c) s = go c c'' c'' e [] s (stay c'')
Run-append {c''} e (go c d c' x es first run) s =
    go c d c'' x (es ++ (e ∷ [])) first (Run-append e run s)

-- A call of Pool is a hit, or a miss, what the others do meanwhile, and the part under the write lock.
pool-IsRun :
    (connected : Option ℕ) (name : String) (others : Cache → Cache) (c : Cache) (es : List Event)
    → is_empty name ≡ false
    → Run c es (others c)
    → let (o, c') = pool connected name others c in
      (events : List Event) × Run c events c' × Agrees c' (outcome name o)
unfolding pool
pool-IsRun connected name others c es given run = elim (Option-cases (lookup name c)) [
  | inr (p, e) ↦ rw (given, e) (returned name p ∷ [], go c c c _ [] (hit name p c e) (stay c), e)
  | inl e ↦
      rw (given, e)
        (
          waiting name ∷ (es ++ (outcome name (under_lock connected name (others c)).0 ∷ [])),
          go c c _ (waiting name) _ (miss name c e)
              (Run-append _ run (enter connected name (others c) _ _ refl)),
          kept (others c) _ (under_lock-Refines connected name (others c)) (stay _),
        )
]

-- Every step of a goroutine on the map of pools is one of a partial function of the name that only
-- grows, at the name that it is asked for. So after a run of any goroutines in any order, each pool that
-- was returned for a name is the one that the map holds: all requests of a database share one pool. A
-- call of Pool for a name that is not empty is such steps, with those of others between its two locks,
-- and returns no pool but the one that the map then holds.
pub pool-Refines :
    ((c c' : Cache) (e : Event) → Step c e c' → SpecStep (view c) e (view c'))
    × ((c c' : Cache) (es : List Event) → Run c es c' → All (Agrees c') es)
    × ((connected : Option ℕ) (name : String) (others : Cache → Cache) (c : Cache) (es : List Event)
        → is_empty name ≡ false
        → Run c es (others c)
        → let (o, c') = pool connected name others c in
          (events : List Event) × Run c events c' × Agrees c' (outcome name o))
pool-Refines = (λ c c' e s. Step-Refines s, λ c c' es run. Run-Agrees run, pool-IsRun)
