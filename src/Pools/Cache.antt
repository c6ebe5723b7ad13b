-- ===== src/Pools/Cache.antt =====
-- platform/db/db.go: the TenantResolver. A pool is known by a number. `connected` is what New and Ping of
-- the pool library come to: a new pool, or an error.
use opero.Prelude.{
  ℕ, String, ◌≡◌, Option, none, some, List, [], ◌∷◌, str_eq, is_empty, if◌then◌else◌,
}

-- The map `pools`.
abbrev pub Cache : Type 0
Cache = List (String × ℕ)

unfoldable pub lookup : String → Cache → Option ℕ
lookup name [] = none
lookup name ((k, p) ∷ c) = if str_eq k name then some p else lookup name c

-- `r.pools[dbName] = pool`, of a new pool if there is one.
abbrev pub store_new : Option ℕ → String → Cache → Option ℕ × Cache
store_new none name c = (none, c)
store_new (some p) name c = (some p, (name, p) ∷ c)

-- The second look-up, under the write lock, and the new pool.
abbrev pub recheck : Option ℕ → Option ℕ → String → Cache → Option ℕ × Cache
recheck (some p) connected name c = (some p, c)
recheck none connected name c = store_new connected name c

unfoldable pub under_lock : Option ℕ → String → Cache → Option ℕ × Cache
unfolding lookup
under_lock connected name c = recheck (lookup name c) connected name c

abbrev pub or_lock : Option ℕ → Option ℕ → String → (Cache → Cache) → Cache → Option ℕ × Cache
or_lock (some p) connected name others c = (some p, c)
or_lock none connected name others c = under_lock connected name (others c)

-- Pool: `others` is what other goroutines do to the map between the two locks.
unfoldable pub pool : Option ℕ → String → (Cache → Cache) → Cache → Option ℕ × Cache
unfolding lookup under_lock
pool connected name others c =
    if is_empty name then (none, c) else or_lock (lookup name c) connected name others c

-- What a goroutine does under one lock.
pub data Event : Type 0 where
  returned : String → ℕ → Event
  failed : String → Event
  waiting : String → Event

abbrev pub outcome : String → Option ℕ → Event
outcome name none = failed name
outcome name (some p) = returned name p

-- The steps of all goroutines: a look-up under the read lock that hits or misses, and what follows a
-- miss under the write lock.
pub data Step : Cache → Event → Cache → Type 0 where
  hit : (name : String) (p : ℕ) (c : Cache) → lookup name c ≡ some p → Step c (returned name p) c
  miss : (name : String) (c : Cache) → lookup name c ≡ none → Step c (waiting name) c
  enter :
      (connected : Option ℕ) (name : String) (c c' : Cache) (o : Option ℕ)
      → under_lock connected name c ≡ (o, c')
      → Step c (outcome name o) c'

-- Runs, with the events in order.
pub data Run : Cache → List Event → Cache → Type 0 where
  stay : (c : Cache) → Run c [] c
  go :
      (c c' c'' : Cache) (e : Event) (es : List Event)
      → Step c e c'
      → Run c' es c''
      → Run c (e ∷ es) c''
