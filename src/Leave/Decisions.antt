-- ===== src/Leave/Decisions.antt =====
-- A decision on a leave request is final to the requests that come after it (leave/service.go, review).
use opero.Prelude.{
  ℕ, String, ◌≡◌, ◌⊎◌, inl, inr, sym, true, false, not, some, str_eq, arith, find_row,
}
use opero.Effects.{Result, ok, err, World}
use opero.Effects.Error.{leave, internal}
use opero.Effects.Keeps.{Holds, KeepsQuery, Keeps-tenant_store}
use opero.Effects.Triple.{
  Triple, Triple-pure, Triple-raise, Triple-if, Triple-bind, Triple-query, Triple-Keeps,
  Triple-weaken, Replied,
}
use opero.Tenant.{TenantDb, Call}
use opero.Leave.Types.{Request, status_pending}
use opero.Leave.Queries.{by_id}
use opero.Leave.Queries
use opero.Leave.Store
use opero.Leave.Service
use opero.Leave.Service.{err_validation}

-- The request that a look-up of the id finds.
abbrev pub IsStored : ℕ → Request → TenantDb → Type 0
IsStored i r db = find_row (by_id i) db.leave_requests ≡ some r

get-IsStored : (i : ℕ) (r : Request) → KeepsQuery (IsStored i r) (Queries.get_leave_request i)
unfolding Queries.get_leave_request
get-IsStored i r now fresh db h = h

abbrev Found : ℕ → Request → Result Request → World TenantDb → Type 0
Found i r x w = Holds (IsStored i r) w × ((x ≡ err internal) ⊎ (x ≡ ok r))

read_stored :
    (i : ℕ) (r : Request) (x : Result Request) (w : World TenantDb)
    → Replied (IsStored i r) Store.map_err (Queries.get_leave_request i) x w
    → Found i r x w
unfolding Queries.get_leave_request Store.map_err
read_stored i r x w (h, inl e) = (h, inl (sym e))
read_stored i r x w (h, inr ran) = (h, inr (sym (rw ran.started at ran.answered)))

module _ (i : ℕ) (r : Request) where
  get-Found :
      Triple
        (Holds (IsStored i r))
        (Store.get i)
        (λ a w. Holds (IsStored i r) w × (a ≡ r))
        (λ e. Holds (IsStored i r))
  unfolding Store.get
  get-Found =
      Triple-weaken _ (λ w h. h) (λ b w h. (h.0, found b w (read_stored i r (ok b) w h).1))
        (λ e w h. h.0) (Triple-query (IsStored i r) _ _ (get-IsStored i r))
    where
      found : (b : Request) (w : World TenantDb) → (ok b ≡ err internal) ⊎ (ok b ≡ ok r) → b ≡ r
      found b w e = ground arith

  -- A review of a decided request.
  abbrev pub Confirms : String → Call Request → Type 0
  Confirms target m =
      Triple (Holds (IsStored i r)) m
        (λ x w. Holds (IsStored i r) w × (x ≡ r) × (str_eq r.status target ≡ true))
        (λ e. Holds (IsStored i r))

  module _ (decided : str_eq r.status status_pending ≡ false) where
    confirm : (target : String) (reviewer : ℕ) → Confirms target (Service.review i target reviewer)
    unfolding Service.review
    confirm target reviewer = Triple-bind _ _ (Triple-Keeps _ (Keeps-tenant_store leave)) λ _.
        Triple-bind _ _ get-Found λ cur.
          Triple-if (str_eq cur.status target) _ _
            (λ same. Triple-pure cur (λ w h. (h.0, h.1, rw h.1 at same)))
            (λ other.
              Triple-if (not (str_eq cur.status status_pending)) _ _
                (λ _. Triple-raise err_validation (λ w h. h.0))
                (λ waits. record { run = λ w h. absurd (ground (arith, decided, h.1)) }))

    -- A request that is not pending stays as it is under an approval or a rejection that starts after
    -- the decision, whatever other requests that leave it alone do meanwhile. The approval or the
    -- rejection succeeds only if the request already has that status, and then returns it.
    pub decided-IsFinal :
        (reviewer : ℕ)
        → Confirms "approved" (Service.approve i reviewer)
          × Confirms "rejected" (Service.reject i reviewer)
    unfolding Service.approve Service.reject
    decided-IsFinal reviewer = (confirm "approved" reviewer, confirm "rejected" reviewer)
