-- ===== src/Leave/Requests.antt =====
-- The requests of leave/service.go keep the invariant, whatever other requests commit between their
-- statements and wherever the connection fails.
use opero.Prelude.{ℕ, String, ◌≡◌, refl, false, Option, none, some, str_eq}
use opero.Effects.Keeps.{Keeps, Keeps-query, Keeps-bind, keeps_rules}
use opero.Resolvers.{EmployeeResolver, EmployeeResolverReads}
use opero.Leave.Types.{CreateInput}
use opero.Leave.Invariant
use opero.Leave.Invariant.{Inv}
use opero.Leave.Queries
use opero.Leave.Store
use opero.Leave.Service

get-Inv : (i : ℕ) → Keeps Inv (Store.get i)
unfolding Store.get Queries.get_leave_request
get-Inv i = Keeps-query _ _ (λ now fresh db v. v)

create-Inv : (emp : ℕ) (inp : CreateInput) → Keeps Inv (Store.create emp inp)
unfolding Store.create
create-Inv emp inp = Keeps-query _ _ (Invariant.create_leave_request-Inv emp inp)

set-Inv :
    (i : ℕ) (status : String) (reviewer : ℕ)
    → str_eq status "pending" ≡ false
    → Keeps Inv (Store.set_status i status (some reviewer))
unfolding Store.set_status
set-Inv i status reviewer p = Keeps-query _ _ (Invariant.set_leave_status-Inv i status reviewer p)

review-Inv :
    (i : ℕ) (target : String) (reviewer : ℕ)
    → str_eq target "pending" ≡ false
    → Keeps Inv (Service.review i target reviewer)
unfolding Service.review
review-Inv i target reviewer p = search (keeps_rules, get-Inv, set-Inv) depth 8

validate-Inv : (inp : CreateInput) → Keeps Inv (Service.validate_create inp)
unfolding Service.validate_create
validate-Inv inp = search keeps_rules depth 8

approve-Inv : (i reviewer : ℕ) → Keeps Inv (Service.approve i reviewer)
unfolding Service.approve
approve-Inv i reviewer = review-Inv i "approved" reviewer refl

reject-Inv : (i reviewer : ℕ) → Keeps Inv (Service.reject i reviewer)
unfolding Service.reject
reject-Inv i reviewer = review-Inv i "rejected" reviewer refl

module _ (employees : EmployeeResolver) (reads : EmployeeResolverReads employees) where
  create_for-Inv :
      (inp : CreateInput) (found : Option ℕ) → Keeps Inv (Service.create_for employees inp found)
  unfolding Service.create_for
  create_for-Inv inp none = search keeps_rules
  create_for-Inv inp (some emp) = search (keeps_rules, create-Inv)

  create_my_leave-Inv :
      (u : ℕ) (inp : CreateInput) → Keeps Inv (Service.create_my_leave employees u inp)
  unfolding Service.create_my_leave
  create_my_leave-Inv u inp =
      Keeps-bind _ _ (validate-Inv inp) λ _. Keeps-bind _ _ (reads.keeps Inv u) (create_for-Inv inp)

  -- A request for leave, an approval and a rejection keep the invariant: every request has one of the
  -- three kinds and of the three statuses, does not end before it starts, names a reviewer and a review
  -- time exactly when it is not pending, and has an id of its own. They do so under any interleaving with
  -- requests that keep it, and wherever the connection fails.
  pub leave_writes-Inv :
      (u i reviewer : ℕ) (inp : CreateInput)
      → Keeps Inv (Service.create_my_leave employees u inp)
        × Keeps Inv (Service.approve i reviewer)
        × Keeps Inv (Service.reject i reviewer)
  leave_writes-Inv u i reviewer inp =
      (create_my_leave-Inv u inp, approve-Inv i reviewer, reject-Inv i reviewer)
