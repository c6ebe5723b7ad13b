-- ===== src/Resolvers.antt =====
-- What packages take of one another: the interfaces `EmployeeResolver` (attendance, leave, roster) and
-- `ShiftResolver` (attendance). A result with `found = false` is `none`.
use opero.Prelude.{ℕ, String, Option, none, some}
use opero.Prelude.{◌≡◌, ◌⊎◌}
use opero.Effects.Keeps.{Keeps, Holds}
use opero.Effects.Triple.{Triple}
use opero.Tenant.{TenantDb, Call}

pub record EmployeeResolver : Type 0 where
  pub employee_id_by_user_id : ℕ → Call (Option ℕ)

pub record ShiftResolver : Type 0 where
  pub shift_owner_by_id : ℕ → Call (Option (ℕ × String))

-- A resolver only reads: it keeps whatever the other requests keep.
pub record EmployeeResolverReads (r : EmployeeResolver) : Type 1 where
  pub keeps : (P : TenantDb → Type 0) (user_id : ℕ) → Keeps P (r.employee_id_by_user_id user_id)

pub record ShiftResolverReads (r : ShiftResolver) : Type 1 where
  pub keeps : (P : TenantDb → Type 0) (shift_id : ℕ) → Keeps P (r.shift_owner_by_id shift_id)

-- What a lookup finds is nothing or a thing with `R`, and it writes nothing.
abbrev pub Answers : {A : Type 0} → (TenantDb → Type 0) → (A → Type 0) → Call (Option A) → Type 0
Answers P R m =
    Triple (Holds P) m
      (λ found w. Holds P w × ((found ≡ none) ⊎ ((a : _) × (found ≡ some a) × R a))) (λ e. Holds P)
