-- ===== src/Controlplane/Platform/Lists.antt =====
-- The lists and counts of the platform (controlplane/service.go, PlatformListAuditEvents and
-- PlatformSystemHealth).
use opero.Prelude.{
  ℕ, ◌+◌, ◌≤◌, String, ◌≡◌, refl, sym, ap, suc, Bool, Option, none, some, List, [], ◌∷◌, inl, inr,
  arith, length, leb, str_eq, str_eq-of-eq, Bool-cases, count_rows, take_rows, if◌then◌else◌,
}
use opero.Prelude.Int.{ℤ, pos, negsuc}
use opero.Prelude.Sorting.{Ordered, sort-Ordered, Ordered-collect, Ordered-take, length-take}
use opero.Effects.{ok, Turn, quiet, pure, exec, query, ◌>>=◌}
use opero.Controlplane.Types.{
  Tenant, PlatformUser, AuditRow, SuperAdminAuditEvent, SystemHealth, ControlDb,
}
use opero.Controlplane.Queries.{count_in, status_counts}
use opero.Controlplane.Queries as TenantQueries
use opero.Controlplane.Store as Tenants
use opero.Controlplane.Platform.Queries
use opero.Controlplane.Platform.Queries.{event_view}
use opero.Controlplane.Platform.Store
use opero.Controlplane.Platform.Service

-- How often the counts say that a status occurs, over all their entries.
abbrev pub count_of : String → List (String × ℕ) → ℕ
count_of s [] = 0
count_of s ((k, n) ∷ counts) = (if str_eq k s then n else 0) + count_of s counts

abbrev pub total : List (String × ℕ) → ℕ
total [] = 0
total ((k, n) ∷ counts) = n + total counts

event_view-created :
    (u : Option PlatformUser) (t : Option Tenant) (e : AuditRow) (v : SuperAdminAuditEvent)
    → event_view u t e ≡ some v
    → v.created_at ≡ e.created_at
event_view-created none t e v h = absurd (ground arith)
event_view-created (some u) t e v h = ap (λ o. created o e.created_at) (sym h)
  where
    created : Option SuperAdminAuditEvent → ℕ → ℕ
    created none n = n
    created (some v) n = v.created_at

audit_limit-IsBounded :
    (limit : ℤ) → (1 ≤ Service.audit_limit limit) × (Service.audit_limit limit ≤ 200)
unfolding Service.audit_limit
audit_limit-IsBounded (pos n) = ground arith
audit_limit-IsBounded (negsuc n) = ground arith

audit_limit-Given : (limit : ℤ) (n : ℕ) → limit ≡ pos (suc n) → Service.audit_limit limit ≤ suc n
unfolding Service.audit_limit
audit_limit-Given limit n e = rw e (ground arith)

taken : {A : Type 0} (n m : ℕ) (xs : List A) → n ≤ m → length (take_rows n xs) ≤ m
taken n m xs h = ground (arith, length-take n xs)

-- A list of audit events, with no other request meanwhile, has at most two hundred events, at most as
-- many as a positive limit asks for, and it is latest first.
pub audit_list-IsBounded :
    (db : ControlDb) (pool : Bool) (t k : ℕ) (rest : List (Turn ControlDb))
    (tenant_id actor_id : Option ℕ) (action : Option String) (limit : ℤ)
    → (found : List SuperAdminAuditEvent) × (Service.platform_list_audit_events tenant_id actor_id
          action limit
          (record { pool = pool; db = db; turns = quiet t k ∷ rest })
        ≡ (ok found, record { pool = pool; db = db; turns = rest }))
      × (length found ≤ 200)
      × ((n : ℕ) → limit ≡ pos (suc n) → length found ≤ suc n)
      × Ordered (λ a b. leb b.created_at a.created_at) found
unfolding Service.platform_list_audit_events Store.list_super_admin_audit_events Tenants.map_err
    Queries.list_super_admin_audit_events query exec
audit_list-IsBounded db pool t k rest tenant_id actor_id action limit = (
  _,
  refl,
  taken (Service.audit_limit limit) 200 _ (audit_limit-IsBounded limit).1,
  λ n e. taken (Service.audit_limit limit) (suc n) _ (audit_limit-Given limit n e),
  Ordered-take _ _ _ (
      Ordered-collect _ (λ e. e.created_at) (λ v. v.created_at)
        (λ e v h. event_view-created _ _ e v h) _
        (sort-Ordered (λ a b. leb b.created_at a.created_at) (λ a b h. ground arith)
          (λ a b c h k. ground arith) _)),
)

count_of-count_in :
    (s s' : String) (counts : List (String × ℕ))
    → count_of s (count_in s' counts) ≡ (if str_eq s' s then 1 else 0) + count_of s counts
count_of-count_in s s' [] = ground arith
count_of-count_in s s' ((k, n) ∷ counts) = elim (Bool-cases (str_eq k s')) [
  | inl e ↦ rw (e, str_eq-of-eq k s' s e refl) (ground arith)
  | inr e ↦ rw (e, count_of-count_in s s' counts) (ground arith)
]

total-count_in :
    (s : String) (counts : List (String × ℕ)) → total (count_in s counts) ≡ 1 + total counts
total-count_in s [] = refl
total-count_in s ((k, n) ∷ counts) = elim (Bool-cases (str_eq k s)) [
  | inl e ↦ rw e (ground arith)
  | inr e ↦ rw (e, total-count_in s counts) (ground arith)
]

count_of-statuses :
    (s : String) (ts : List Tenant)
    → count_of s (status_counts ts) ≡ count_rows (λ t. str_eq t.status s) ts
unfolding count_rows
count_of-statuses s [] = refl
count_of-statuses s (t ∷ ts) =
    rw (count_of-count_in s t.status (status_counts ts), count_of-statuses s ts) refl

total-statuses : (ts : List Tenant) → total (status_counts ts) ≡ length ts
total-statuses [] = refl
total-statuses (t ∷ ts) =
    rw (total-count_in t.status (status_counts ts), total-statuses ts) (ground arith)

-- The health of the system, with no other request meanwhile, tells for each status how many tenants
-- have it, and the numbers add up to that of all tenants.
pub platform_system_health-Counts :
    (db : ControlDb) (pool : Bool) (t k : ℕ) (rest : List (Turn ControlDb))
    → (health : SystemHealth) × (Service.platform_system_health
          (record { pool = pool; db = db; turns = quiet t k ∷ rest })
        ≡ (ok health, record { pool = pool; db = db; turns = rest }))
      × ((s : String)
          → count_of s health.tenants_by_status ≡ count_rows (λ t. str_eq t.status s) db.tenants)
      × (total health.tenants_by_status ≡ length db.tenants)
unfolding Service.platform_system_health Tenants.count_tenants_by_status Tenants.map_err
    TenantQueries.count_tenants_by_status query exec ◌>>=◌ pure
platform_system_health-Counts db pool t k rest =
    (_, refl, λ s. count_of-statuses s db.tenants, total-statuses db.tenants)
