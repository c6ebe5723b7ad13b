-- ===== src/Controlplane/Platform/Audit.antt =====
-- The changes that Opero's staff make to tenants and users, and their audit events
-- (controlplane/service.go, PlatformUpdateTenant and PlatformUpdateUser; store.go, InTx).
use opero.Prelude.{
  ℕ, String, ◌≡◌, refl, Bool, true, false, Option, some, List, [], ◌∷◌, ◌⊎◌, inl, inr, arith,
  update_rows, find_row, Option-cases, Bool-cases, find_row-holds, ◌∙◌, str_eq, trim_space,
  if◌then◌else◌, not,
}
use opero.Effects.{Answer, rows, no_rows, sql_error, broken, err, World, Turn, raise}
use opero.Effects.Error.{controlplane, validation, internal, conflict, not_found}
use opero.Effects.Transaction.{then_run, answer, then_run-rows}
use opero.Effects.Atomic.{Whole, ReadsRows, transaction-Whole}
use opero.Controlplane.Types.{Tenant, User, ControlDb, AuditRow, Metadata, Statement}
use opero.Controlplane.Store as Tenants
use opero.Controlplane.Queries as TenantQueries
use opero.Controlplane.Queries.{tenant_by_id, platform_tenant, user_by_id, user_with_status}
use opero.Controlplane.Platform.Queries
use opero.Controlplane.Platform.Queries.{new_audit_event}
use opero.Controlplane.Platform.Service

map_err-ReadsRows : {A : Type 0} (a : Answer A) → ReadsRows Tenants.map_err a
unfolding Tenants.map_err
map_err-ReadsRows (rows a) = tt
map_err-ReadsRows no_rows = (not_found controlplane, refl)
map_err-ReadsRows (sql_error code) = elim (Bool-cases (str_eq code "23505")) [
  | inl h ↦ (conflict controlplane, ground (arith, h))
  | inr h ↦ (internal, ground (arith, h))
]
map_err-ReadsRows broken = (internal, refl)

-- `s'` is `s` with the tenant changed, and with one more event, that tells of it.
abbrev pub TenantChanged :
    ℕ → ℕ → ℕ → ℕ → Option String → Option String → Option String → ControlDb → ControlDb → Type 0
TenantChanged now fresh actor_id i name status plan s s' = s' ≡ record s {
  tenants = update_rows (tenant_by_id i) (platform_tenant now name status plan) s.tenants;
  audit_events =
      new_audit_event now fresh actor_id "tenant.updated" "tenant" (some i) (some i)
        (Service.changed_fields name status plan)
      ∷ s.audit_events;
}

audit_event-rows :
    (actor_id : ℕ) (action target_type : String) (target_id tenant_id : Option ℕ) (m : Metadata)
    (now fresh : ℕ) (s : ControlDb) (e : AuditRow) (s' : ControlDb)
    → Queries.create_super_admin_audit_event actor_id action target_type target_id tenant_id m now
        fresh s
      ≡ (rows e, s')
    → s' ≡ record s {
      audit_events =
          new_audit_event now fresh actor_id action target_type target_id tenant_id m
          ∷ s.audit_events;
    }
unfolding Queries.create_super_admin_audit_event
audit_event-rows actor_id action target_type target_id tenant_id m now fresh s e s' h = ground arith

answer-rows :
    {A : Type 0} (a b : A) (now fresh : ℕ) (s s' : ControlDb)
    → answer a now fresh s ≡ (rows b, s')
    → s' ≡ s
unfolding answer
answer-rows a b now fresh s s' h = ground arith

-- A change with its audit event leaves the one and the other.
audited-rows :
    {A : Type 0} (q : Statement A) (actor_id : ℕ) (action target_type : String)
    (target tenant : A → ℕ) (m : Metadata) (now fresh : ℕ) (s : ControlDb) (b : A) (s' : ControlDb)
    → then_run q
        (λ a.
          then_run
            (Queries.create_super_admin_audit_event actor_id action target_type
              (some (target a))
              (some (tenant a))
              m)
            (λ event. answer a))
        now
        fresh
        s
      ≡ (rows b, s')
    → (a : A) × (mid : ControlDb) × (q now fresh s ≡ (rows a, mid))
      × (s' ≡ record mid {
        audit_events =
            new_audit_event now fresh actor_id action target_type
              (some (target a))
              (some (tenant a))
              m
            ∷ mid.audit_events;
      })
audited-rows q actor_id action target_type target tenant m now fresh s b s' h =
    let (a, mid, changed, h') = then_run-rows q _ now fresh s b s' h in
    let (e, end, told, h'') = then_run-rows _ _ now fresh mid b s' h' in
    (
      a,
      mid,
      changed,
      answer-rows a b now fresh end s' h''
          ∙ audit_event-rows actor_id action target_type _ _ m now fresh mid e end told,
    )

update_tenant-rows :
    (i : ℕ) (name status plan : Option String) (now fresh : ℕ) (s : ControlDb) (t : Tenant)
    (s' : ControlDb)
    → TenantQueries.update_tenant_platform i name status plan now fresh s ≡ (rows t, s')
    → (t.id ≡ i)
      × (s' ≡ record s {
        tenants = update_rows (tenant_by_id i) (platform_tenant now name status plan) s.tenants;
      })
unfolding TenantQueries.update_tenant_platform
update_tenant-rows i name status plan now fresh s t s' h =
    elim (Option-cases (find_row (tenant_by_id i) s.tenants)) [
      | inl e ↦ absurd (ground (arith, e))
      | inr (old, e) ↦
          let same = find_row-holds (tenant_by_id i) s.tenants e in
          (ground (arith, e, same), ground (arith, e))
    ]

audited_tenant-Changed :
    (actor_id i : ℕ) (name status plan : Option String) (now fresh : ℕ) (s : ControlDb) (t : Tenant)
    (s' : ControlDb)
    → Service.audited_tenant actor_id i name status plan now fresh s ≡ (rows t, s')
    → TenantChanged now fresh actor_id i name status plan s s'
unfolding Service.audited_tenant
audited_tenant-Changed actor_id i name status plan now fresh s t s' h =
    let (a, mid, changed, told) =
      audited-rows (TenantQueries.update_tenant_platform i name status plan) actor_id
        "tenant.updated" "tenant" (λ a. a.id) (λ a. a.id) (Service.changed_fields name status plan)
        now fresh s t s' h in
    let (same, left) = update_tenant-rows i name status plan now fresh s a mid changed in
    told ∙ (λ j. record (left j) {
      audit_events =
          new_audit_event now fresh actor_id "tenant.updated" "tenant" (some (same j))
            (some (same j)) (Service.changed_fields name status plan)
          ∷ (left j).audit_events;
    })

-- The same for the status of the user `u`.
abbrev pub UserChanged : ℕ → ℕ → ℕ → ℕ → String → ControlDb → ControlDb → Type 0
UserChanged now fresh actor_id i status s s' =
    (u : User) × (find_row (user_by_id i) s.users ≡ some u)
    × (s' ≡ record s {
      users = update_rows (user_by_id i) (user_with_status now status) s.users;
      audit_events =
          new_audit_event now fresh actor_id "user.status_updated" "user" (some i)
            (some u.tenant_id) (("status", status) ∷ [])
          ∷ s.audit_events;
    })

update_user-rows :
    (i : ℕ) (status : String) (now fresh : ℕ) (s : ControlDb) (u : User) (s' : ControlDb)
    → TenantQueries.update_user_status_platform i status now fresh s ≡ (rows u, s')
    → (old : User) × (find_row (user_by_id i) s.users ≡ some old)
      × ((u.id ≡ i) × (u.tenant_id ≡ old.tenant_id))
      × (s' ≡ record s { users = update_rows (user_by_id i) (user_with_status now status) s.users })
unfolding TenantQueries.update_user_status_platform
update_user-rows i status now fresh s u s' h =
    elim (Option-cases (find_row (user_by_id i) s.users)) [
      | inl e ↦ absurd (ground (arith, e))
      | inr (old, e) ↦
          let same = find_row-holds (user_by_id i) s.users e in
          (old, e, (ground (arith, e, same), ground (arith, e)), ground (arith, e))
    ]

audited_user-Changed :
    (actor_id i : ℕ) (status : String) (now fresh : ℕ) (s : ControlDb) (u : User) (s' : ControlDb)
    → Service.audited_user actor_id i status now fresh s ≡ (rows u, s')
    → UserChanged now fresh actor_id i status s s'
unfolding Service.audited_user
audited_user-Changed actor_id i status now fresh s u s' h =
    let (a, mid, changed, told) =
      audited-rows (TenantQueries.update_user_status_platform i status) actor_id
        "user.status_updated" "user" (λ a. a.id) (λ a. a.tenant_id) (("status", status) ∷ []) now
        fresh s u s' h in
    let (old, found, (same, theirs), left) = update_user-rows i status now fresh s a mid changed in
    (
      old,
      found,
      told ∙ (λ j. record (left j) {
        audit_events =
            new_audit_event now fresh actor_id "user.status_updated" "user" (some (same j))
              (some (theirs j)) (("status", status) ∷ [])
            ∷ (left j).audit_events;
      }),
    )

module _ (actor_id i : ℕ) (pool : Bool) (db : ControlDb) (t : Turn ControlDb)
    (ts : List (Turn ControlDb)) where
  abbrev start : World ControlDb
  start = record { pool = pool; db = db; turns = t ∷ ts }

  abbrev cleaned : Option String → Option String
  cleaned = Service.clean_string_ptr

  guarded :
      {A : Type 0} (test : Bool) (q : Statement A) (Changed : ControlDb → Type 0)
      → ((a : A) (s' : ControlDb) → q t.now t.fresh (t.rival db) ≡ (rows a, s') → Changed s')
      → let r = (if test then raise (validation controlplane) else Tenants.in_tx q) start in
        (r ≡ (err (validation controlplane), start)) ⊎ Whole (t.rival db) Changed r
  unfolding raise Tenants.in_tx
  guarded true q Changed k = inl refl
  guarded false q Changed k =
      inr (transaction-Whole Tenants.map_err map_err-ReadsRows q Changed pool db t ts k)

  -- PlatformUpdateTenant and PlatformUpdateUser refuse their input and touch nothing, or they leave
  -- what other requests had committed, or they leave it with the whole change and with one more audit
  -- event that tells of it. They return a value only in the last case, whether or not the connection
  -- fails and whatever other requests do.
  pub platform_updates-AreAudited :
      ((name status plan : Option String)
        → let r = Service.platform_update_tenant actor_id i name status plan start in
          (r ≡ (err (validation controlplane), start))
          ⊎ Whole
              (t.rival db)
              (TenantChanged t.now t.fresh actor_id i
                (cleaned name)
                (cleaned status)
                (cleaned plan)
                (t.rival db))
              r)
      × ((status : String)
          → let r = Service.platform_update_user actor_id i status start in
            (r ≡ (err (validation controlplane), start))
            ⊎ Whole
                (t.rival db)
                (UserChanged t.now t.fresh actor_id i (trim_space status) (t.rival db))
                r)
  unfolding Service.platform_update_tenant Service.platform_update_user
  platform_updates-AreAudited = (
    λ name status plan.
        let n = cleaned name in
        let s = cleaned status in
        let p = cleaned plan in
        guarded (Service.tenant_changes_refused n s p) (Service.audited_tenant actor_id i n s p)
          (TenantChanged t.now t.fresh actor_id i n s p (t.rival db))
          (audited_tenant-Changed actor_id i n s p t.now t.fresh (t.rival db)),
    λ status.
        let s = trim_space status in
        guarded (not (Service.valid_user_statuses s)) (Service.audited_user actor_id i s)
          (UserChanged t.now t.fresh actor_id i s (t.rival db))
          (audited_user-Changed actor_id i s t.now t.fresh (t.rival db)),
  )
