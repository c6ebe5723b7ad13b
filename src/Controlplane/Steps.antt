-- ===== src/Controlplane/Steps.antt =====
-- The steps of Signup after the row of the tenant (controlplane/service.go, Signup): what each leaves,
-- and that the clean-up can undo it.
use opero.Prelude.{
  ℕ, ◌+◌, ◌≤◌, String, ◌≡◌, refl, Bool, false, List, [], ◌∷◌, ◌⊎◌, inl, inr, arith, ap, any_row,
  delete_rows, if◌then◌else◌, update_rows, delete_rows-none, update_rows-none, ==_refl, find_row,
  Bool-cases, ◌==◌, ◌∙◌,
}
use opero.Effects.{
  Answer, rows, broken, Result, ok, err, Link, up, cut, lost, World, Turn, pure, raise, query,
}
use opero.Effects.Error.{Err, internal}
use opero.Effects.Runs.{calm, world, bind-ok, bind-err, query-calm}
use opero.Controlplane.Slugs.{same_text, same_text_refl}
use opero.Controlplane.Types.{Tenant, User, ControlDb, Statement}
use opero.Controlplane.Queries
use opero.Controlplane.Store
use opero.Controlplane.Provision
use opero.Controlplane.Provision.{identifier}
use opero.Controlplane.Cleanup.{Unused, Undoable, undo-fields}

-- A tenant has no user of any address before its first.
no_address :
    (fold : String → String) (i : ℕ) (email : String) (us : List User)
    → any_row (λ u. u.tenant_id == i) us ≡ false
    → any_row (Queries.by_email fold i email) us ≡ false
unfolding any_row
no_address fold i email [] h = refl
no_address fold i email (u ∷ us) h = ground (arith, no_address fold i email us)

abbrev pub fault : Link → ℕ
fault up = 0
fault cut = 1
fault lost = 1

-- What a signup makes: the texts of the input, the keys of the tenant and of its admin, the instant.
pub record Newcomer : Type 0 where
  pub name : List ℕ
  pub slug : List ℕ
  pub company : String
  pub email : String
  pub hash : String
  pub t : ℕ
  pub k : ℕ
  pub k2 : ℕ

abbrev pub pending_tenant : Newcomer → Tenant
pending_tenant p = Queries.new_tenant p.t p.k p.company p.slug p.name "provisioning" "free"

abbrev pub active_tenant : Newcomer → ℕ → Tenant
active_tenant p t3 = Queries.with_status t3 "active" (pending_tenant p)

abbrev pub admin : Newcomer → ℕ → User
admin p t2 = Queries.new_user t2 p.k2 p.k p.email p.hash "admin" "active"

-- The states after each step.
abbrev pub with_tenant : Newcomer → ControlDb → ControlDb
with_tenant p db = record db { tenants = pending_tenant p ∷ db.tenants }

abbrev pub with_database : Newcomer → ControlDb → ControlDb
with_database p db = record (with_tenant p db) { databases = identifier p.name ∷ db.databases }

abbrev pub with_admin : Newcomer → ControlDb → ℕ → ControlDb
with_admin p db t2 = record (with_database p db) { users = admin p t2 ∷ db.users }

abbrev pub with_active : Newcomer → ControlDb → ℕ → ℕ → ControlDb
with_active p db t2 t3 = record (with_admin p db t2) { tenants = active_tenant p t3 ∷ db.tenants }

-- A step returns its value and leaves `after`, or something has failed and the clean-up can undo what
-- there is.
abbrev pub Stepped :
    {A : Type 0}
    → List ℕ
    → ℕ
    → ControlDb
    → ℕ
    → A
    → ControlDb
    → List (Turn ControlDb)
    → Result A × World ControlDb
    → Type 0
Stepped name k db failures a after ts r =
    (r ≡ (ok a, world after ts))
    ⊎ ((1 ≤ failures)
        × (e : Err) × (now : ControlDb) × Undoable name k db now
        × (r ≡ (err e, world now ts)))

abbrev pub unlucky : Bool → ℕ
unlucky succeeds = if succeeds then 0 else 1

module _ (fold : String → String) (migrates : List ℕ → Bool) (p : Newcomer) (db : ControlDb)
    (unused : Unused p.name p.k p.k2 db) where
  open p use {name, slug, company, email, hash, t, k, k2}

  kept_tenants :
      (x : Tenant) → x.id ≡ k → delete_rows (Queries.tenant_by_id k) (x ∷ db.tenants) ≡ db.tenants
  unfolding delete_rows
  kept_tenants x e =
      ground (arith, e, delete_rows-none (Queries.tenant_by_id k) db.tenants unused.no_tenant)

  kept_databases :
      delete_rows (same_text (identifier name)) (identifier name ∷ db.databases) ≡ db.databases
  unfolding delete_rows
  kept_databases =
      rw (same_text_refl (identifier name))
        (delete_rows-none (same_text (identifier name)) db.databases unused.no_database)

  kept_users :
      (x : User) → x.tenant_id ≡ k → delete_rows (λ u. u.tenant_id == k) (x ∷ db.users) ≡ db.users
  unfolding delete_rows
  kept_users x e =
      ground (arith, e, delete_rows-none (λ u. u.tenant_id == k) db.users unused.no_member)

  undo_tenant : Undoable name k db (with_tenant p db)
  undo_tenant =
      undo-fields name k k2 db _ _ _ unused (kept_tenants _ refl)
        (delete_rows-none (λ u. u.tenant_id == k) db.users unused.no_member)
        (delete_rows-none (same_text (identifier name)) db.databases unused.no_database)

  pub undo_database : Undoable name k db (with_database p db)
  undo_database =
      undo-fields name k k2 db _ _ _ unused (kept_tenants _ refl)
        (delete_rows-none (λ u. u.tenant_id == k) db.users unused.no_member) kept_databases

  undo_admin : (t2 : ℕ) → Undoable name k db (with_admin p db t2)
  undo_admin t2 =
      undo-fields name k k2 db _ _ _ unused (kept_tenants _ refl) (kept_users _ refl) kept_databases

  undo_active : (t2 t3 : ℕ) → Undoable name k db (with_active p db t2 t3)
  undo_active t2 t3 =
      undo-fields name k k2 db _ _ _ unused (kept_tenants _ refl) (kept_users _ refl) kept_databases

  statement-Stepped :
      {A B : Type 0} (read : Answer A → Result B) (q : Statement A) (l : Link) (now fresh : ℕ)
      (before after : ControlDb) (a : A) (b : B) (ts : List (Turn ControlDb))
      → q now fresh before ≡ (rows a, after)
      → read (rows a) ≡ ok b
      → read broken ≡ err internal
      → Undoable name k db before
      → Undoable name k db after
      → Stepped name k db (fault l) b after ts (query read q (world before (calm l now fresh ∷ ts)))
  statement-Stepped read q up t' k' before after a b ts made good bad u u' =
      inl (query-calm read q up t' k' _ _ _ ts made ∙ ap (λ r. (r, world after ts)) good)
  statement-Stepped read q cut t' k' before after a b ts made good bad u u' = inr (
    ground arith,
    internal,
    before,
    u,
    query-calm read q cut t' k' _ _ _ ts made ∙ ap (λ r. (r, world before ts)) bad,
  )
  statement-Stepped read q lost t' k' before after a b ts made good bad u u' = inr (
    ground arith,
    internal,
    after,
    u',
    query-calm read q lost t' k' _ _ _ ts made ∙ ap (λ r. (r, world after ts)) bad,
  )

  pub create_step :
      (l : Link) (t1 k1 : ℕ) (ts : List (Turn ControlDb))
      → Stepped name k db
          (fault l + unlucky (migrates (identifier name)))
          tt
          (with_database p db)
          ts
          (Provision.create migrates name (world (with_tenant p db) (calm l t1 k1 ∷ ts)))
  unfolding Provision.create Provision.created Provision.create_database pure raise
  create_step l t1 k1 ts =
      elim (statement-Stepped Provision.created (Provision.create_database name) l t1 k1
        (with_tenant p db) (with_database p db) tt tt ts (rw unused.no_database refl) refl refl
        undo_tenant undo_database) [
          | inl made ↦ elim (Bool-cases (migrates (identifier name))) [
            | inl e ↦ inl (bind-ok _ _ made ∙ rw e refl)
            | inr e ↦ inr (
              rw e (ground arith),
              internal,
              (with_database p db),
              undo_database,
              bind-ok _ _ made ∙ rw e refl,
            )
          ]
          | inr (some_fault, e, now, undo, made) ↦
              inr (ground arith, e, now, undo, bind-err _ _ made)
        ]

  pub user_step :
      (l : Link) (t2 : ℕ) (ts : List (Turn ControlDb))
      → Stepped name k db (fault l) (admin p t2) (with_admin p db t2) ts (
          Store.create_user fold k email hash "admin" "active"
            (world (with_database p db) (calm l t2 k2 ∷ ts)))
  unfolding Store.create_user Store.map_err Queries.create_user any_row Queries.role_allowed
      Queries.user_status_allowed
  user_step l t2 ts =
      statement-Stepped Store.map_err _ l t2 k2 (with_database p db) (with_admin p db t2)
        (admin p t2) (admin p t2) ts
        (rw (unused.no_user, no_address fold k email db.users unused.no_member, ==_refl k) refl)
        refl refl undo_database (undo_admin t2)

  pub activate_step :
      (l : Link) (t2 t3 k3 : ℕ) (ts : List (Turn ControlDb))
      → Stepped name k db
          (fault l)
          (active_tenant p t3)
          (with_active p db t2 t3)
          ts
          (Store.set_tenant_status k "active" (world (with_admin p db t2) (calm l t3 k3 ∷ ts)))
  unfolding Store.set_tenant_status Store.map_err Queries.set_tenant_status find_row update_rows
      Queries.tenant_status_allowed
  activate_step l t2 t3 k3 ts =
      statement-Stepped Store.map_err _ l t3 k3 (with_admin p db t2) (with_active p db t2 t3)
        (active_tenant p t3) (active_tenant p t3) ts
        (rw
          (
            ==_refl k,
            ==_refl k,
            update_rows-none (Queries.tenant_by_id k) (Queries.with_status t3 "active") db.tenants
                unused.no_tenant,
          )
          refl)
        refl refl (undo_admin t2) (undo_active t2 t3)
