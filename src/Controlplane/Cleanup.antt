-- ===== src/Controlplane/Cleanup.antt =====
-- The clean-up of a failed Signup (controlplane/service.go, cleanup): what it takes back.
use opero.Prelude.{
  ℕ, ◌≡◌, refl, false, List, ◌∷◌, inl, inr, any_row, delete_rows-none, ap, delete_rows, Bool-cases,
  ◌==◌, ◌∙◌,
}
use opero.Effects.{ok, err, World, Turn, quiet, pure, raise, attempt, exec, query, ◌>>=◌}
use opero.Effects.Runs.{world, bind-ok, bind-err, bind-attempt}
use opero.Effects.Error.{Err}
use opero.Controlplane.Slugs.{same_text}
use opero.Controlplane.Types.{Tenant, User, ControlDb, Call}
use opero.Controlplane.Queries.{tenant_clashes}
use opero.Controlplane.Queries
use opero.Controlplane.Store
use opero.Controlplane.Provision
use opero.Controlplane.Provision.{identifier}
use opero.Controlplane.Signup
use opero.Controlplane.Signup.{slug_of}

-- No database has the name, and no row of the tables has or uses the keys.
pub record Unused (name : List ℕ) (k k2 : ℕ) (db : ControlDb) : Type 0 where
  pub no_database : any_row (same_text (identifier name)) db.databases ≡ false
  pub no_tenant : any_row (Queries.tenant_by_id k) db.tenants ≡ false
  pub no_member : any_row (λ u. u.tenant_id == k) db.users ≡ false
  pub no_plan : any_row (λ s. s.tenant_id == k) db.subscriptions ≡ false
  pub no_event : any_row (λ e. Queries.refers_to k e.tenant_id) db.audit_events ≡ false
  pub no_user : any_row (Queries.user_by_id k2) db.users ≡ false

-- `db'` without the tenant, what belongs to it and its database.
abbrev pub without : List ℕ → ℕ → ControlDb → ControlDb
without name k db = record db {
  tenants = delete_rows (Queries.tenant_by_id k) db.tenants;
  users = delete_rows (λ u. u.tenant_id == k) db.users;
  subscriptions = delete_rows (λ s. s.tenant_id == k) db.subscriptions;
  databases = delete_rows (same_text (identifier name)) db.databases;
}

-- What the clean-up takes back to `db`.
pub record Undoable (name : List ℕ) (k : ℕ) (db now : ControlDb) : Type 0 where
  pub undone : without name k now ≡ db
  pub untold : any_row (λ e. Queries.refers_to k e.tenant_id) now.audit_events ≡ false

dropped_in_turn :
    (name : List ℕ) (t k : ℕ) (db : ControlDb) (ts : List (Turn ControlDb))
    → Provision.drop name (world db (quiet t k ∷ ts)) ≡ (
      ok tt,
      world (record db { databases = delete_rows (same_text (identifier name)) db.databases }) ts,
    )
unfolding Provision.drop Provision.dropped Provision.drop_database query exec
dropped_in_turn name t k db ts = refl

deleted_in_turn :
    (i t k : ℕ) (db : ControlDb) (ts : List (Turn ControlDb))
    → any_row (λ e. Queries.refers_to i e.tenant_id) db.audit_events ≡ false
    → Store.delete_tenant i (world db (quiet t k ∷ ts)) ≡ (
      ok tt,
      world
          (record db {
            tenants = delete_rows (Queries.tenant_by_id i) db.tenants;
            users = delete_rows (λ u. u.tenant_id == i) db.users;
            subscriptions = delete_rows (λ s. s.tenant_id == i) db.subscriptions;
          })
          ts,
    )
unfolding Store.delete_tenant Store.map_err Queries.delete_tenant query exec
deleted_in_turn i t k db ts h = elim (Bool-cases (any_row (Queries.tenant_by_id i) db.tenants)) [
  | inl e ↦ rw (e, h) refl
  | inr e ↦ rw e refl
]

-- The clean-up, with two turns of its own.
cleanup-undoes :
    (name : List ℕ) (i t k t' k' : ℕ) (db now : ControlDb) (ts : List (Turn ControlDb))
    → Undoable name i db now
    → Signup.cleanup i name (world now (quiet t k ∷ quiet t' k' ∷ ts)) ≡ (ok tt, world db ts)
unfolding Signup.cleanup pure
cleanup-undoes name i t k t' k' db now ts u =
    bind-attempt _ _ (dropped_in_turn name t k now _)
    ∙ bind-attempt _ _ (deleted_in_turn i t' k' _ _ u.untold)
    ∙ ap (λ d. (ok tt, world d ts)) u.undone

pub undo-fields :
    (name : List ℕ) (i k2 : ℕ) (db : ControlDb) (ts : List Tenant) (us : List User)
    (ds : List (List ℕ))
    → Unused name i k2 db
    → delete_rows (Queries.tenant_by_id i) ts ≡ db.tenants
    → delete_rows (λ u. u.tenant_id == i) us ≡ db.users
    → delete_rows (same_text (identifier name)) ds ≡ db.databases
    → Undoable name i db (record db { tenants = ts; users = us; databases = ds })
undo-fields name i k2 db ts us ds unused t u d = record {
  undone = λ j. record db {
    tenants = t j;
    users = u j;
    subscriptions = delete_rows-none (λ s. s.tenant_id == i) db.subscriptions unused.no_plan j;
    databases = d j;
  };
  untold = unused.no_event;
}

module _ {A B : Type 0} (name : List ℕ) (i : ℕ) (m : Call A) (f : A → Call B) where
  pub step-ok :
      {w w' : World ControlDb} {a : A}
      → m w ≡ (ok a, w')
      → (attempt m >>= λ r. Signup.or_cleanup i name r >>= f) w ≡ f a w'
  unfolding ◌>>=◌ pure
  step-ok h = bind-attempt m _ h

  pub step-err :
      {w : World ControlDb} (e : Err) (t k t' k' : ℕ) (db now : ControlDb)
      (ts : List (Turn ControlDb))
      → m w ≡ (err e, world now (quiet t k ∷ quiet t' k' ∷ ts))
      → Undoable name i db now
      → (attempt m >>= λ r. Signup.or_cleanup i name r >>= f) w ≡ (err e, world db ts)
  unfolding raise
  step-err e t k t' k' db now ts h u =
      bind-attempt m _ h ∙ bind-err _ f (bind-ok _ _ (cleanup-undoes name i t k t' k' db now ts u))
