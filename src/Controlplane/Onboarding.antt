-- ===== src/Controlplane/Onboarding.antt =====
-- What Signup leaves (controlplane/service.go, Signup): a tenant that its admin can log in to, or
-- nothing.
use opero.Prelude.{
  ℕ, ◌≤◌, String, ◌≡◌, refl, Bool, true, false, ◌||◌, not, ltb, some, List, ◌∷◌, ◌⊎◌, inl, inr,
  any_row, is_some, is_blank, byte_length, Bool-cases, ap, ◌∙◌, trim_space, if◌then◌else◌,
}
use opero.Effects.{Result, ok, err, Link, up, World, Turn, raise, exec, query, ◌>>=◌}
use opero.Effects.Error.{Err, controlplane, validation, conflict}
use opero.Effects.Runs.{calm, world, bind-ok, bind-err}
use opero.Controlplane.Slugs.{db_name_from_slug, validate_slug}
use opero.Controlplane.Types.{ControlDb, SignupInput, AuthResult, Call}
use opero.Controlplane.Queries.{tenant_clashes}
use opero.Controlplane.Queries
use opero.Controlplane.Store
use opero.Controlplane.Provision.{identifier}
use opero.Controlplane.Service.{Crypto}
use opero.Controlplane.Service
use opero.Controlplane.Signup
use opero.Controlplane.Signup.{slug_of}
use opero.Controlplane.Cleanup.{Unused}
use opero.Controlplane.Steps.{
  Newcomer, pending_tenant, active_tenant, admin, with_tenant, with_active,
}
use opero.Controlplane.SetUp.{newcomer, failures, set_up-Cleans}

module _ (crypto : Crypto) (migrates : List ℕ → Bool) (prefix : List ℕ) (now : ℕ)
    (inp : SignupInput) (db : ControlDb) (t k k2 : ℕ) where
  abbrev pub slug : List ℕ
  slug = slug_of inp

  abbrev pub name : List ℕ
  name = db_name_from_slug prefix (slug_of inp)

  module _ (unused : Unused (db_name_from_slug prefix (slug_of inp)) k k2 db)
      (la lb lc ld le : Link) (t1 k1 t2 t3 k3 t4 k4 t5 k5 : ℕ) (rest : List (Turn ControlDb)) where
    abbrev pub later : List (Turn ControlDb)
    later = calm la t1 k1 ∷ calm lb t2 k2 ∷ calm lc t3 k3 ∷ calm ld t4 k4 ∷ calm le t5 k5 ∷ rest

    abbrev pub people : String → Newcomer
    people = newcomer inp name slug t k k2

    abbrev pub Refused : Result AuthResult × World ControlDb → Type 0
    Refused (r, w) = (e : Err) × (r ≡ err e) × (w.db ≡ db)

    abbrev pub Joined : Result AuthResult × World ControlDb → Type 0
    Joined r =
        (hash : String) × (crypto.hash_password inp.admin_password ≡ some hash)
        × (r
            ≡ Service.issue crypto now (admin (people hash) t2) (active_tenant (people hash) t3)
                (world (with_active (people hash) db t2 t3) (calm ld t4 k4 ∷ calm le t5 k5 ∷ rest)))

    onboard : Call AuthResult
    onboard = do
      tenant ← Store.create_tenant inp.company_name slug name "free"
      (user, active) ← Signup.set_up crypto migrates prefix inp tenant.id name
      Service.issue crypto now user active

    guarded :
        (test : Bool) (m : Call AuthResult) (w : World ControlDb)
        → w.db ≡ db
        → Refused (m w) ⊎ Joined (m w)
        → Refused ((if test then raise (validation controlplane) else m) w)
          ⊎ Joined ((if test then raise (validation controlplane) else m) w)
    unfolding raise
    guarded true m w same h = inl (validation controlplane, refl, same)
    guarded false m w same h = h

    abbrev clashing : Bool
    clashing = any_row (tenant_clashes k slug name) db.tenants

    tenant_made :
        clashing ≡ false
        → Store.create_tenant inp.company_name slug name "free" (world db (calm up t k ∷ later))
          ≡ (ok (pending_tenant (people "")), world (with_tenant (people "") db) later)
    unfolding Store.create_tenant Store.map_err Queries.create_tenant Queries.tenant_status_allowed
        query exec
    tenant_made h = rw h refl

    tenant_refused :
        clashing ≡ true
        → Store.create_tenant inp.company_name slug name "free" (world db (calm up t k ∷ later))
          ≡ (err (conflict controlplane), world db later)
    unfolding Store.create_tenant Store.map_err Queries.create_tenant Queries.tenant_status_allowed
        query exec
    tenant_refused h = rw h refl

    turned_away :
        (o : Result AuthResult × World ControlDb) (e : Err) (ts : List (Turn ControlDb))
        → o ≡ (err e, world db ts)
        → Refused o
    turned_away o e ts h = (e, ap (λ x. x.0) h, ap (λ x. x.1.db) h)

    onboard-Cleans :
        failures
            (migrates (identifier name))
            (is_some (crypto.hash_password inp.admin_password))
            la
            lb
            lc
            ld
            le
          ≤ 1
        → let r = onboard (world db (calm up t k ∷ later)) in Refused r ⊎ Joined r
    unfolding onboard
    onboard-Cleans h = elim (Bool-cases clashing) [
      | inl clash ↦
          inl (turned_away _ (conflict controlplane) later (bind-err _ _ (tenant_refused clash)))
      | inr free ↦
          elim (set_up-Cleans crypto migrates prefix name slug inp db t k k2 unused la lb lc ld le
            t1 k1 t2 t3 k3 t4 k4 t5 k5 rest h) [
              | inl (hash, hashed, done) ↦
                  inr (hash, hashed, bind-ok _ _ (tenant_made free) ∙ bind-ok _ _ done)
              | inr (e, ts, failed) ↦
                  inl (turned_away _ e ts (bind-ok _ _ (tenant_made free) ∙ bind-err _ _ failed))
            ]
    ]

    -- A Signup that no other request comes between, with unused keys and name of the database and with
    -- one failure at most after the row of the tenant is there, be it of a migration, of the hash or of
    -- a connection that is cut or whose answer is lost, returns an error and leaves the tables and the
    -- databases as they were, or it makes the database, the active tenant and its active admin, and
    -- returns what the issue of the token returns.
    pub signup-LeavesNothing :
        failures
            (migrates (identifier name))
            (is_some (crypto.hash_password inp.admin_password))
            la
            lb
            lc
            ld
            le
          ≤ 1
        → let r = Signup.signup crypto migrates prefix now inp (world db (calm up t k ∷ later)) in
          Refused r ⊎ Joined r
    unfolding Signup.signup onboard
    signup-LeavesNothing h =
        guarded (is_blank inp.company_name || not (validate_slug slug)) _ _ refl (
          guarded (not (crypto.parse_address (trim_space inp.admin_email))) _ _ refl
            (guarded (ltb (byte_length inp.admin_password) 8) onboard _ refl (onboard-Cleans h)))
