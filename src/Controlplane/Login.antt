-- ===== src/Controlplane/Login.antt =====
-- Who gets a token (controlplane/service.go, Login).
use opero.Prelude.{
  ℕ, String, ◌≡◌, refl, Bool, true, false, ◌&&◌, Option, none, some, List, ◌∷◌, arith, str_eq,
  trim_space, find_row,
}
use opero.Effects.{ok, err, World, Turn, quiet, pure, raise, attempt, exec, query, ◌>>=◌}
use opero.Effects.Error.{Err-discrete, invalid_credentials}
use opero.Controlplane.Types.{Tenant, User, LoginInput, ControlDb}
use opero.Controlplane.Queries.{by_slug, by_email}
use opero.Controlplane.Queries
use opero.Controlplane.Store
use opero.Controlplane.Service
use opero.Controlplane.Service.{Crypto}

-- What is looked up: the tenant of the slug, and its user of the address.
abbrev pub user_of : Crypto → ControlDb → LoginInput → Option Tenant → Option User
user_of crypto db inp none = none
user_of crypto db inp (some t) =
    find_row (by_email crypto.fold t.id (trim_space inp.email)) db.users

-- The user may log in: the password is right and the user is active.
abbrev pub may_enter : Crypto → LoginInput → Option User → Bool
may_enter crypto inp none = false
may_enter crypto inp (some u) =
    crypto.check_password u.password_hash inp.password && str_eq u.status "active"

module _ (crypto : Crypto) (db : ControlDb) (now : ℕ) (inp : LoginInput) (t k t' k' : ℕ)
    (rest : List (Turn ControlDb)) where
  abbrev start : World ControlDb
  start = record { pool = false; db = db; turns = quiet t k ∷ quiet t' k' ∷ rest }

  refused :
      (tenant : Option Tenant)
      → find_row (by_slug inp.tenant_slug) db.tenants ≡ tenant
      → (user : Option User) → user_of crypto db inp tenant ≡ user
      → may_enter crypto inp user ≡ false
      → (Service.login crypto now inp start).0 ≡ err invalid_credentials
  unfolding Service.login Service.found_or_invalid Store.get_tenant_by_slug
      Store.get_user_by_tenant_and_email Store.map_err Queries.get_tenant_by_slug
      Queries.get_user_by_tenant_and_email query exec attempt ◌>>=◌ pure raise Err-discrete
  refused none e user f barred = ground (arith, e)
  refused (some tenant) e none f barred = ground (arith, e, f)
  refused (some tenant) e (some user) f barred = ground (arith, e, f, barred)

  entered :
      (tenant : Tenant) (user : User) (token : String) (expires_at : ℕ)
      → find_row (by_slug inp.tenant_slug) db.tenants ≡ some tenant
      → find_row (by_email crypto.fold tenant.id (trim_space inp.email)) db.users ≡ some user
      → may_enter crypto inp (some user) ≡ true
      → crypto.issue_token user.id tenant.id user.role now ≡ some (token, expires_at)
      → Service.login crypto now inp start ≡ (
        ok (record { token = token; expires_at = expires_at; user = user; tenant = tenant }),
        record { pool = false; db = db; turns = rest },
      )
  unfolding Service.login Service.found_or_invalid Service.issue Service.issued
      Store.get_tenant_by_slug Store.get_user_by_tenant_and_email Store.map_err
      Queries.get_tenant_by_slug Queries.get_user_by_tenant_and_email query exec attempt ◌>>=◌ pure
      raise Err-discrete
  entered tenant user token expires_at e f may issued = ground (arith, e, f, may, issued)

  -- With no other request meanwhile, an unknown tenant, an unknown address, a wrong password and a user
  -- that is not active are all answered by the same error. The active user of the tenant's slug and the
  -- trimmed address gets, with the right password, the token that is issued for it, for its tenant and
  -- for its role, whatever the status of the tenant.
  pub login-IsUniform :
      (may_enter crypto inp (user_of crypto db inp (find_row (by_slug inp.tenant_slug) db.tenants))
          ≡ false
        → (Service.login crypto now inp start).0 ≡ err invalid_credentials)
      × ((tenant : Tenant) (user : User) (token : String) (expires_at : ℕ)
          → find_row (by_slug inp.tenant_slug) db.tenants ≡ some tenant
          → find_row (by_email crypto.fold tenant.id (trim_space inp.email)) db.users ≡ some user
          → may_enter crypto inp (some user) ≡ true
          → crypto.issue_token user.id tenant.id user.role now ≡ some (token, expires_at)
          → Service.login crypto now inp start ≡ (
            ok (record { token = token; expires_at = expires_at; user = user; tenant = tenant }),
            record { pool = false; db = db; turns = rest },
          ))
  login-IsUniform = (refused _ refl _ refl, entered)
