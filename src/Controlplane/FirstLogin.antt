-- ===== src/Controlplane/FirstLogin.antt =====
-- The new admin can log in (controlplane/service.go, Signup and Login).
use opero.Prelude.{
  ℕ, String, ◌≡◌, refl, Bool, true, Option, none, some, List, ◌∷◌, inl, inr, arith, ap, ◌∙◌,
  trim_space, find_row, eq_refl, ==_refl, subst, sym,
}
use opero.Effects.{Result, ok, err, up, World, Turn, pure, raise}
use opero.Effects.Runs.{calm, world}
use opero.Controlplane.Slugs.{db_name_from_slug, same_text_refl}
use opero.Controlplane.Types.{ControlDb, SignupInput, LoginInput, AuthResult}
use opero.Controlplane.Queries.{by_slug, by_email}
use opero.Controlplane.Service.{Crypto}
use opero.Controlplane.Service
use opero.Controlplane.Signup
use opero.Controlplane.Signup.{slug_of}
use opero.Controlplane.Cleanup.{Unused}
use opero.Controlplane.Login.{login-IsUniform, may_enter}
use opero.Controlplane.Steps.{Newcomer, active_tenant, admin, with_active}
use opero.Controlplane.SetUp.{newcomer}
use opero.Controlplane.Onboarding.{signup-LeavesNothing}

-- The result of an issue at another instant: the same user and tenant, with another token.
abbrev pub with_token : String → ℕ → AuthResult → AuthResult
with_token token expires_at r = record r { token = token; expires_at = expires_at }

-- What was returned with a state is returned again by a login on that state, but for the token,
-- which is that of the instant of the login.
abbrev ReEnters : Crypto → ℕ → SignupInput → Result AuthResult × World ControlDb → Type 0
ReEnters crypto later inp (err e, w) = Unit {0}
ReEnters crypto later inp (ok r, w) =
    (token : String) (expires_at : ℕ)
    → crypto.issue_token r.user.id r.tenant.id r.user.role later ≡ some (token, expires_at)
    → (Service.login crypto later
        (record {
          tenant_slug = r.tenant.slug;
          email = inp.admin_email;
          password = inp.admin_password;
        })
        w).0
      ≡ ok (with_token token expires_at r)

module _ (crypto : Crypto) (now later : ℕ) (inp : SignupInput) (name slug : List ℕ) (db : ControlDb)
    (t k k2 t2 t3 t4 k4 t5 k5 : ℕ) (rest : List (Turn ControlDb)) (hash : String)
    (right : crypto.check_password hash inp.admin_password ≡ true) where
  abbrev p : Newcomer
  p = newcomer inp name slug t k k2 hash

  abbrev joined : World ControlDb
  joined = world (with_active p db t2 t3) (calm up t4 k4 ∷ calm up t5 k5 ∷ rest)

  abbrev credentials : LoginInput
  credentials = record {
    tenant_slug = slug;
    email = inp.admin_email;
    password = inp.admin_password;
  }

  by_its_slug : find_row (by_slug slug) (with_active p db t2 t3).tenants ≡ some (active_tenant p t3)
  unfolding find_row
  by_its_slug = rw (same_text_refl slug) refl

  by_its_address :
      find_row (by_email crypto.fold k (trim_space inp.admin_email)) (with_active p db t2 t3).users
      ≡ some (admin p t2)
  unfolding find_row
  by_its_address = rw (==_refl k, eq_refl (crypto.fold (trim_space inp.admin_email))) refl

  enters : may_enter crypto credentials (some (admin p t2)) ≡ true
  enters = rw right refl

  issued-ReEnters :
      (token : Option (String × ℕ))
      → ReEnters crypto later inp
          (Service.issued crypto (admin p t2) (active_tenant p t3) token joined)
  unfolding Service.issued pure raise
  issued-ReEnters none = tt
  issued-ReEnters (some (token, expires_at)) = λ token' expires_at' e.
      ap (λ o. o.0)
        ((login-IsUniform crypto (with_active p db t2 t3) later credentials t4 k4 t5 k5 rest).1
          (active_tenant p t3) (admin p t2) token' expires_at' by_its_slug by_its_address enters e)

-- A Signup that returns a result, with no other request meanwhile and no failing connection, makes a
-- login that works: at any instant at which a token is issued for the new admin, Login with the
-- slug of the new tenant, the address as it was given and the same password returns the same user and
-- the same tenant, with that token and its expiry.
pub signup-login :
    (crypto : Crypto) (migrates : List ℕ → Bool) (prefix : List ℕ) (now later : ℕ)
    (inp : SignupInput) (db : ControlDb) (t k k2 t1 k1 t2 t3 k3 t4 k4 t5 k5 : ℕ)
    (rest : List (Turn ControlDb))
    → ((h p : String) → crypto.hash_password p ≡ some h → crypto.check_password h p ≡ true)
    → Unused (db_name_from_slug prefix (slug_of inp)) k k2 db
    → (r : AuthResult) (w : World ControlDb)
    → Signup.signup crypto migrates prefix now inp (
        world db (
          calm up t k
          ∷ calm up t1 k1
          ∷ calm up t2 k2
          ∷ calm up t3 k3
          ∷ calm up t4 k4
          ∷ calm up t5 k5
          ∷ rest))
      ≡ (ok r, w)
    → (token : String) (expires_at : ℕ)
    → crypto.issue_token r.user.id r.tenant.id r.user.role later ≡ some (token, expires_at)
    → (Service.login crypto later
        (record {
          tenant_slug = r.tenant.slug;
          email = inp.admin_email;
          password = inp.admin_password;
        })
        w).0
      ≡ ok (with_token token expires_at r)
unfolding Service.issue
signup-login crypto migrates prefix now later inp db t k k2 t1 k1 t2 t3 k3 t4 k4 t5 k5 rest checks
      unused r w h =
    elim (signup-LeavesNothing crypto migrates prefix now inp db t k k2 unused up up up up up t1 k1
      t2 t3 k3 t4 k4 t5 k5 rest (ground arith)) [
        | inl (e, failed, same) ↦ absurd (ground (arith, h))
        | inr (hash, hashed, joined) ↦ subst (ReEnters crypto later inp) (sym joined ∙ h) (
            issued-ReEnters crypto now later inp (db_name_from_slug prefix (slug_of inp))
              (slug_of inp) db t k k2 t2 t3 t4 k4 t5 k5 rest hash
              (checks hash inp.admin_password hashed) _)
      ]
