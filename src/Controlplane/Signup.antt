-- ===== src/Controlplane/Signup.antt =====
-- controlplane/service.go: Signup and its clean-up.
use opero.Prelude.{ℕ, Bool, not, ◌||◌, List, if◌then◌else◌, trim_space, is_blank, ltb, byte_length}
use opero.Effects.{Result, ok, err, pure, raise, attempt, ◌>>=◌, ◌>>◌}
use opero.Effects.Error.{controlplane, validation}
use opero.Controlplane.Slugs.{is_nil, derive_slug, validate_slug, db_name_from_slug}
use opero.Controlplane.Types.{Tenant, User, SignupInput, AuthResult, Call}
use opero.Controlplane.Service.{Crypto, hashed, issue}
use opero.Controlplane.Provision
use opero.Controlplane.Store

-- The failures of the clean-up are logged only.
unfoldable pub cleanup : ℕ → List ℕ → Call Unit
cleanup tenant_id db_name = do
  attempt (Provision.drop db_name)
  attempt (Store.delete_tenant tenant_id)
  pure tt

-- A step after the row of the tenant is there: its failure cleans up and is returned.
abbrev pub or_cleanup : {A : Type 0} → ℕ → List ℕ → Result A → Call A
or_cleanup tenant_id db_name (ok a) = pure a
or_cleanup tenant_id db_name (err e) = cleanup tenant_id db_name >> raise e

unfoldable pub slug_of : SignupInput → List ℕ
slug_of inp = if is_nil inp.slug then derive_slug inp.company_name else inp.slug

module _ (crypto : Crypto) (migrates : List ℕ → Bool) (db_prefix : List ℕ) where
  open crypto use {hash_password, parse_address, fold}

  -- The steps up to the activated tenant, each compensated.
  unfoldable pub set_up : SignupInput → ℕ → List ℕ → Call (User × Tenant)
  unfolding cleanup
  set_up inp tenant_id db_name = do
    provisioned ← attempt (Provision.create migrates db_name)
    or_cleanup tenant_id db_name provisioned
    hash_made ← attempt (hashed (hash_password inp.admin_password))
    hash ← or_cleanup tenant_id db_name hash_made
    user_made ←
        attempt
          (Store.create_user fold tenant_id (trim_space inp.admin_email) hash "admin" "active")
    user ← or_cleanup tenant_id db_name user_made
    activated ← attempt (Store.set_tenant_status tenant_id "active")
    tenant ← or_cleanup tenant_id db_name activated
    pure (user, tenant)

  unfoldable pub signup : ℕ → SignupInput → Call AuthResult
  unfolding set_up slug_of
  signup now inp =
      let db_name = db_name_from_slug db_prefix (slug_of inp) in
      if is_blank inp.company_name || not (validate_slug (slug_of inp))
      then raise (validation controlplane)
      else if not (parse_address (trim_space inp.admin_email))
      then raise (validation controlplane)
      else if ltb (byte_length inp.admin_password) 8
      then raise (validation controlplane)
      else do
        tenant ← Store.create_tenant inp.company_name (slug_of inp) db_name "free"
        (user, active) ← set_up inp tenant.id db_name
        issue crypto now user active
