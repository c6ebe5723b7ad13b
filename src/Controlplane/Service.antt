-- ===== src/Controlplane/Service.antt =====
-- controlplane/service.go: Login, CreateUser, DeleteUser and CurrentUser.
use opero.Prelude.{
  ℕ, String, Bool, not, ◌||◌, Option, none, some, str_eq, if◌then◌else◌, trim_space, ltb, is_empty,
  byte_length,
}
use opero.Effects.{M, Result, ok, err, pure, raise, attempt, ◌>>=◌}
use opero.Effects.Error.{
  controlplane, validation, not_found, internal, invalid_credentials, errors_is,
}
use opero.Controlplane.Types.{Tenant, User, LoginInput, AuthResult, CurrentUserResult, Call}
use opero.Controlplane.Store

-- What the service takes from libraries: the comparison of a password with its hash, the hash, the
-- reading of an address (`mail.ParseAddress`), the issue of tokens, at an instant; and the database's
-- `lower`. The clock (`s.now()`) is an argument of the operations that read it, new at each call.
pub record Crypto : Type 0 where
  pub check_password : String → String → Bool
  pub hash_password : String → Option String
  pub parse_address : String → Bool
  pub issue_token : ℕ → ℕ → String → ℕ → Option (String × ℕ)
  pub issue_platform : ℕ → String → ℕ → Option (String × ℕ)
  pub fold : String → String

-- An error that is not found becomes one that says nothing of what was not found.
unfoldable pub found_or_invalid : {A : Type 0} → Result A → Call A
found_or_invalid (ok a) = pure a
found_or_invalid (err e) =
    if errors_is e (not_found controlplane) then raise invalid_credentials else raise e

-- A hash that fails is an error.
abbrev pub hashed : {S : Type 0} → Option String → M S String
hashed none = raise internal
hashed (some h) = pure h

unfoldable pub valid_roles : String → Bool
valid_roles r = str_eq r "admin" || str_eq r "manager" || str_eq r "employee"

unfoldable pub role_or_default : String → String → String
role_or_default r default = if is_empty r then default else r

module _ (crypto : Crypto) where
  open crypto use {check_password, hash_password, parse_address, issue_token, fold}

  unfoldable pub issued : User → Tenant → Option (String × ℕ) → Call AuthResult
  issued user tenant none = raise internal
  issued user tenant (some (token, expires_at)) =
      pure (record { token = token; expires_at = expires_at; user = user; tenant = tenant })

  unfoldable pub issue : ℕ → User → Tenant → Call AuthResult
  unfolding issued
  issue now user tenant = issued user tenant (issue_token user.id tenant.id user.role now)

  unfoldable pub login : ℕ → LoginInput → Call AuthResult
  unfolding found_or_invalid issue
  login now inp = do
    tenant_found ← attempt (Store.get_tenant_by_slug inp.tenant_slug)
    tenant ← found_or_invalid tenant_found
    user_found ← attempt (Store.get_user_by_tenant_and_email fold tenant.id (trim_space inp.email))
    user ← found_or_invalid user_found
    if not (check_password user.password_hash inp.password)
        then raise invalid_credentials
        else if not (str_eq user.status "active")
        then raise invalid_credentials
        else issue now user tenant

  -- What CreateUser refuses.
  unfoldable pub new_user_refused : String → String → String → Bool
  unfolding valid_roles role_or_default
  new_user_refused email password role =
      not (parse_address (trim_space email))
      || ltb (byte_length password) 8
      || not (valid_roles (role_or_default role "employee"))

  -- A login for a tenant; the id of the new user.
  unfoldable pub create_user : ℕ → String → String → String → Call ℕ
  unfolding new_user_refused
  create_user tenant_id email password role =
      if new_user_refused email password role then raise (validation controlplane) else do
        hash ← hashed (hash_password password)
        user ←
            Store.create_user fold tenant_id (trim_space email) hash
              (role_or_default role "employee") "active"
        pure user.id

unfoldable pub delete_user : ℕ → Call Unit
delete_user user_id = Store.delete_user user_id

unfoldable pub current_user : ℕ → Call CurrentUserResult
current_user user_id = do
  user ← Store.get_user_by_id user_id
  tenant ← Store.get_tenant_by_id user.tenant_id
  pure (record { user = user; tenant = tenant })
