-- ===== src/Examples/Controlplane.antt =====
-- Runs of the theorems on the control plane.
use opero.Prelude.{
  ℕ, String, ◌≡◌, refl, true, false, ◌||◌, some, [], ◌∷◌, str_eq, find_row, trim_space,
}
use opero.Effects.{ok, err, World, quiet}
use opero.Effects.Error.{invalid_credentials}
use opero.Controlplane.Types.{Tenant, User, PlatformUser, LoginInput, ControlDb}
use opero.Controlplane.Queries.{by_slug, by_email}
use opero.Controlplane.Service
use opero.Controlplane.Service.{Crypto}
use opero.Controlplane.Slugs.{codes, derive_slug, is_nil, matches_from, db_name_from_slug}
use opero.Controlplane.Names.{derive_slug-Matches, db_name_from_slug-IsInjective}
use opero.Controlplane.Login.{user_of, may_enter, login-IsUniform}

a_slug : derive_slug "  Hội An -- Tours! " ≡ codes "h-i-an-tours"
unfolding derive_slug trim_space
a_slug = refl

derive_slug-Matches_example :
    (is_nil (derive_slug "Saigon Tours 24") || matches_from false (derive_slug "Saigon Tours 24"))
    ≡ true
derive_slug-Matches_example = derive_slug-Matches "Saigon Tours 24"

db_name_from_slug-IsInjective_example : codes "hoi-an" ≡ codes "hoi-an"
unfolding opero.Controlplane.Slugs.validate_slug
db_name_from_slug-IsInjective_example =
    db_name_from_slug-IsInjective (codes "opero_tenant_") (codes "hoi-an") (codes "hoi-an") refl
      refl refl

abbrev pub some_crypto : Crypto
some_crypto = record {
  check_password = λ hash plain. str_eq hash plain;
  hash_password = λ plain. some plain;
  parse_address = λ address. true;
  issue_platform = λ user role now. some ("token", now);
  issue_token = λ user tenant role now. some ("token", now);
  fold = λ s. s;
}

abbrev acme : Tenant
acme = record {
  id = 4;
  name = "Acme";
  slug = codes "acme";
  db_name = codes "opero_tenant_acme";
  status = "active";
  plan = "free";
  created_at = 1;
  updated_at = 1;
}

abbrev an_admin : User
an_admin = record {
  id = 3;
  tenant_id = 4;
  email = "linh@acme.test";
  role = "admin";
  status = "active";
  created_at = 1;
  updated_at = 1;
  password_hash = "correct horse";
}

abbrev pub a_supporter : PlatformUser
a_supporter = record {
  id = 2;
  email = "an@opero.test";
  role = "support";
  status = "active";
  created_at = 1;
  updated_at = 1;
  password_hash = "a long password";
}

abbrev pub control : ControlDb
control = record {
  tenants = acme ∷ [];
  users = an_admin ∷ [];
  platform_users = a_supporter ∷ [];
  subscriptions = [];
  audit_events = [];
  databases = codes "opero_tenant_acme" ∷ [];
}

abbrev wrong : LoginInput
wrong = record { tenant_slug = codes "acme"; email = " linh@acme.test"; password = "battery" }

abbrev at_login : World ControlDb
at_login = record { pool = false; db = control; turns = quiet 1 0 ∷ quiet 2 0 ∷ [] }

login-IsUniform_example :
    (may_enter some_crypto wrong
          (user_of some_crypto control wrong (find_row (by_slug wrong.tenant_slug) control.tenants))
        ≡ false
      → (Service.login some_crypto 9 wrong at_login).0 ≡ err invalid_credentials)
    × ((tenant : Tenant) (user : User) (token : String) (expires_at : ℕ)
        → find_row (by_slug wrong.tenant_slug) control.tenants ≡ some tenant
        → find_row (by_email some_crypto.fold tenant.id (trim_space wrong.email)) control.users
          ≡ some user
        → may_enter some_crypto wrong (some user) ≡ true
        → some_crypto.issue_token user.id tenant.id user.role 9 ≡ some (token, expires_at)
        → Service.login some_crypto 9 wrong at_login ≡ (
          ok (record { token = token; expires_at = expires_at; user = user; tenant = tenant }),
          record { pool = false; db = control; turns = [] },
        ))
login-IsUniform_example = login-IsUniform some_crypto control 9 wrong 1 0 2 0 []
