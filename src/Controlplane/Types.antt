-- ===== src/Controlplane/Types.antt =====
-- controlplane/types.go: the domain types, and the tables of the control-plane database. A slug and
-- the name of a database are lists of code points, as in Slugs.
use opero.Prelude.{ℕ, String, Option, List}
use opero.Effects.{M, Query}

pub record Tenant : Type 0 where
  pub id : ℕ
  pub name : String
  pub slug : List ℕ
  pub db_name : List ℕ
  pub status : String
  pub plan : String
  pub created_at : ℕ
  pub updated_at : ℕ

pub record User : Type 0 where
  pub id : ℕ
  pub tenant_id : ℕ
  pub email : String
  pub role : String
  pub status : String
  pub created_at : ℕ
  pub updated_at : ℕ
  pub password_hash : String

pub record PlatformUser : Type 0 where
  pub id : ℕ
  pub email : String
  pub role : String
  pub status : String
  pub created_at : ℕ
  pub updated_at : ℕ
  pub password_hash : String

-- A user with the names of its tenant, without the hash.
pub record PlatformTenantUser : Type 0 where
  pub id : ℕ
  pub tenant_id : ℕ
  pub tenant_name : String
  pub tenant_slug : List ℕ
  pub email : String
  pub role : String
  pub status : String
  pub created_at : ℕ
  pub updated_at : ℕ

-- A row of subscriptions.
pub record Subscription : Type 0 where
  pub id : ℕ
  pub tenant_id : ℕ
  pub plan : String
  pub status : String
  pub created_at : ℕ
  pub updated_at : ℕ

pub record PlatformSubscription : Type 0 where
  pub id : ℕ
  pub tenant_id : ℕ
  pub tenant_name : String
  pub tenant_slug : List ℕ
  pub plan : String
  pub status : String
  pub created_at : ℕ
  pub updated_at : ℕ

-- The map of the changed fields, an association list with distinct keys whose order says nothing.
abbrev pub Metadata : Type 0
Metadata = List (String × String)

-- A row of super_admin_audit_events.
pub record AuditRow : Type 0 where
  pub id : ℕ
  pub actor_platform_user_id : ℕ
  pub action : String
  pub target_type : String
  pub target_id : Option ℕ
  pub tenant_id : Option ℕ
  pub metadata : Metadata
  pub created_at : ℕ

pub record SuperAdminAuditEvent : Type 0 where
  pub id : ℕ
  pub actor_platform_user_id : ℕ
  pub actor_email : String
  pub action : String
  pub target_type : String
  pub target_id : Option ℕ
  pub tenant_id : Option ℕ
  pub tenant_name : Option String
  pub tenant_slug : Option (List ℕ)
  pub metadata : Metadata
  pub created_at : ℕ

pub record SystemHealth : Type 0 where
  pub control_plane : String
  pub tenants_by_status : List (String × ℕ)

pub record SignupInput : Type 0 where
  pub company_name : String
  pub slug : List ℕ
  pub admin_full_name : String
  pub admin_email : String
  pub admin_password : String

pub record LoginInput : Type 0 where
  pub tenant_slug : List ℕ
  pub email : String
  pub password : String

pub record AuthResult : Type 0 where
  pub token : String
  pub expires_at : ℕ
  pub user : User
  pub tenant : Tenant

pub record PlatformLoginInput : Type 0 where
  pub email : String
  pub password : String

pub record PlatformAuthResult : Type 0 where
  pub token : String
  pub expires_at : ℕ
  pub user : PlatformUser

pub record CurrentUserResult : Type 0 where
  pub user : User
  pub tenant : Tenant

-- The tables, and the databases of the server by their names.
pub record ControlDb : Type 0 where
  pub tenants : List Tenant
  pub users : List User
  pub platform_users : List PlatformUser
  pub subscriptions : List Subscription
  pub audit_events : List AuditRow
  pub databases : List (List ℕ)

abbrev pub Call : Type 0 → Type 0
Call = M ControlDb

abbrev pub Statement : Type 0 → Type 0
Statement = Query ControlDb
