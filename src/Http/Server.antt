-- ===== src/Http/Server.antt =====
-- httpserver/server.go: which middleware an operation gets, with the prefixes of cmd/api/main.go.
use opero.Prelude.{
  String, Bool, Option, none, some, List, [], ◌∷◌, any_row, has_prefix, if◌then◌else◌,
}
use opero.Http.Exchange.{Claims, Request, Writer, Handler}
use opero.Http.Auth.{tenant_authenticator, platform_authenticator}
use opero.Http.Authz.{authorizer}
use opero.Http.Tenancy.{Tenants, tenant_resolver}

abbrev pub tenant_route_prefixes : List String
tenant_route_prefixes =
    "/departments" ∷ "/employees" ∷ "/roles" ∷ "/shifts" ∷ "/locations" ∷ "/attendance" ∷ "/live"
    ∷ "/leave" ∷ "/tours" ∷ "/demo" ∷ "/me/shifts" ∷ "/me/leave" ∷ "/me/stats" ∷ []

unfoldable pub is_tenant_route : List String → String → Bool
unfolding has_prefix
is_tenant_route prefixes path = any_row (has_prefix path) prefixes

unfoldable pub is_platform_path : String → Bool
unfolding has_prefix
is_platform_path path = has_prefix path "/platform/"

module _ (parse : String → Option Claims) (tenants : Tenants) (prefixes : List String) where
  -- `h = tenant(h)`, if the route is a tenant's.
  unfoldable pub tenanted : Handler → Request → Handler
  tenanted next r = if is_tenant_route prefixes r.path then tenant_resolver tenants next else next

  -- The role gate, if there are scopes.
  unfoldable pub gated : List String → Handler → Handler
  gated [] h = h
  gated (s ∷ ss) h = authorizer (s ∷ ss) h

  unfoldable pub secure : Handler → Request → Writer → Option (List String) → Writer
  unfolding tenanted gated
  secure next r w none = next r w
  secure next r w (some scopes) =
      let h = gated scopes (tenanted next r) in
      if is_platform_path r.path
      then platform_authenticator parse h r w
      else tenant_authenticator parse h r w

  unfoldable pub secured_chain : Handler → Handler
  unfolding secure
  secured_chain next r w = secure next r w r.scopes
