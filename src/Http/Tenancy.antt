-- ===== src/Http/Tenancy.antt =====
-- middleware/tenant.go: the tenant's pool.
use opero.Prelude.{ℕ, String, Option, none, some, [], ◌∷◌}
use opero.Http.Exchange.{Claims, Request, Writer, Handler, set_header, write_status, write_json}
use opero.Http.Auth.{write_unauthorized}

unfoldable pub write_service_unavailable : Writer → Writer
write_service_unavailable w =
    write_json (("code", "unavailable") ∷ ("message", "tenant temporarily unavailable") ∷ [])
      (write_status 503 (set_header "Content-Type" "application/json" w))

-- `Claims.TenantIDValue`: the nil id, 0, if there is none.
unfoldable pub tenant_id_value : Claims → ℕ
tenant_id_value c = or_nil c.tenant_id
  where
    or_nil : Option ℕ → ℕ
    or_nil none = 0
    or_nil (some t) = t

-- `TenantRegistry` and `TenantPools`: a failure is `none`, and a pool is a number.
pub record Tenants : Type 0 where
  pub tenant_db_name : ℕ → Option String
  pub pool : String → Option ℕ

module _ (tenants : Tenants) where
  unfoldable pub with_pool : Handler → Request → Writer → Option ℕ → Writer
  with_pool next r w none = write_service_unavailable w
  with_pool next r w (some p) = next (record r { tenant_pool = some p }) w

  unfoldable pub with_db : Handler → Request → Writer → Option String → Writer
  unfolding with_pool
  with_db next r w none = write_service_unavailable w
  with_db next r w (some name) = with_pool next r w (tenants.pool name)

  unfoldable pub with_claims : Handler → Request → Writer → Option Claims → Writer
  unfolding with_db
  with_claims next r w none = write_unauthorized w
  with_claims next r w (some c) = with_db next r w (tenants.tenant_db_name (tenant_id_value c))

  unfoldable pub tenant_resolver : Handler → Handler
  unfolding with_claims
  tenant_resolver next r w = with_claims next r w r.claims
