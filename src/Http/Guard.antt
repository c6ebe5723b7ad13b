-- ===== src/Http/Guard.antt =====
-- Who reaches the handler of a secured operation (httpserver/server.go, securedChain).
use opero.Prelude.{
  ℕ, String, ◌≡◌, ◌⊎◌, inl, inr, refl, sym, subst, Bool, true, false, Option, some, List, [], ◌∷◌,
  arith, Bool-cases, Option-cases, any_row, has_prefix, is_empty, str_eq, if◌then◌else◌,
}
use opero.Http.Exchange.{Claims, Request, Writer, Handler}
use opero.Http.Auth.{
  bearer_token, write_unauthorized, write_forbidden, authenticator, tenant_authenticator,
  platform_authenticator, accept,
}
use opero.Http.Authz.{role_satisfies, authorizer, gate}
use opero.Http.Tenancy.{
  Tenants, tenant_resolver, tenant_id_value, write_service_unavailable, with_claims, with_db,
  with_pool,
}
use opero.Http.Server.{
  is_tenant_route, is_platform_path, tenanted, gated, secure, secured_chain, tenant_route_prefixes,
}

-- The pool that a request on a route of a tenant gets, and no pool on another.
abbrev pub PoolOf : Tenants → Bool → Claims → Option ℕ → Option ℕ → Type 0
PoolOf tenants true c before p =
    (name : String) × (pool : ℕ) × (tenants.tenant_db_name (tenant_id_value c) ≡ some name)
    × (tenants.pool name ≡ some pool)
    × (p ≡ some pool)
PoolOf tenants false c before p = p ≡ before

module _ (parse : String → Option Claims) (tenants : Tenants) (prefixes : List String)
    (next : Handler) (w : Writer) where
  -- The handler ran, for a caller with a valid token of the path's kind and a role that the scopes
  -- accept, with these claims and, on a route of a tenant, the pool of the claims' tenant.
  pub record Admitted (r : Request) (scopes : List String) (out : Writer) : Type 0 where
    pub claims : Claims
    pub pool : Option ℕ
    pub presented : is_empty (bearer_token r.authorization) ≡ false
    pub parsed : parse (bearer_token r.authorization) ≡ some claims
    pub kind : str_eq claims.kind (if is_platform_path r.path then "platform" else "tenant") ≡ true
    pub role : role_satisfies claims.role scopes ≡ true
    pub tenancy : PoolOf tenants (is_tenant_route prefixes r.path) claims r.tenant_pool pool
    pub ran : out ≡ next (record r { claims = some claims; tenant_pool = pool }) w

  abbrev Entered : Request → Claims → Writer → Type 0
  Entered r c out =
      (out ≡ write_service_unavailable w)
      ⊎ ((p : Option ℕ) × PoolOf tenants (is_tenant_route prefixes r.path) c r.tenant_pool p
          × (out ≡ next (record r { claims = some c; tenant_pool = p }) w))

  resolved :
      (r : Request) (c : Claims)
      → (out : Writer) → out ≡ with_claims tenants next (record r { claims = some c }) w (some c)
      → (out ≡ write_service_unavailable w)
        ⊎ ((p : Option ℕ) × PoolOf tenants true c r.tenant_pool p
            × (out ≡ next (record r { claims = some c; tenant_pool = p }) w))
  unfolding with_claims with_db with_pool
  resolved r c out e = elim (Option-cases (tenants.tenant_db_name (tenant_id_value c))) [
    | inl n ↦ inl (rw n at e)
    | inr (name, n) ↦ elim (Option-cases (tenants.pool name)) [
      | inl m ↦ inl (rw (n, m) at e)
      | inr (p, m) ↦ inr (some p, (name, p, n, m, refl), rw (n, m) at e)
    ]
  ]

  entered :
      (r : Request) (c : Claims) (b : Bool)
      → is_tenant_route prefixes r.path ≡ b
      → Entered r c
          ((if b then tenant_resolver tenants next else next) (record r { claims = some c }) w)
  unfolding tenant_resolver
  entered r c true e = rw e (resolved r c _ refl)
  entered r c false e = inr (r.tenant_pool, rw e refl, refl)

  abbrev pub Verdict : Request → List String → Writer → Type 0
  Verdict r scopes out =
      (out ≡ write_unauthorized w)
      ⊎ (out ≡ write_forbidden w)
      ⊎ (out ≡ write_service_unavailable w)
      ⊎ Admitted r scopes out

  module _ (r : Request) (c : Claims) (presented : is_empty (bearer_token r.authorization) ≡ false)
      (parsed : parse (bearer_token r.authorization) ≡ some c)
      (kind : str_eq c.kind (if is_platform_path r.path then "platform" else "tenant") ≡ true) where
    admit :
        (scopes : List String) (out : Writer)
        → role_satisfies c.role scopes ≡ true
        → Entered r c out
        → Verdict r scopes out
    admit scopes out role (inl e) = inr (inr (inl e))
    admit scopes out role (inr (p, tenancy, e)) = inr (
        inr (
          inr (record {
            claims = c;
            pool = p;
            presented = presented;
            parsed = parsed;
            kind = kind;
            role = role;
            tenancy = tenancy;
            ran = e;
          })))

    past_gate :
        (scopes : List String)
        → Verdict r scopes (
            gated parse tenants prefixes scopes
              (tenanted parse tenants prefixes next r)
              (record r { claims = some c })
              w)
    unfolding gated tenanted authorizer gate role_satisfies
    past_gate [] = admit [] _ refl (entered r c _ refl)
    past_gate (s ∷ ss) = elim (Bool-cases (role_satisfies c.role (s ∷ ss))) [
      | inl y ↦ rw (y, gate) (admit (s ∷ ss) _ y (entered r c _ refl))
      | inr n ↦ inr (inl (rw n refl))
    ]

  -- The end of a path through the authenticator that asks for the kind of token.
  past_token :
      (r : Request) (scopes : List String) (kind : String) (h : Handler)
      → is_empty kind ≡ false
      → ((c : Claims)
          → is_empty (bearer_token r.authorization) ≡ false
          → parse (bearer_token r.authorization) ≡ some c
          → str_eq c.kind kind ≡ true
          → Verdict r scopes (h (record r { claims = some c }) w))
      → Verdict r scopes (authenticator parse kind h r w)
  unfolding authenticator accept
  past_token r scopes kind h named k = elim (Bool-cases (is_empty (bearer_token r.authorization))) [
    | inl e ↦ inl (rw e refl)
    | inr p ↦ elim (Option-cases (parse (bearer_token r.authorization))) [
      | inl e ↦ inl (rw (p, e) refl)
      | inr (c, e) ↦ elim (Bool-cases (str_eq c.kind kind)) [
        | inl y ↦ rw (p, e, named, y) (k c p e y)
        | inr n ↦ inl (rw (p, e, named, n) refl)
      ]
    ]
  ]

  past_kind :
      (r : Request) (scopes : List String) (h : Handler) (b : Bool)
      → ((c : Claims)
          → is_empty (bearer_token r.authorization) ≡ false
          → parse (bearer_token r.authorization) ≡ some c
          → str_eq c.kind (if b then "platform" else "tenant") ≡ true
          → Verdict r scopes (h (record r { claims = some c }) w))
      → Verdict r scopes
          (if b then platform_authenticator parse h r w else tenant_authenticator parse h r w)
  unfolding platform_authenticator tenant_authenticator
  past_kind r scopes h true k = past_token r scopes "platform" h refl k
  past_kind r scopes h false k = past_token r scopes "tenant" h refl k

  -- A secured operation answers 401, 403 or 503 without its handler, or runs its handler, once, for a
  -- caller whose bearer token is valid and of the kind that the path asks for (platform under
  -- /platform/, tenant elsewhere), whose role the scopes accept, with the token's claims and, on a route
  -- of a tenant, the pool of the database of the claims' tenant.
  pub secured_chain-Verdict :
      (r : Request) (scopes : List String)
      → r.scopes ≡ some scopes
      → Verdict r scopes (secured_chain parse tenants prefixes next r w)
  unfolding secured_chain secure
  secured_chain-Verdict r scopes secured =
      subst (λ s. Verdict r scopes (secure parse tenants prefixes next r w s)) (sym secured)
        (past_kind r scopes _ (is_platform_path r.path) λ c p e y. past_gate r c p e y scopes)

-- No path under /platform/ is a route of a tenant: the operations that platform tokens open never get
-- a tenant's pool.
pub platform-HasNoTenant :
    (path : String)
    → is_platform_path path ≡ true
    → is_tenant_route tenant_route_prefixes path ≡ false
unfolding is_platform_path is_tenant_route has_prefix any_row
platform-HasNoTenant String.[] h = absurd (ground arith)
platform-HasNoTenant (String.◌∷◌ c String.[]) h = absurd (ground arith)
platform-HasNoTenant (String.◌∷◌ c (String.◌∷◌ d s)) h = ground arith
