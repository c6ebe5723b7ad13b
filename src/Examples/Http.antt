-- ===== src/Examples/Http.antt =====
-- Runs of the theorems on the HTTP layer.
use opero.Prelude.{
  String, ◌≡◌, ◌↔◌, refl, true, false, not, Option, none, some, List, [], ◌∷◌, ltb, any_row,
  is_empty, str_eq, if◌then◌else◌, arith, find_row,
}
use opero.Http.Exchange.{Claims, Request, Writer, Handler, get_header, write_status}
use opero.Http.Authz.{role_rank, role_satisfies}
use opero.Http.Cors.{allow_origin, cors}
use opero.Http.Tenancy.{Tenants}
use opero.Http.Server.{is_tenant_route, tenant_route_prefixes, secured_chain}
use opero.Http.Roles.{role_satisfies-IsEach}
use opero.Http.Guard.{Verdict, secured_chain-Verdict, platform-HasNoTenant}
use opero.Http.Origins.{named, IsListed, cors-Confines}

abbrev a_claim : Claims
a_claim = record { kind = "tenant"; tenant_id = some 4; role = "manager"; subject = "3" }

abbrev parse_one : String → Option Claims
parse_one raw = if str_eq raw "good" then some a_claim else none

abbrev one_tenant : Tenants
one_tenant = record { tenant_db_name = λ t. some "opero_tenant_acme"; pool = λ name. some 1 }

abbrev a_request : Request
a_request = record {
  method = "POST";
  path = "/shifts";
  authorization = "Bearer good";
  origin = "http://localhost:5173";
  scopes = some ("manager" ∷ []);
  claims = none;
  tenant_pool = none;
}

abbrev blank : Writer
blank = record { headers = []; status = none; body = [] }

abbrev done : Handler
done r w = write_status 201 w

secured_chain-Verdict_example :
    Verdict parse_one one_tenant tenant_route_prefixes done blank a_request
      ("manager" ∷ [])
      (secured_chain parse_one one_tenant tenant_route_prefixes done a_request blank)
secured_chain-Verdict_example =
    secured_chain-Verdict parse_one one_tenant tenant_route_prefixes done blank a_request
      ("manager" ∷ []) refl

platform-HasNoTenant_example : is_tenant_route tenant_route_prefixes "/platform/tenants" ≡ false
unfolding opero.Http.Server.is_platform_path
platform-HasNoTenant_example = platform-HasNoTenant "/platform/tenants" refl

role_satisfies-IsEach_example :
    role_satisfies "manager" ("employee" ∷ "admin" ∷ [])
    ≡ not (any_row (λ r. ltb (role_rank "manager") (role_rank r)) ("employee" ∷ "admin" ∷ []))
role_satisfies-IsEach_example = role_satisfies-IsEach "manager" ("employee" ∷ "admin" ∷ [])

abbrev origins : List String
origins = "http://localhost:5173" ∷ []

done-is_silent : (v : Writer) → named (done a_request v) ≡ named v
unfolding write_status get_header
done-is_silent v = ground arith

cors-Confines_example :
    let out = cors origins done a_request blank in
    ((o : String) → (named out ≡ some o) ↔ ((o ≡ a_request.origin) × IsListed origins a_request))
    × (str_eq "POST" "OPTIONS" ≡ true
        → is_empty a_request.origin ≡ false
        → (IsListed origins a_request
            → out ≡ write_status 204 (allow_origin a_request.origin blank))
          × ((IsListed origins a_request → ⊥) → out ≡ write_status 403 blank))
    × (str_eq "POST" "OPTIONS" ≡ false
        → (v : Writer) × (out ≡ done a_request v) × (v.status ≡ none) × (v.body ≡ []))
unfolding get_header find_row
cors-Confines_example =
    cors-Confines ("http://localhost:5173" ∷ []) done a_request blank done-is_silent refl
