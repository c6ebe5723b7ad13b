-- ===== src/Http/Authz.antt =====
-- middleware/authz.go: the rank of roles and the role gate.
use opero.Prelude.{
  ℕ, String, Bool, true, not, Option, none, some, List, [], ◌∷◌, ltb, leb, str_eq, if◌then◌else◌,
}
use opero.Http.Exchange.{Claims, Request, Writer, Handler}
use opero.Http.Auth.{write_unauthorized, write_forbidden}

-- A look-up in `roleRank`: an absent key is 0.
unfoldable pub role_rank : String → ℕ
role_rank r =
    if str_eq r "employee"
    then 1
    else if str_eq r "manager"
    then 2
    else if str_eq r "admin"
    then 3
    else 0

-- The loop over the scopes, with the highest rank so far.
unfoldable pub highest : ℕ → List String → ℕ
highest need [] = need
highest need (r ∷ rs) = highest (if ltb need (role_rank r) then role_rank r else need) rs

unfoldable pub role_satisfies : String → List String → Bool
unfolding highest
role_satisfies actual [] = true
role_satisfies actual (r ∷ rs) = leb (highest 0 (r ∷ rs)) (role_rank actual)

unfoldable pub gate : List String → Handler → Request → Writer → Option Claims → Writer
gate required next r w none = write_unauthorized w
gate required next r w (some c) =
    if not (role_satisfies c.role required) then write_forbidden w else next r w

unfoldable pub authorizer : List String → Handler → Handler
unfolding gate
authorizer required next r w = gate required next r w r.claims
