-- ===== src/Http/Auth.antt =====
-- middleware/auth.go: the bearer token.
use opero.Prelude.{
  String, Bool, not, ◌&&◌, Option, none, some, [], ◌∷◌, str_eq, is_empty, trim_space, cut_prefix,
  if◌then◌else◌,
}
use opero.Http.Exchange.{Claims, Request, Writer, Handler, set_header, write_status, write_json}

unfoldable pub trimmed : Option String → String
trimmed none = ""
trimmed (some after) = trim_space after

unfoldable pub bearer_token : String → String
unfolding trimmed
bearer_token header = trimmed (cut_prefix header "Bearer ")

unfoldable pub write_unauthorized : Writer → Writer
write_unauthorized w =
    write_json (("code", "unauthorized") ∷ ("message", "authentication required") ∷ [])
      (write_status 401 (set_header "Content-Type" "application/json" w))

unfoldable pub write_forbidden : Writer → Writer
write_forbidden w =
    write_json (("code", "forbidden") ∷ ("message", "insufficient role") ∷ [])
      (write_status 403 (set_header "Content-Type" "application/json" w))

-- `parse` is `TokenManager.Parse`: the verification of a JSON web token.
module _ (parse : String → Option Claims) where
  abbrev pub wrong_kind : String → Claims → Bool
  wrong_kind required_kind c = not (is_empty required_kind) && not (str_eq c.kind required_kind)

  unfoldable pub accept : String → Handler → Request → Writer → Option Claims → Writer
  accept required_kind next r w none = write_unauthorized w
  accept required_kind next r w (some c) =
      if wrong_kind required_kind c
      then write_unauthorized w
      else next (record r { claims = some c }) w

  unfoldable pub authenticator : String → Handler → Handler
  unfolding accept
  authenticator required_kind next r w =
      let raw = bearer_token r.authorization in
      if is_empty raw then write_unauthorized w else accept required_kind next r w (parse raw)

  unfoldable pub tenant_authenticator : Handler → Handler
  unfolding authenticator
  tenant_authenticator = authenticator "tenant"

  unfoldable pub platform_authenticator : Handler → Handler
  unfolding authenticator
  platform_authenticator = authenticator "platform"
