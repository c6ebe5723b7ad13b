-- ===== src/Http/Cors.antt =====
-- middleware/cors.go.
use opero.Prelude.{String, Bool, not, ◌&&◌, List, any_row, str_eq, is_empty, if◌then◌else◌}
use opero.Http.Exchange.{Writer, Handler, set_header, add_header, write_status}

unfoldable pub allowed : List String → String → Bool
allowed origins o = any_row (λ a. str_eq a o) origins

unfoldable pub allow_origin : String → Writer → Writer
allow_origin origin w = set_header "Access-Control-Max-Age" "300" (
    set_header "Access-Control-Allow-Headers" "Authorization, Content-Type" (
      set_header "Access-Control-Allow-Methods" "GET, POST, PATCH, DELETE, OPTIONS"
        (add_header "Vary" "Origin" (set_header "Access-Control-Allow-Origin" origin w))))

unfoldable pub cors : List String → Handler → Handler
unfolding allowed allow_origin
cors origins next r w =
    if not (is_empty r.origin) && allowed origins r.origin
    then if str_eq r.method "OPTIONS"
      then write_status 204 (allow_origin r.origin w)
      else next r (allow_origin r.origin w)
    else if str_eq r.method "OPTIONS" && not (is_empty r.origin)
    then write_status 403 w
    else next r w
