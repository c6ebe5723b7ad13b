-- ===== src/Http/Exchange.antt =====
-- A request with what middleware puts in its context, the response as the writer that handlers change,
-- and handlers (net/http as the middleware uses it).
use opero.Prelude.{
  ℕ, String, Option, none, some, List, [], ◌∷◌, ◌++◌, delete_rows, find_row, is_some, str_eq,
  if◌then◌else◌,
}

-- auth.Claims, without the registered claims. An absent tenant id is `none`.
pub record Claims : Type 0 where
  pub kind : String
  pub tenant_id : Option ℕ
  pub role : String
  pub subject : String

-- `scopes` is what the generated router puts in the context of an operation that the API marks as
-- secured. An absent header is the empty text.
pub record Request : Type 0 where
  pub method : String
  pub path : String
  pub authorization : String
  pub origin : String
  pub scopes : Option (List String)
  pub claims : Option Claims
  pub tenant_pool : Option ℕ

pub record Writer : Type 0 where
  pub headers : List (String × String)
  pub status : Option ℕ
  pub body : List (String × String)

abbrev pub Handler : Type 0
Handler = Request → Writer → Writer

-- `Header().Set`, `Header().Add`, `Header().Get`.
unfoldable pub set_header : String → String → Writer → Writer
set_header k v w = record w { headers = (k, v) ∷ delete_rows (λ h. str_eq h.0 k) w.headers }

unfoldable pub add_header : String → String → Writer → Writer
add_header k v w = record w { headers = w.headers ++ ((k, v) ∷ []) }

abbrev pub value_of : Option (String × String) → Option String
value_of none = none
value_of (some h) = some h.1

unfoldable pub get_header : String → Writer → Option String
get_header k w = value_of (find_row (λ h. str_eq h.0 k) w.headers)

-- `WriteHeader`: only the first call counts.
unfoldable pub write_status : ℕ → Writer → Writer
write_status code w = if is_some w.status then w else record w { status = some code }

unfoldable pub write_json : List (String × String) → Writer → Writer
write_json fields w = record w { body = w.body ++ fields }
