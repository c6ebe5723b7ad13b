-- ===== src/Controlplane/Provision.antt =====
-- controlplane/provision.go: the databases of the tenants. The migrations of a new database are goose's:
-- `migrates` says of a database whether they succeed on it.
use opero.Prelude.{ℕ, Bool, List, ◌∷◌, any_row, delete_rows, take_rows, if◌then◌else◌, str_eq}
use opero.Effects.{
  Answer, rows, no_rows, sql_error, broken, Result, ok, err, query, pure, raise, ◌>>◌,
}
use opero.Effects.Error.{internal}
use opero.Controlplane.Slugs.{same_text}
use opero.Controlplane.Types.{Call, Statement}

-- PostgreSQL cuts an identifier after 63 bytes.
unfoldable pub identifier : List ℕ → List ℕ
identifier name = take_rows 63 name

unfoldable pub create_database : List ℕ → Statement Unit
unfolding identifier
create_database name now fresh db =
    if any_row (same_text (identifier name)) db.databases
    then (sql_error "42P04", db)
    else (rows tt, record db { databases = identifier name ∷ db.databases })

unfoldable pub drop_database : List ℕ → Statement Unit
unfolding identifier
drop_database name now fresh db =
    (rows tt, record db { databases = delete_rows (same_text (identifier name)) db.databases })

-- A database that exists is as good as a new one.
unfoldable pub created : Answer (Unit {0}) → Result (Unit {0})
created (rows u) = ok u
created no_rows = err internal
created (sql_error code) = if str_eq code "42P04" then ok tt else err internal
created broken = err internal

unfoldable pub dropped : Answer (Unit {0}) → Result (Unit {0})
dropped (rows u) = ok u
dropped no_rows = err internal
dropped (sql_error code) = err internal
dropped broken = err internal

unfoldable pub create : (List ℕ → Bool) → List ℕ → Call Unit
unfolding created create_database
create migrates name = do
  query created (create_database name)
  if migrates (identifier name) then pure tt else raise internal

unfoldable pub drop : List ℕ → Call Unit
unfolding dropped drop_database
drop name = query dropped (drop_database name)
