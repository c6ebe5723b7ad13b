-- ===== src/Lib.antt =====
-- The Opero backend (backend/): a Go server for the staff of tour companies. Each company is a tenant
-- with a PostgreSQL database of its own; one control-plane database knows the tenants and the logins.
--
-- How a request runs. The router puts an operation through the middleware of
-- backend/internal/platform (Http): CORS, then for a secured operation authentication, the role gate and
-- the tenant's pool. The handler calls a service (backend/internal/<package>/service.go), the service a
-- store (store.go), and the store the generated statements (backend/gen/sqlc/<package>).
--
-- Files.
--   Prelude     names of the libraries, Boolean tests, tables as lists of rows, sorting, text, integers,
--               and the calendar of Go's time package in UTC
--   Effects     requests as state-passing functions on a database, with sentinel errors (Effects.Error),
--               invariants (Effects.Keeps), triples (Effects.Triple), transactions (Effects.Transaction,
--               Effects.Atomic) and runs step by step (Effects.Runs)
--   Tenant      the tables of a tenant's database (backend/db/migrations/tenant)
--   Resolvers   the interfaces EmployeeResolver and ShiftResolver between the packages
--   Attendance  backend/internal/attendance: CheckIn, CheckOut, SetBreak, the lists, the demo records
--   Leave       backend/internal/leave: CreateMyLeave, Approve, Reject, MyBalance, the lists
--   Roster      backend/internal/roster: locations and shifts
--   Identity    backend/internal/identity: departments, employees and roles, and the look-up of the
--               employee of a user
--   Tours       backend/internal/tours: the tour catalog
--   Http        backend/internal/platform/middleware and httpserver, the route prefixes of
--               backend/cmd/api/main.go
--   Pools       backend/internal/platform/db: the cache of the pools of the tenant databases
--   LiveView    backend/internal/liveview: the board of who is working, on the three packages it joins
--   Stats       backend/internal/stats: the numbers of one employee; float64 and the bounds of months are
--               parameters
--   Controlplane  backend/internal/controlplane: slugs, names of databases, Signup with its clean-up, Login
--               and the logins of tenants; Controlplane.Platform the operations of Opero's own staff
--   Logins      CreateEmployeeLogin of backend/internal/identity, on the pair of a tenant's database and
--               the control plane's
--   Examples    runs of the theorems at concrete inputs
-- In each package Types are the structs, Queries the SQL statements with the constraints of their tables,
-- Store the statements with their errors mapped to sentinels (mapErr), Service the service. A Go method
-- FooBar is foo_bar.
--
-- Time and other requests. Every statement takes one turn of the environment (Effects.Turn): what other
-- requests commit just before it, whether the connection holds, the database's clock and the key that it
-- generates. So a request is not atomic, its statements are: a theorem on Keeps or Triple holds for every
-- interleaving of the statements with other requests that keep the same property, and for every failure
-- of the connection, also one after the commit. A theorem on quiet turns says what a request does with no
-- other request between its statements. A request whose turns have run out gets the answer of a broken
-- connection, so no theorem needs a bound on them: those that promise success give the turns that the
-- request takes. A transaction (InTx) is one turn: its statements run in order on one state, and an answer
-- that is an error rolls back all of them. CREATE and DROP DATABASE are statements on the server's list of
-- databases, whose names PostgreSQL cuts after 63 bytes.
--
-- Data. Identifiers are numbers and uuid.Nil is 0; an instant is nanoseconds since Go's zero time, of
-- which the driver sends whole microseconds (to_micros): the rows and the CHECKs of the database have
-- those, the tests of the services are on nanoseconds. The clock of a service (s.now()) is an argument of
-- each call that reads it. A date is a day number; a coordinate or a rating is the bit pattern of a
-- float64, since it is only stored; a nullable column is an Option. SQL promises no order without ORDER
-- BY, and a table is a list in which a new row goes to the front. An UPDATE by a unique key changes the
-- rows that the key finds.
--
-- Not modelled. JSON and the handlers of the packages, logging, error messages, the verification of
-- tokens and of passwords (libraries, which are parameters where the code relies on them), the
-- migrations that goose runs on a new database (a parameter says whether they succeed),
-- demo data, media and storage, configuration, command-line tools, and the clients.
pub mod Prelude
pub mod Effects
pub mod Tenant
pub mod Resolvers
pub mod Attendance
pub mod Leave
pub mod Roster
pub mod Identity
pub mod Tours
pub mod Http
pub mod Pools
pub mod LiveView
pub mod Stats
pub mod Controlplane
pub mod Logins
pub mod Examples
