-- ===== src/Lib.antt =====
-- CellarKeep server: accounts, invites, sessions, stock and vessels of a shared cellar, served over HTTP.
-- Requests pass auth.Middleware, which finds the caller, then the gate of the router, which decides by
-- the operation of the matched route, then a handler, which calls the domain's operations; these call
-- the queries of the store, some inside one transaction.
--
-- - Prelude: the library names and the list, sort and text functions that the other files share.
-- - Store: internal/store. Store/Model has the row types of internal/store/gen/models.go and the
--   tables, Store/Enums its enums with their Scan and Value methods; Store/Action a call of the
--   database as a function from a World (tables and a tick) to a result and a World, with
--   Store.WithTx of internal/store/db.go as `with_tx`; Store/Users, Store/Invites, Store/Inventory
--   and Store/Vessels the queries of internal/store/gen/*.sql.go, one function each, from the SQL
--   text and the constraints of internal/migrations. Store/Triple holds the pre- and postconditions
--   of calls, Store/Healthy a database that always answers.
-- - Http: what the server reads of a request and writes of a response.
-- - Auth: internal/auth. Auth/Limiter is ratelimit.go, Auth/Password password.go, Auth/Middleware
--   middleware.go over any state of a server.
-- - Domain: internal/domain. Domain/Users and Domain/Sessions are users.go and devices.go
--   (Users.Setup is `setup`, Sessions.Principal `principal`, Invites.Create `create_invite_link`),
--   Domain/Inventory inventory.go, Domain/Vessels vessels.go, Domain/Schedule schedule.go,
--   Domain/Dates dates.go with the calendar of package time, Domain/EventData eventdata.go,
--   Domain/Metrics metrics.go and calc.go. Domain/Users/Race has calls of Register by one invite
--   that overlap in time, as steps of the statements of their transactions (Race/Atomic relates
--   them to calls one after the other, Race/Progress has the waits for the unique index on the
--   addresses of users), and Domain/Users/SetupRace calls of Setup, with the advisory lock of
--   LockSetup.
-- - Api: internal/api. Api/Router is router.go, Api/Types the types of server.gen.go with decode
--   and writeErr of handlers.go, Api/Handlers and its children the handlers (Handlers.AuthLogin is
--   `auth_login`), Api/Server the middleware, the gate and a handler put together. Api/Call has the
--   operations and routes of server.gen.go, Api/Wrapper its wrappers and a whole request
--   (`respond`), Api/Wrapper/Contract the paths of api/openapi.yaml, Api/App NewRouter. Api/Enums
--   has the Valid methods of server.gen.go, Api/Generated its server over any ServerInterface.
-- - Keeps, in Store, Domain and Api: one lemma for each operation and handler, that it keeps what
--   every query keeps; Api/Wrapper/History takes it to sequences of requests.
-- - Config: internal/config, and in Config/Start the commands of cmd/cellarkeep/main.go;
--   Config/Start/Init adds what runs before main.
-- - Tests: a concrete runtime, and the properties at concrete inputs.
--
-- The libraries behind the code are the record `Runtime` of Store/Action: whether a statement or a
-- commit is answered, refused, or takes effect with its answer lost, at each tick; the clock, random
-- bytes, the text, base64, argon2 and float functions. No theorem assumes more of them than its
-- hypotheses say. Floats are bit patterns behind the operations of `Floats`; a uuid and an instant
-- are numbers. Every loop of the code is over a list; AddDate
-- repeats a day on or back as often as it is told. One function runs on fuel: `wide` of
-- Domain/Dates writes a year n of more than four digits with fuel n, enough as each round divides by 10.
--
-- Not modelled: transactions that overlap in time, but for registrations by one invite and for setups
-- (elsewhere a request runs its statements without others between them, so the advisory lock of
-- LockSetup returns at once), cancelled contexts, logging, the JSON decoder (`Decoded` is its
-- outcome), the binding of path parameters (`Param` is its outcome), chi's matching of routes and its
-- middleware, signals and the graceful shutdown.
-- The addition of days is an argument of Domain/Schedule, which Schedule/Totals fills by Domain/Dates.
pub mod Prelude
pub mod Store
pub mod Config
pub mod Http
pub mod Auth
pub mod Domain
pub mod Api
pub mod Tests
