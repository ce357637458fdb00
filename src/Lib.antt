-- ===== src/Lib.antt =====
-- The marketplace backend: products, orders, promo codes and users over a PostgreSQL database, behind
-- an HTTP API.
--
-- The program has four layers. An HTTP request passes the middleware (internal/middleware) and reaches
-- a handler; the handler calls a service (service_impl.go of internal/orders, internal/products,
-- internal/promos and internal/users); the service calls repositories (repository_impl.go of the same packages and of
-- internal/operations), and these send SQL to the tables of migrations/000001_init_schema.up.sql. The
-- entities and their rules are in internal/domain/models.go.
--
-- - Prelude: tests and lists for tables (find, select, update_where, ...), and Prelude/Int, signed
--   integers with Go's 64-bit wrap-around and the range of PostgreSQL's INTEGER.
-- - Double: float64, a type with the operations that the program uses. Nothing is assumed of them but
--   in the theorem on discounts, which names what it takes of `<`, NaN included.
-- - Domain: internal/domain/models.go. Domain/Status is the order state machine (ValidTransitions,
--   CanTransitionTo), Domain/Promo is IsValid and CalculateDiscount.
-- - Store: the database. `Db` is the tables as lists of rows, Store/Schema the column types and
--   constraints as tests on a row (and `varchar`, which cuts off spaces that are too many), Store/Action the calls: an action takes the state of a request
--   (the committed tables, the open transaction with its own copy of them, the number of calls made)
--   to a result or an error and a new state. `exec env nil_tx` is a statement on the pool, and
--   `exec env the_tx` one in the transaction; BeginTx, Commit and the deferred Rollback are
--   begin_tx, commit and defer_rollback. `Env` is what comes from outside, numbered by calls: clocks,
--   identifiers and whether the driver fails; the theorems hold for every such environment unless
--   they say otherwise. Store/Outcome and Store/Statements are the rules for reasoning about actions:
--   `Triple db P m Q` says that the action ends with Q, or fails with `db` still committed.
-- - Products, Promos, Operations, Orders: each Repository has a statement for every query and the
--   methods around it, each Service the service's methods under their names in snake case, and each
--   Contract what the methods promise to their callers. Products/Listing is List with its filter and
--   pages, where the order of rows of one time is left to each query, and Products/Order is about
--   listings whose rows have different times. In Orders/Service, `Create`, `Update` and `Cancel` are cut where a transaction begins
--   (create_in_tx, update_in_tx, cancel_in_tx) and at their loops (reserve_items, restore_stock,
--   create_items).
-- - Orders/Inventory counts the units of a product in stock and in orders that are not canceled, and
--   Orders/Conservation follows the count through the services; Orders/Effects has what each call
--   checks, returns and leaves in the table of orders, and sequences of calls.
-- - Orders/Redemptions follows the promo codes and the log of operations through the three services,
--   and Orders/Books the books that follow from it: what the orders say of the promo codes' uses.
-- - Orders/Race cuts `Create` where its transaction begins, and interleaves two calls.
-- - Store/Keeps and Http/Reply/Keeps are the rules for a property of the committed tables that every
--   call of an action or of a handler keeps; Server/Router/Keeps applies them to all routes.
-- - Products/Catalogue is the abstract catalogue that the products service implements: a function from
--   identifiers to products, and its steps, one for each request. Products/Handler is
--   internal/products/handler.go, Promos/Handler is internal/promos/handler.go; Products/Access and
--   Promos/Access are about who may change the tables through them and to what, Promos/Valid about the
--   constraints on promo codes, and Promos/Changes about what the statements do to the code under each
--   identifier.
-- - Users: internal/users, with bcrypt, JWT and the texts of UUIDs as the parameter `Crypto`. What is
--   taken of them is the record `IsSound` of Users/Tokens, which is what their documentation says.
-- - Orders/Handler is internal/orders/handler.go, from decoded bodies to replies; Orders/Replies is
--   about what the replies mean.
-- - Http: internal/errors/errors.go, the authentication and role checks of
--   internal/middleware/auth.go, the request identifier of internal/middleware/requestid.go, and the
--   response writer and the log line of internal/middleware/logging.go. Http/Reply is what the handlers
--   share, and Http/Reply/Rules the rules for reasoning about them. Http/Response is WriteJSON, and
--   the Response modules of Products, Promos and Orders are the conversions to the API's types.
-- - Server: cmd/server/main.go and internal/config/config.go. Server/Retry is connectWithRetry,
--   Server/Url is parseDatabaseURL and maskPassword, Server/Config is Load and the settings of main,
--   and Server/Router its routes, with the middleware and the handlers that they lead to.
--   Server/History is a history of requests to that router, with its rate limit in
--   Server/History/RateLimit. Server/Start is runMigrations and main up to ListenAndServe.
-- - Fixtures has data that the tests share.
--
-- Reads inside a transaction go to the pool in the source, since the repositories' reads take no
-- transaction; in the model they see the committed tables too. Requests run one after the other: a
-- transaction works on the tables that were committed when it began, and no other request commits
-- meanwhile; in Orders/Race two requests take turns. A call can fail at any point and for any reason
-- of the driver; a commit that fails has committed nothing. Identifiers and times are natural numbers,
-- times in nanoseconds since the epoch. No definition has fuel: every loop is over a list or a text, or
-- counts down to its limit.
--
-- Not modelled, as calls of libraries: which path chi matches, what a migration does to the schema,
-- the listener itself, SetupLogger, and the texts that JSON is decoded from and encoded to. Not
-- modelled either: indexes, isolation between concurrent transactions, and Go's panics. The
-- integration tests and test_promo_validation.go are programs that run this one.
pub mod Prelude
pub mod Double
pub mod Domain
pub mod Store
pub mod Products
pub mod Http
pub mod Promos
pub mod Operations
pub mod Fixtures
pub mod Users
pub mod Server
pub mod Orders
