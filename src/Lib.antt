-- ===== src/Lib.antt =====
-- Verification of the authentication service: registration, login, refresh-token rotation with
-- detection of reuse, logout and session revocation, as several instances behind a load balancer
-- share them through one PostgreSQL and one Redis.
--
-- The parts, and how they interact. cmd/server/main.go reads the configuration
-- (internal/config/config.go), opens the connections (internal/database) and serves the routes of
-- internal/handler/handler.go. A request goes through the middleware of internal/middleware in the
-- order of Routes: an identifier, the security headers, CORS, the request log, the deadline and the
-- recovery from panics; then through the rate limit or the check of the access token of its route,
-- to its handler, which calls internal/service/auth_service.go. The service's
-- methods call internal/service/token_service.go for access tokens (JWT) and new refresh tokens,
-- internal/repository for users and sessions (PostgreSQL) and refresh tokens (Redis), and
-- internal/service/audit_service.go for the audit log. An instance keeps no state of its own, so the
-- state of the model is what is outside: the cache, the database, and the machine's clock and
-- entropy. The rate limit (internal/service/rate_limit_service.go) keeps its counters in Redis too.
--
-- Which file models which part.
--   Prelude             shared names, Boolean tests, integers; Prelude/Exec the computations that
--                       change a state and may return an error, with rules for what they keep and
--                       which errors they return
--   Errors              the error values of internal/service and internal/repository
--   Go                  what is used of the packages strings, strconv and time
--   Model               internal/model
--   Config              internal/config/config.go: Load; Config/Env reads one variable; Config/Checked
--                       what a configuration that is loaded has passed
--   Http                what is used of net/http: requests, headers, a writer of a response, and the
--                       libraries of the handlers as parameters (Http/Library)
--   Middleware          internal/middleware/middleware.go and context.go: Response, Basic, Timeout;
--                       Middleware/Guards has auth_middleware.go and rate_limit_middleware.go; Status,
--                       Carried, Passed, Guarded, Limited and Origins have proofs
--   Handler             internal/handler: the cookie and the data of a request; Response
--                       (response.go), Accounts and Tokens (the handlers), Routes; Success, Cookies,
--                       Grants, SignIn, SignUp, Revokes and the modules of Routes have proofs
--   Database, Server    internal/database, and cmd/server/main.go up to the server that listens
--   Platform            the servers and libraries as parameters; Platform/Laws what is asked of them
--   Repository          internal/repository: RefreshToken (refresh_token_repository.go), Session, User,
--                       AuditLog, Clock (system_repository.go and time.Until)
--   Service/Token       internal/service/token_service.go; Service/Token/Jwt what golang-jwt documents of
--                       its parser
--   Service/Audit       internal/service/audit_service.go
--   Service/Health      internal/service/health_service.go
--   Service/RateLimit   internal/service/rate_limit_service.go
--   Service/Auth        internal/service/auth_service.go: Login and Register; Service/Auth/Refresh has
--                       RefreshAccessToken, Service/Auth/Logout has Logout, LogoutAll, ListSessions and
--                       RevokeSession; Service/Auth/Sequence any sequence of these calls
--   Service/Spent       refresh tokens that cannot be exchanged, and what the repositories' methods
--                       do to them; the modules Spending of Service/Auth have the service's methods
--   InMemory, Examples  a platform in memory that keeps the laws, and runs on it
-- A function of the source keeps its name in snake case: FindByToken is find_by_token, and so on. A
-- block behind `if err != nil` is the handler of a `catch`; what was written before an error stays
-- written.
--
-- Numbers and loops. A time is a natural number of nanoseconds; a duration is a signed one, and the
-- products that make durations of minutes and hours wrap at 64 bits. The loops over the tokens of a
-- user and of a session go through the list that Redis answers with, so no fuel is needed.
--
-- The platform is not trusted to succeed: any call may fail, a write of Redis that fails may have
-- been made, and keys may expire between two calls. What is asked of it is in Platform/Laws.antt:
-- that answers are true, that MULTI … EXEC and an UPDATE are atomic, that emails are unique, that the
-- clock does not go back, that JSON texts are read back, and that the errors of the drivers are not
-- the program's own. A text that a client sends as the id of a session is read as a UUID by the
-- database, in any notation; the other ids are canonical texts already.
--
-- A handler maps a request and a reply so far to a reply: the writer, the state outside, a panic that
-- is under way and the request log. A middleware maps handlers to handlers. Encoding and decoding of
-- JSON, the text of a cookie, the pattern that http.ServeMux chooses and the choice of `select`
-- between a handler that is done and a deadline are parameters (Http/Library.antt), of which nothing
-- is asked but that the mux's own answers have a status that net/http accepts, where it matters. A
-- status that net/http panics on is a panic of the model.
--
-- Not modelled: signals and the shutdown of the server, which are calls of os and net/http, the
-- process's own log but for the request lines, and the timeouts of the server once it listens. After
-- a deadline the changes of the handler outside are those of its whole run. Contexts and their
-- cancellation show as failed calls. Requests run one after the other, in any order; the interleaving of
-- two requests' steps is not modelled.
pub mod Prelude
pub mod Errors
pub mod Go
pub mod Model
pub mod Config
pub mod Platform
pub mod Http
pub mod Middleware
pub mod Handler
pub mod Database
pub mod Server
pub mod Repository
pub mod Service
pub mod InMemory
pub mod Examples
