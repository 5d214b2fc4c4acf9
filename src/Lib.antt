-- ===== src/Lib.antt =====
-- centrauth, an OAuth 2.0 and OpenID Connect server with accounts from Google and GitHub: its
-- rules, its database access, its sessions, its two protocol endpoints, the sign-in with a
-- provider and the pages of its operators. The state of the program is its database, which the
-- endpoints reach through the repositories; the authorization endpoint stores a code for a
-- signed-in user, the token endpoint takes it back for tokens, the sign-in with Google or
-- GitHub makes the users and their sessions, the admin pages are behind a session of an
-- operator, and the services keep the applications, clients and identities that these look up.
--
-- - Models: internal/db/models.go, a record for each row, with what gorm and the migrations do
--   to a row that is created (fill) and which two rows they forbid together (conflicts).
-- - Database: the calls of gorm as a record of operations, Sql, on an unknown world, with the
--   laws of their documented behaviour, IsSql. A call gives Run: a value or an error, with the
--   world that it leaves, so that every handler is a chain of steps in which an early return is
--   an error. Database/Memory is a database that meets the laws; Facts, Inversion and Rules are
--   the lemmas for chains.
-- - Repository: internal/repository, a module for each repository. Codes.consume is Consume of
--   code_repo.go, whose two readings of the clock are two arguments. Codes/Effect,
--   Codes/SingleUse, Codes/Grants (with the specification of the table in Grants/Spec),
--   Operators/Seat and UserIdentities/Effect are proofs.
-- - Oauth: internal/oauth. Client, Code, Pkce, Redirect (validate.go) and Request
--   (authorize.go).
-- - Session: internal/session. Manager is session.go, OperatorManager operator.go; Validity and
--   OperatorValidity prove.
-- - Oidc: internal/oidc. Secrets: internal/secrets/box.go, over the AEAD.
-- - Token: internal/token.go. Grant reads the request and authenticates the client,
--   Exchange.token_handler is tokenHandler, cut into load_client, load_code, use_code and
--   issue_tokens, Answer is what is written. Refusals, Frame, Reading, Redemption, Handler,
--   Claims, Once, Burn, Accepted, Granted and Shape are proofs.
-- - Authorize: internal/authorize.go. Handler.authorize_handler is authorizeHandler, cut into
--   load_client, load_application, prompt and issue_code; Pending is the cookie of the pending
--   request. Target, Steps, Issue, Frame, Grown and NewCode are proofs.
-- - Service: internal/service. Apps is app_service.go, with Apps/Client for buildClient and the
--   operations; Providers is provider_service.go, Password password.go and OperatorLogin
--   operator_login.go. Apps/Sound, Providers/Provision, Providers/Known, Providers/Lookup and
--   Password/RoundTrip are proofs.
-- - Flow: the two protocol endpoints in sequence, with calls of other requests between them.
-- - Upstream: internal/upstream/upstream.go. config_for is ConfigFor; Exchange is the exchange
--   of a code with Google's or GitHub's endpoints, which are the parameter Remote. Frame, Email
--   and Verified are proofs.
-- - SignIn: internal/upstream_flow.go, with the state cookie. Start.upstream_start_handler is
--   upstreamStartHandler, Callback.upstream_callback_handler upstreamCallbackHandler. Cookies,
--   Sound, Refused, Pages and Begun are proofs.
-- - Setup: internal/setup.go, the form that makes the first operator. Sound and Bare prove.
-- - Admin: internal/admin. Views are what the templates show of a row, Pages the requests, the
--   answers and loadApp; Login, Dashboard (the list of applications too), Apps, Clients and
--   Providers are the handlers, Routes is Register for the pages that an operator must be
--   signed in for. Login/Sound, Gate and Counts are proofs.
-- - Config: internal/config.go, LoadConfig over the environment. App: internal/app.go, the
--   sweep that Run makes once an hour.
-- - Middleware: internal/middleware, without the logger: whom a handler sees, as a result
--   beside the world. SignedIn and OperatorSignedIn prove.
-- - Base, Text, Runtime, Http: the shared names, Go's string functions (Text/Split has the
--   lemmas on splitting), what the program calls and does not define, and the parts of net/http
--   that are answered with. Tests: the data that the theorems are applied to.
--
-- Hashing, base64, hex, random bytes, the clock, URL parsing and encoding, JSON, AES-GCM,
-- Argon2, the network, the OpenID Connect library, the formats of dates and numbers and the
-- signature of tokens are parameters: readings of the clock and of random bytes are arguments
-- of the operation that makes them, so that two readings of one request may differ. A theorem
-- that needs more of a parameter than its type names it as a hypothesis. A time is a number of
-- nanoseconds without bound, of which the database keeps an expiry to the microsecond (micros
-- in Models), a database key a natural number without bound.
--
-- Each call of the database is one step and the handlers are sequential. What other requests do
-- in between is a sequence of steps between two calls of a handler, as in Codes/SingleUse, not
-- within one. All recursion is structural, so that no fuel is needed.
--
-- Not modelled: the request log, the signing keys and the key file of the secrets (files and
-- third-party code), the rendering of templates, serving and routing by net/http, the health
-- and discovery endpoints' JSON, and the dummy verification of operator_login.go, whose result
-- is not read. Log calls are left out, and pages are the data that their templates are given.
pub mod Base
pub mod Text
pub mod Runtime
pub mod Models
pub mod Database
pub mod Repository
pub mod Oauth
pub mod Http
pub mod Session
pub mod Oidc
pub mod Token
pub mod Secrets
pub mod Authorize
pub mod Service
pub mod Tests
pub mod Middleware
pub mod Flow
pub mod Upstream
pub mod SignIn
pub mod Admin
pub mod Setup
pub mod Config
pub mod App
