-- ===== src/Lib.antt =====
-- A model of the identity and access service of the platform orchestrator, and what is shown of it.
--
-- The service decides whether a subject, a person or a service user, may use a permission on a
-- resource: an organization, a project or an environment. Roles are lists of permissions; memberships
-- and service user roles bind them to a scope. The decision is Casbin's, over rules that the service
-- loads from its tables. Around it stand the handlers that other services and users call.
--
-- Which file models which part:
--   Authz          shared/authz/permissions.go: the catalogue of permissions and its lookups
--   Shared.UserId, Shared.Checks, Shared.Pagination  shared/userid/userid.go, shared/authz/authz.go and
--                  internal/pagination/page_token.go
--   Model          internal/model: the rows of the tables, and the queries of authorization.go. A
--                  table is a list of rows, and a query a function of the tables.
--   Model.Roles, Model.Memberships  internal/model/roles.go and memberships.go, with the constraints
--                  of the migrations as the errors that they cause
--   Model.SessionTokens, Model.ServiceUsers, Model.PluginWorkload, Model.DeviceLogins, Model.Users
--                  internal/model/session_tokens.go, service_user_tokens.go, service_user_roles.go,
--                  plugin_workload.go, device_login_requests.go and users.go, likewise
--   Model.ScimUsers, Model.Invitations  internal/model/scim_users.go and invitations.go, likewise
--   Model.Store    how a handler calls the store: a list says which of the next calls fail, and a
--                  transaction that does not commit restores the tables. Model.Store.Logic has the
--                  rules to reason about handlers, Model.Store.Inversion what their success says.
--   Engine.Match   internal/authorization/authorization.go: permissionMatch and isCustomPermission
--   Engine.Resource  the same file: ParseResource and NormalizeResource
--   Engine.Policy  the same file: LoadPolicy and the keys that it avoids repetitions with
--   Engine.Cache   the same file: boundedCache
--   Engine.Authorize  the same file: Authorize and knownCustomPermissions
--   Engine.Reload  the same file and invalidation.go: ReloadPolicy, ScheduleReloadPolicy, Close and the
--                  goroutine processInvalidations as a process that takes one event at a time; Run is a
--                  sequence of events. Engine.Reload.Lock is reloadPolicy in several goroutines at once,
--                  over a database whose commits are counted.
--   Api.Server     the interface Authorizer that the handlers are given, with what they may rely on;
--                  the authorizer of Engine.Authorize is an instance of it
--   Api.Authorize, Api.Guards  internal/api/authorize.go, internal/api/auth.go and holdsPlatformPermission of
--                  internal/api/plugin_workload.go
--   Api.Roles      internal/api/roles.go
--   Api.Memberships  internal/api/memberships.go: the handlers that list and delete
--   Api.Authenticate  internal/api/authenticate.go, with the tokens of internal/workloadidentity/token.go:
--                  which paths need no token, the super user, the kinds of token, their cache, and who
--                  a request comes from
--   Api.Sessions   internal/api/session_tokens.go and logout.go
--   Api.DeviceLogins  internal/api/device_login_requests.go
--   Api.Invitations  internal/api/invitations.go: the handlers but CreateInvitation
--   Prelude        shared notation, lists, texts and results
--   Examples       the packages at concrete functions, and each result at a concrete input
--
-- A client's request goes through Authorize, which normalises the resources, asks the store for custom
-- permissions through the cache, and asks Casbin for the rest. Errors of the store and of Casbin are
-- values: the queries and calls return an option or a result. The recursions are structural; none runs
-- on fuel. An external request is first given to Api.Authenticate, which names its user; the handlers
-- then ask Api.Guards, which asks the authorizer, and change the tables in transactions; a handler that
-- changes what anybody may do asks Engine.Reload for the policy to be loaded again.
--
-- Packages that are not in the repository are parameters: Casbin (Engine.Casbin, a model to load rules
-- into and a decision whose documented meaning is IsCasbin, with its limit of ten links), ccache
-- (Engine.Cache and Api.Authenticate.Cache), SHA-256, base64 and hexadecimal (Api.Authenticate.Tokens)
-- and the texts of google/uuid (Prelude.Identifiers). What NATS delivers, what the database returns to a
-- load of the policy, and random bytes are arguments or events. Identifiers are numbers, and times
-- are nanoseconds.
--
-- Not modelled: the cache of decisions of Casbin's cached enforcer, which New sets up and a load clears,
-- the locks of rows, SQL itself and the isolation of transactions, a commit that fails after it took effect,
-- the network and the identity providers, the limits on rates, the statistics of caches, the handlers,
-- groups and role mappings of SCIM, logging and configuration.
pub mod Prelude
pub mod Authz
pub mod Model
pub mod Engine
pub mod Api
pub mod Shared
pub mod Examples
