-- ===== src/Lib.antt =====
-- The back end of nestjs-app: accounts, sessions, roles and permissions.
--
-- The program is a NestJS server over PostgreSQL (through TypeORM) and Redis. Its services keep no
-- state of their own that matters here: the state is the database, and the cache of permission
-- rules. A handler is modelled as `Exec S A`, a function from the state to a result and the next
-- state, so that what is written before an exception stays written; a transaction is an operation
-- of the ORM that undoes it.
--
-- Files:
--   Prelude, Result, Js: lists and searches over the native numbers; results and exceptions; the
--     string functions of JavaScript that the code calls.
--   Db.Entities: the rows of src/modules/*/entities. Db.Naming: src/database/naming-strategy.ts.
--     Db.TypeOrm: the operations of TypeORM and PostgreSQL that the code calls, as a record `Orm`,
--     and what their documentation says of them, `Documented`; a model on lists fulfils it.
--   Auth.Session, Auth.Credentials, Auth.Refresh, Auth.Reset: src/modules/auth/auth.service.ts
--     (`createSession`, `buildSession`; `register`, `login`; `refresh`, `logout`;
--     `forgotPassword`, `resetPassword`). The modules below them prove what each does;
--     Auth.RoundTrips and Auth.Histories relate them.
--   Users.Lookup, Users.Create, Users.Service, Users.Listing: src/modules/users/users.service.ts.
--     Users.JoinRows: src/common/utils/replace-join-rows.ts; `catch_conflict` of Users.Create:
--     src/common/utils/db.ts.
--   Permissions, Permissions.Cache: src/modules/permissions/permissions.service.ts and what it
--     uses of Redis. Roles: src/modules/roles/roles.service.ts.
--   Guards.Permission, Guards.Access: src/common/guards/permissions.guard.ts with
--     src/common/casl/. Guards.Identity: src/common/auth/access-token-identity.service.ts,
--     src/common/guards/ws-jwt.guard.ts and the `validate` of
--     src/modules/auth/strategies/jwt-access.strategy.ts. Guards.Throttle:
--     src/common/guards/ws-throttle.guard.ts.
--   Metrics: src/shared/metrics/metrics.service.ts. Metrics.Monitor:
--     src/shared/metrics/error-rate.monitor.ts. Metrics.Monitor.Polling: its timer, and
--     src/modules/health/metrics.controller.ts.
--   Http: the guards of src/app.module.ts in their order, with src/common/guards/jwt-auth.guard.ts
--     and user-throttler.guard.ts. Http.Filter: src/common/filters/http-exception.filter.ts.
--     Http.Guarded proves what reaches a handler.
--   Controllers.Users, Controllers.Roles, Controllers.Permissions: the controllers of these names
--     in src/modules/. Controllers.Calls has every route of the three that requires permissions as
--     one data type. Controllers.Sessions: src/modules/auth/auth.controller.ts;
--     Controllers.Sessions.Browser relates it to what a browser keeps. Roles.Listing,
--     Permissions.Listing: the listings of the two services and their serializers.
--   Realtime.Status, Realtime.Adapter, Realtime.ConnectLimit:
--     src/modules/realtime/realtime-adapter.status.ts and redis-io.adapter.ts, the attachment as a
--     step relation. Realtime.Gateway: src/modules/realtime/gateways/notifications.gateway.ts.
--     Realtime.Validation: src/common/pipes/ws-validation.pipe.ts.
--   Mail.Template, Mail.Service, Mail.Processor: the files of src/modules/auth/mail/ with these
--     names, mail-queue.status.ts and src/shared/alerting/alerting.service.ts. Durations:
--     src/common/utils/duration.ts.
--   Health: src/modules/health/health.controller.ts. Seeds:
--     src/database/seeds/seed-roles-permissions.ts; Seeds.Growth, Seeds.Again, Seeds.Steps and
--     Seeds.Administrator prove what a run leaves in the database.
--   Shared.Throttling: src/shared/throttler/resilient-throttler-storage.ts. Shared.Correlation:
--     src/shared/correlation/. Shared.Logging: src/common/interceptors/logging.interceptor.ts.
--     Shared.Config: src/config/ but for the validation of the environment and the settings of
--     Redis. Shared.Redis: src/shared/redis/redis.module.ts, src/config/redis.config.ts and
--     src/modules/auth/mail/mail.connections.ts.
--   The modules named Samples and Tests hold concrete data and the theorems applied to it.
--
-- How the code corresponds: names are those of the source in another spelling. A handler that the
-- source writes as one method is cut into helpers at its branches, and a helper's map entry names
-- the lines. What a call draws (the clock, random bytes, ids, a salt) is an argument, `Draw`; one
-- reading of the clock stands for all readings of a call. Hashing, password hashing and JWT
-- signing are the functions of a record `Crypto`. A request is one step: the row locks of
-- `refresh` and `resetPassword` serialize the requests that present the same token, and overlaps
-- of other requests are not modelled, but for `register`, which hashes a password between its
-- check and its insert, and takes what other requests write meanwhile as an argument. A `Date` is
-- its number of milliseconds. Strings are lower-cased in ASCII only.
--
-- The limits of the metrics service are an argument (`code_limits` has the code's values), so that
-- the theorems hold of any limits. Its rates are kept as a number of errors and a number of
-- samples and compared without division, with thresholds in thousandths, where the code divides in
-- floating point.
--
-- There is no fuel: every function is total. Numbers are natural numbers, as all the times and
-- counts here are.
--
-- Cached rules are kept as values: the JSON text of a list of rules and the list stand for each
-- other, and a text that does not parse is a failed read. `IsRedis` says what reading, setting and
-- deleting keys do; every command may fail. A theorem that a writer keeps the cache coherent has
-- the success of the delete as a hypothesis, since the code logs a failed delete and goes on.
--
-- How the parts interact: a request passes the four guards (Http), which read the account from the
-- database and its rules through the cache (Permissions), to a handler (Controllers), which calls
-- a service (Auth, Users, Roles, Permissions); what it throws goes to the filter (Http.Filter),
-- and the interceptor (Shared.Logging) records its status in the metrics (Metrics), which the
-- monitor (Metrics.Monitor) watches. The gateway (Realtime) authenticates sockets with the same
-- identity service and asks for the same rules. Requests for a reset go through the mail queue
-- (Mail), whose last failure the health check (Health) shows with the state of the adapter.
--
-- What is not in the repository is a parameter, a record of the functions that the code calls,
-- with what is relied on as a record of laws: passport (`Passport`, `IsPassport`), the throttler
-- of the framework (the two walls of `Framework`, and `Storages`), the ability of CASL (`Casl`,
-- `IsCasl`), a cookie jar (`Browser`, `IsBrowser`), counters of Redis (`Counters`), the mail queue
-- (`Queue`), the order of names in a listing (`Collation`), `parseInt` and `split` (`Parsing`),
-- percent encoding (`Texts`).
--
-- The adapter numbers its Redis clients, so that a client that stays connected is seen; its
-- timers, listeners and pings are counted, and what fires next is a step. The pause between two
-- polls of the monitor is counted in thirds of a millisecond, since the code divides by three. The
-- seed writes row by row, without a transaction, as the script does.
--
-- Not modelled: the validation of the environment, the checks of the DTO classes, the start and
-- stop of the mail worker, what is only logged, migrations and the start-up of the framework.
mod Prelude
mod Result
mod Js
mod Db
mod Users
mod Auth
mod Permissions
mod Roles
mod Guards
mod Metrics
mod Realtime
mod Http
mod Controllers
mod Durations
mod Mail
mod Health
mod Seeds
mod Shared
