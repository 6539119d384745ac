-- ===== src/Lib.antt =====
-- The auth service of this repository: accounts that sign up and sign in, the operations that are
-- confirmed by a token from an email, sessions with their tokens, and the libraries below them.
--
-- A request comes to AuthController (apps/auth/src/app/routes/v1/auth), which hands it to AuthService.
-- That one looks users up and changes them through UsersProcessor, keeps what is to be confirmed by
-- the four processors of users_operations, makes sessions through SessionsProcessor and SessionService
-- over CacheService, and sends email through the notifications' broadcast and BrokerClient. A value is
-- wrapped by ResponseInterceptor, an exception turned into a reply by AppExceptionsFilter.
--
-- Which file models which part:
--   Runtime        what the application uses and does not implement: tables, cache, bcrypt,
--                  jsonwebtoken, uuid, JSON, as a record with the documented behaviour as its laws;
--                  Runtime/Sample is a runtime that has all of them
--   World, Action  the state of a run, and actions on it: a call of the database, the cache or the
--                  broker takes the next entry of `faults`, and fails if it is true; an exception
--                  leaves what was written before
--   Entity         apps/auth/src/app/database/entities
--   Database       findOne, count, save and remove of libs/utils/src/base.repository.ts on the two
--                  entities, with their hooks
--   Query          the query builders of that file and of apps/auth/src/app/database/repositories;
--                  Query/Parameters is its updateFrom, Query/Reads its reads with what
--                  libs/utils/src/polyfill.ts makes of them, Query/Statements which
--                  connection its findOne, find, update and delete go by
--   Users          apps/auth/src/app/processors/users/users.processor.ts
--   Operations     apps/auth/src/app/processors/users_operations: the abstract processor, and a child
--                  module for each of SignUp, PasswordRecovery, PasswordChange and EmailChange
--   Cache          libs/cache/src/cache.service.ts
--   Sessions       session.service.ts, sessions.processor.ts, auth.token.service.ts, and in
--                  Sessions/Strategies the strategies and guards of apps/auth/src/app/auth
--   Broker         libs/broker/src/broker.client.ts, in Broker/Factory broker.factory.module.ts,
--                  and in Broker/Racing calls of `_init` that interleave
--   Notifications  apps/auth/src/app/processors/notifications and the types of libs/broker
--   Auth           auth.service.ts
--   Routes         auth.controller.ts between the interceptor and the filter
--   Gateway        what stands before the controller: the throttler's guard and module, the validation
--                  pipe of libs/utils and the DTOs of auth.dto.ts
--   Exceptions     libs/utils/src/exceptions
--   Filter         libs/utils/src/app.exceptions.filter.ts
--   Crypto         libs/utils/src/crypto.utils.ts
--   Queues         libs/queue_restart/src/queue.restart.abstract.ts
--   Validation     the password's pattern of libs/types/src/base.dto.ts, and in Validation/Nested the
--                  decorators of apps/auth/src/app/validators
--   Health         libs/health_checker/src
--   Storage        libs/local_storage/src/local_storage.service.ts
--   Migrations     apps/auth/src/migrations
--   Seeds          libs/tools/src/seeds/seed.abstract.ts
--   Utils          the string helpers of libs/utils/src/utils.ts
--   Replace        `replace` and `replaceAll` of strings
--   Accounts       the abstract service: accounts by address, and what each request may do to them;
--                  Gateway/Runs sets its runs beside those of the service
--   Invariant      what holds of the database between two requests, and the runs of the service
--   Tests          small states over the sample runtime, and the theorems at them
--
-- An operation has the name of its method, in small letters with `_`; a text is the list of its UTF-16
-- units. A query runner is `present` or `absent`: with it a statement joins the open transaction,
-- without it the statement goes by the default connection, which sees what is committed.
--
-- Bounds: `decimal` has as much fuel as its number, which is enough since each digit divides it by
-- ten. A pass over a queue is given a number of rounds, and three are enough.
--
-- What is assumed: a rollback does not fail; `save` sets `updated_at` even where nothing else changes;
-- the row of a user that has just been loaded is still there when it is saved; one request runs at a
-- time; the clock of the time zone does not change between the start and the end of an operation; a
-- `where` with an undefined value is no condition; of a property that a DTO declares again, the own
-- decorators stand in place of the inherited ones of their type; UTF-8 keeps a text with no surrogate
-- on its own.
--
-- Not modelled: the throttler's counts, the routing of Nest, the wiring of modules, the configuration,
-- tasks, the start of a pass over the queues, the scripts that only call typeorm, and the
-- helpers of utils.ts that ask for random numbers or wait.
pub mod Prelude
pub mod Entity
pub mod Exceptions
pub mod Runtime
pub mod World
pub mod Action
pub mod Database
pub mod Users
pub mod Cache
pub mod Sessions
pub mod Operations
pub mod Broker
pub mod Notifications
pub mod Auth
pub mod Tests
pub mod Crypto
pub mod Filter
pub mod Routes
pub mod Queues
pub mod Query
pub mod Validation
pub mod Invariant
pub mod Accounts
pub mod Gateway
pub mod Replace
pub mod Seeds
pub mod Migrations
pub mod Utils
pub mod Health
pub mod Storage
