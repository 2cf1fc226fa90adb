-- ===== src/Lib.antt =====
-- snowgo: an admin backend. Handlers (internal/api/admin) hand a request to a service
-- (internal/service/admin), the service reads through a replica, changes rows in one
-- transaction on the write node through its DAO (internal/dao/admin), writes an operation
-- log in the same transaction, and then drops the cache keys that the change makes stale.
--
-- Files, and the code each one models:
--   Prelude, Prelude/*     shared names, Boolean tests, lists, rows with numeric keys
--   Xerror                 pkg/xerror/error.go; IsDuplicateKeyErr of pkg/xdatabase/mysql/mysql.go
--   Extern                 what is taken from bcrypt and GORM, as the fields of a record Env
--   Dal/Model              internal/dal/model: the rows
--   Dal/Tx                 the tables and the body of a transaction
--   Dao/Role, User, Menu   internal/dao/admin/account/role.go, user.go, menu.go; their Effects say
--                          what a statement has done when it succeeds
--   Account/Types          parameters, results and cache entries of the services
--   Account/Runtime        write node, replica, cache and faults; reads, transactions, cache calls
--   Account/Context, Log   GetUserContext of pkg/xauth/auth.go, DerefOrZero of pkg/common.go,
--                          CreateOperationLog of internal/service/admin/system/operation_log.go
--   Account/Password       validatePassword of internal/service/admin/account/user.go
--   Account/Role, User, Menu
--                          the services of internal/service/admin/account; Tx has the bodies of
--                          their transactions, Effects relates these to Account/Changes
--   Account/Requests       the ten changing requests as one type, and `handle`
--   Account/Changes        the specification: one record for each request
--   Account/Outcome        rules on how a request ends, one for each kind of step
--   Account/Refinement, Handled, Audit, Grants, Sender, Consistency, User/Login, User/Cached,
--   Password/Rules         the proofs
--   Account/Session        Login, RefreshToken and Logout of internal/api/admin/account/auth.go over
--                          the tokens of pkg/xauth/jwt/jwt.go; Refresh, Spent, Once and Attempts have
--                          the proofs
--   Dao/Dict               internal/dao/admin/system/dict.go
--   System/Dict            internal/service/admin/system/dict.go: the service, with Types, Tx,
--                          Changes, Effects, Requests, Handled and Audit as for the accounts;
--                          Consistency on items and their dictionaries, Listing on the list of a
--                          dictionary's items, Calm and Coherence on what the cache keeps of it
--   System/Audit           what internal/service/admin/system/operation_log.go leaves out of audit
--                          data; Names describes the names of credentials without its code
--   Router/Auth            JWTAuth and PermissionAuth of internal/router/middleware/auth.go
--   Xmq/Pending, Confirm   pendingList and confirmChannel of pkg/xmq/rabbitmq/conn_manager.go; Reached
--                          has every interleaving of the steps of a channel, Steps what each keeps
--   Xmq/Consumer           pkg/xmq/rabbitmq/consumer.go: registration, attempts, the workers' rounds
--   Router/Limiter         the middleware limiter.go and ip_whitelist.go; Metered has the proofs
--   Xlimiter               pkg/xlimiter/fixed_window_limiter.go with its Lua script
--   Xlimiter/TokenBucket   pkg/xlimiter/token_bucket_limiter.go over golang.org/x/time/rate
--   Xcryption              Id2Code and Code2Id of pkg/xcryption/encode.go
--   Account/Tests, Account/Session/Tests, Xlimiter/Tests, Xcryption/Tests
--                          concrete tables, requests, sessions and codes
--
-- Correspondence. A transaction is a step on the tables that either succeeds or is dropped; a
-- request is a step on a World: the tables of the write node, those of a replica that may be
-- behind in any way, the cache, and `faults`, which says for each statement, BEGIN, COMMIT and cache
-- call to come whether it is carried out or fails, and how. A failing COMMIT leaves the tables as
-- they were. Transactions run one after another: interleavings within a transaction are not
-- modelled.
--
-- Numbers and texts. Ids are int32 in the program and natural numbers here, a non-positive one being
-- 0, so `id <= 0` is `id == 0`; the AUTO_INCREMENT counters do not run out. Texts compare exactly;
-- the collation of the database is not modelled. A password is its bytes. Every loop is structural
-- recursion on a list, but for the digits of Id2Code: its fuel is 12 digits and a last one, as an
-- int64 has at most 13 in base 32. A uuid is a number that was not drawn before. The signature
-- library is a parameter that reads what it signed. Times of the fixed window are whole
-- seconds, those of the token buckets nanoseconds, and a call reads the clock once.
--
-- A confirm channel is a state that publishers, timers, the router and the broker change in any
-- order. A step is what one goroutine does under one mutex or with one atomic; a timeout and a failed
-- publish, which lock the list several times, are steps as a whole, and their parts are steps, too. A
-- pendingRec is named by its tag. The workers of a unit take turns in any order, a round at a time:
-- its one access to the count that they share decides its place. The end of a worker when the consumer
-- is stopped is left out. An atomic count does not overflow an int32, and a wait that is doubled does
-- not overflow an int64.
--
-- Not modelled: time columns, the surrogate keys of the association tables, log output, the JSON
-- text of cache entries and of audit data (what it decodes to stands for it), lists and pages for
-- display, GetMenuTree. Save of a row that is not there, and bcrypt, are fields of Env.
pub mod Prelude
pub mod Xerror
pub mod Extern
pub mod Dal
pub mod Dao
pub mod Account
pub mod Router
pub mod System
pub mod Xcryption
pub mod Xlimiter
pub mod Xmq
