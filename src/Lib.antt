-- ===== src/Lib.antt =====
-- OSCTF, a capture-the-flag platform: the services of internal/ that decide who scores, when, and
-- what is remembered of it.
--
-- A participant's flag goes through internal/submissions, which asks internal/events whether the
-- event is running, may ask a challenge-type plugin for a verdict, logs the attempt in one
-- transaction, and asks internal/scoring what a solve is worth. internal/scoreboard computes the
-- standings from the log of solves with the same engines, caches them, and serves participants the
-- board of the freeze while internal/events says that the event is frozen. internal/teams keeps who
-- submits for whom, internal/scheduler starts, extends and sweeps the instances that internal/runtime
-- deploys and keeps in line with their rows, internal/auth says who a request is from, internal/plugin
-- supervises the processes of plugins, and
-- internal/ws, internal/fdbudget and internal/pagination bound what a client may take. Plugins enter
-- through override-protected registries, and hear of solves over the bus of internal/events.
--
-- Files and what they model:
--   Prelude, Prelude/*      shared names: Boolean tests, keys with a decided equality, maps as
--                           association lists, signed integers, lists.
--   Registry, Registry/*    internal/scoring/registry.go: Register, Deregister, Get, over any type of
--                           implementation; the map behind the atomic pointer is a value.
--   Scoring/*               internal/scoring/engine.go: StaticEngine, DynamicEngine, IsBuiltinMode and
--                           Value. float64 is an interface (Scoring/Floats) with the laws of rounding
--                           that are relied on; Scoring/Tests has an instance over whole numbers.
--   Events, Events/*        internal/events/service.go: Phase, Frozen, Update, EnsureDefault.
--   Submissions/Store       the tables and the queries of internal/db/queries that Submit runs.
--   Submissions/Request, Admission, Transaction, Settlement
--                           internal/submissions/service.go: Submit, as `admit` (before the
--                           transaction), `attempt` (the transaction) and `settle` (after it).
--   Submissions/Attempt, Secrets, History, Points   what is proved of it.
--   Submissions/Repair, Backfill   internal/submissions/scorerepair.go: RepairOnce, and what a pass leaves.
--   Scoreboard/Standings    internal/scoreboard/compute.go: compute, with its maps and its sorts.
--   Scoreboard/Cache        internal/scoreboard/service.go: the boards kept in Redis, the write guard,
--                           read repair, the freeze snapshot and the degraded read.
--   Scoreboard/Order, Ranks, Values, Points, Guard, Log, Freshness, Freeze   what is proved of them.
--   Teams/Tables            the tables of teams and members, with the queries and the constraints.
--   Teams/Service, Admin, Invites
--                           internal/teams/service.go, admin.go and invite.go: Create, Join, Leave,
--                           Rename, RegenerateInvite, RepairStrandedCaptains, the admin operations and
--                           the invite codes.
--   Teams/WellFormed, Captains, Membership, History, Replies   what is proved of them.
--   Runtime/Reconcile       internal/runtime/reconcile.go: Reconcile.
--   Runtime/Reasons, Decisions   what each action needs, and that a pass keeps to it.
--   Instances/Table         the table of instances and internal/db/queries/instances.sql.
--   Instances/Manager, Shared   internal/runtime/manager.go over the table, with what Deploy, Stop, Destroy
--                           and Status of internal/runtime/docker.go write; the daemon is an argument.
--   Instances/Scheduler     internal/scheduler/scheduler.go: Start, Stop, Extend, ExpireOnce, ReapStaleOnce,
--                           CleanupEnded.
--   Instances/Allocation, Quota, Ensured, Operations, SharedOperations, History, Sweeps, Passes, Replies,
--   Restarts                what is proved of them.
--   Plugins/Machine         internal/plugin/state.go: the states and the table of transitions.
--   Plugins/Supervisor      internal/plugin/supervisor.go: `run`, from one wait of its goroutine to the next.
--   Plugins/Lifecycle, Quarantine   what is proved of it.
--   Auth/Strings, Accounts  the string functions used, on ASCII; the tables of users and identities.
--   Auth/Names, External    internal/auth/external.go: Resolve.
--   Auth/Usernames, Provisioning, Resolution, Stability   what is proved of it.
--   Auth/Sessions           internal/auth/session.go: Create, Get, Delete, DeleteAllForUser over Redis.
--   Auth/Revocation, Logouts   what is proved of them.
--   Auth/Tokens, Bearer, Issue   internal/auth/token.go: Create, Authenticate, Revoke, and what is proved.
--   Auth/LoginStates, SingleUse   internal/auth/loginstate.go: Store, Consume, and what is proved of them.
--   Authoring/Input, Validation  internal/challenges: the input of Create, its defaults, validateCreate.
--   Authoring/Checks        internal/db/migrations: the CHECK constraints of challenges, and what is proved.
--   Limits/Admissions       internal/ws/limits.go: admit, release, forgiveHandshake, retryAfterSeconds.
--   Limits/Budget           internal/fdbudget/budget.go: New and Claim.
--   Limits/Pagination       internal/pagination/pagination.go: Normalize, Limit and Offset.
--   Limits/Connections      what is proved of the admissions.
--   Bus/Subscriber, Accounts   internal/events/bus.go: Publish, Subscribe and remove, by their steps on a
--                           subscriber, and what becomes of the events offered to it.
--
-- Choices. Identifiers are numbers; flags, slugs and names are lists of numbers; instants are numbers
-- of nanoseconds. Go's int is 64 bits wide and holds values from int32 columns here, so it is an
-- unbounded integer, except where the code narrows to int32 (`to_int32`). A database call may fail:
-- `faults` of the environment says which do, a failing transaction rolls back, and a failed commit
-- counts as rolled back. The row lock makes a transaction one step; what ran between the read before
-- the transaction and the transaction is any step at all (Submissions/History). Plugins, the clock,
-- fresh identifiers and the strings.ToLower of a submitted flag are arguments. No loop runs on invented
-- fuel: each is a recursion on a list, or on a number that the code itself counts down (the ports that
-- are left, the eight attempts at a username).
--
-- A status read of refreshHealth in a reconcile pass is a step of its own, of any instance, since the pass
-- holds no lock; its row may have been read at any time before. The transaction of DeleteAllForUser may
-- come after other commands than its listing saw (`executes`), and then a session that was made in
-- between stays: what is proved of a success is for the two with nothing between.
--
-- An operation of internal/scheduler is one step, since it holds the lock of its team; a sweep may have
-- listed its rows at any time before, and `busy` says whose lock it does not get. Two allocations that
-- run at once meet only in the unique indexes, which are tried in the order of their making. Instants of
-- Redis are whole seconds. mail.ParseAddress and the hash of a token are arguments. The supervisor's
-- process is known by the number of its launch, and the select of Go takes any of the signals that are
-- there. A deploy that fails after its container was created is a container that does not start.
--
-- A call to Redis that runs out of time is a failing call. Members are kept in the order in which they
-- joined, which is the order of joined_at; citext folding and char_length are parameters of the tables
-- of teams. Points stay within 64 bits. A limit that is not positive is none, and is written 0. An age
-- that Go computes as a difference of instants is a comparison of instants here.
--
-- Not modelled: HTTP, RPC and Docker input and output, metrics and log lines, generated code, the
-- command line, the front end; the hashing of passwords, which is a library's, and its gate; the
-- budget of calls in flight to a plugin and the discovery of plugins on disk; the updates
-- of challenges and the configuration of their types; the container specification and the networks of
-- internal/runtime/docker.go.
pub mod Prelude
pub mod Registry
pub mod Scoring
pub mod Events
pub mod Submissions
pub mod Scoreboard
pub mod Teams
pub mod Runtime
pub mod Limits
pub mod Bus
pub mod Plugins
pub mod Instances
pub mod Auth
pub mod Authoring
