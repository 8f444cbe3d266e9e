-- ===== src/Lib.antt =====
-- The orchestrator of OpenEnvX: a Go program that keeps infrastructure jobs in PostgreSQL, answers
-- requests about them over HTTP, and lets a pool of workers run Terraform for them.
--
-- How the parts interact. A request (internal/api) passes the middleware (internal/auth) and reads or
-- writes jobs through the store (internal/db); the state of Terraform goes to the object storage
-- (internal/storage). A worker (internal/daemon) claims a job from the store, prepares a directory,
-- runs Terraform (internal/terraform) and hooks in it, stores the plan, the log and the new status, and
-- promotes the next job of the project. At the start the daemon fails the jobs that were left running,
-- and a timer fails jobs that are queued for too long.
--
-- The state is the record `World` of World.antt: the tables, the bucket, the working directory and the
-- log of the job that is run, the published lines, and the number of calls made. An operation is a
-- function from a world to a result and a world. PostgreSQL, the object storage, the Terraform command
-- and the operating system are no code of the repository: the records `Env` (World.antt) and `Host`
-- (Terraform.antt) say, by the number of the call, what they do. A call may be answered, may fail, or
-- may have its effect and lose the answer; and before each statement other processes may have changed
-- the tables, which is how other replicas, workers and requests interleave with the one modelled. A
-- transaction takes effect at its commit.
--
--   Models.antt            internal/models/job.go, and the row of packages/db/src/schema/jobs.ts
--   Maps.antt              association lists for Go's maps
--   World.antt             errors, calls, transactions; World/Keeps, Reads, Ends, Succeeds: proof rules
--   Db/Rows, Jobs, Queue   internal/db/queries_jobs.go
--   Db/Projects            internal/db/queries_projects.go, internal/db/queries_organizations.go
--   Db/Selection, Updates  lemmas on WHERE, ORDER BY, LIMIT 1 and on UPDATE
--   Db/Claims, Claiming    ClaimNextJob and PromoteNextJob against an abstract description, and in a row
--   Db/Timeouts            FailTimedOutJobs, row by row
--   Db/Lookup, Answers     what the other methods of the store return
--   Storage.antt           internal/storage/s3.go, internal/storage/paths.go
--   Auth.antt              internal/auth/auth.go
--   Api/Jobs, Reply        internal/api/handlers_jobs.go
--   Api/Stream             the log stream of internal/api/handlers_jobs.go, over the broker
--   Api/Projects           internal/api/handlers_projects.go
--   Api/Routes, Table      internal/api/server.go
--   Api/Interfaces         its interfaces, and how internal/db and internal/storage answer them
--   Api/Creation, Review, Locking, Unlocking, State: what the requests answer and write; Api/Answering:
--                          with which codes
--   Infisical.antt         internal/infisical/client.go
--   Broker.antt            internal/pubsub/broker.go, with Broker/Sound, Publishing and Laws
--   Terraform.antt         internal/terraform/runner.go, internal/terraform/runner_commands.go;
--                          Terraform/Retrying: the attempts of `Init`
--   Daemon/Hooks, Handlers internal/daemon/worker_handlers.go
--   Daemon/Execute         internal/daemon/worker_execute.go
--   Daemon/Worker, Summary internal/daemon/worker.go
--   Daemon/Pool            the goroutines of internal/daemon/worker.go and internal/daemon/daemon.go
--   Daemon/Recovery        internal/daemon/daemon.go
--   Daemon/Interfaces      internal/daemon/interfaces.go, and how internal/db and internal/storage answer
--   Daemon/Frame, Processing, Outcome, Cleanup, Secrets: what a worker writes, leaves and hands on
--   Daemon/Applying        an apply without a plan
--   Daemon/Planning        the same with tools and services that work
--   Main.antt              cmd/orchestrator/main.go up to the start of the daemon
--   Main/Ending            its goroutines from there to the end of the process
--   Lifecycle              the orchestrator as a sequence of acts, and what all acts keep: Frame is the
--                          interface of the calls that write, Rows and Statements fill it for the
--                          invariant of the tables, Stuck for a job that no plan lets apply, Settled
--                          for a job that has ended
--   Tests                  a small orchestrator on which each theorem is applied
--
-- Names are those of the source, in snake_case: `handleApproveJob` is `handle_approve_job`.
--
-- Bounds and fuel. `Init` loops over the attempts that are left, three at first, as the source counts
-- to three. No other loop needs fuel: the rest recurse on lists; the log stream recurses on the list of
-- what happens to it. The timer and the workers are endless
-- loops whose rounds are the acts of `Lifecycle.System.run`, in any number and order. Numbers are
-- natural numbers; times are in microseconds, durations in nanoseconds and not negative, and
-- `timeout.Seconds()` is the whole seconds, exact for durations below 48 days.
--
-- The goroutines of the daemon are a step relation of their own (Daemon/Pool): it has the WaitGroup, the
-- context and where each worker stands, but not the tables. In it the return of `processJob` is one
-- step, and `ClaimNextJob` answers what a parameter allows. The process around them (Main/Ending) counts
-- the requests that are being answered, and how many of them hold a connection to the database.
--
-- A hook may do to the working directory what it likes, and a run of Terraform leaves a plan file in it
-- or does not: `Host` says which, and what `os.RemoveAll` leaves. `Env` says how far the body of an object
-- can be read, and whether a column that is NOT NULL takes what a nil slice is sent as.
--
-- Not modelled. The serving of HTTP itself, beyond that count. The broker is no part of the world, which
-- keeps only the list of what was published: the request for a log carries the broker and what happens
-- while the stream is served. The login and the listing of secrets, the presigner, and the
-- readers of environment variables, Booleans and durations are parameters. The scanner
-- that publishes Terraform's output enters only by the error that it may end with. An error keeps its
-- wrapping texts, but not the stderr that some end with, nor the name of the hook. A slice of
-- hooks that is nil is kept apart from the empty list until it is stored. Text that the program only compares is `String`; logs, plans and hooks are lists
-- of bytes. JSON decoding and the parsing of basic authentication belong to libraries: a handler starts
-- from the decoded request, or from none.
pub mod Prelude
pub mod Maps
pub mod Models
pub mod World
pub mod Db
pub mod Storage
pub mod Api
pub mod Auth
pub mod Infisical
pub mod Broker
pub mod Terraform
pub mod Daemon
pub mod Main
pub mod Lifecycle
pub mod Tests
