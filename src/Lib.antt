-- ===== src/Lib.antt =====
-- A model of renovate-docker-operator, the daemon that runs Renovate in Docker containers for the
-- projects of a git platform, and proofs about it.
--
-- The program. A cron schedule and webhooks mark projects as scheduled in a SQLite store. The
-- resilience manager gates every dispatch by a circuit breaker and a backoff for each project; the
-- scheduler runs a batch of dispatches behind that gate; the executor starts containers up to a
-- limit, follows their exits, parses their logs, and reports each outcome to the store and to the
-- manager. A poller compares the image in use with the tags of its registry, and an HTTP API shows
-- the jobs and starts, cancels and resets. Background loops run under a supervisor.
--
-- The files, with the code that each is about:
--   Prelude                     shared names, lists, integers, and maps as association lists
--   Resilience, Resilience/...  internal/resilience/resilience.go: the Manager, its window, gate,
--                               backoff, replay queue, and what holds over executions
--   Scheduler, Scheduler/...    internal/scheduler/dispatch.go: DispatchProjects, behind any gate and
--                               behind the Manager
--   Api                         internal/api/types.go and the update record of
--                               internal/statestore/interface.go
--   Executor, Executor/...      internal/executor/docker.go: image pull, environment, dispatch loop,
--                               exits, orphans, discovery containers, log streams and the shutdown,
--                               over the Docker client, the store and the clock as operations of
--                               a world
--   Webhook, Webhook/...        internal/webhook/forgejo.go and authcontext.go: which events start a
--                               run, for which job, whether the request may ask, and the two handlers
--   Supervise, Supervise/...    internal/supervise/supervise.go: the supervised loop, the guard, and
--                               ClassifyError
--   ImageUpdate, ImageUpdate/... internal/imageupdate: image references, the registry client with its
--                               tokens, versions among a registry's tags, and the poller's tick
--   StateStore, StateStore/...  internal/statestore/sqlite.go, settings.go, migrations.go and
--                               interface.go: the tables, every method over them, the webhook secret
--                               and signatures, the start, the migrations, and the webhook handlers
--                               over this store
--   Parser, Parser/...          internal/parser/logparser.go: the lines of a log, the handlers of the
--                               messages, the issues, and the activity of the pull requests
--   Discovery, Discovery/...    internal/discovery/agent.go and DispatchDiscoveryAsync of
--                               internal/executor/docker.go: requests for a discovery and their end
--   Server, Server/...          internal/server/server.go and middleware.go: the handlers of the API
--                               over the store, the resilience manager and the discoveries
--   Config, Config/...          config/config.go: the configuration from the environment
--   Cycle, Cycle/...            runScheduledCycle of cmd/main.go: what the cron schedule does over the
--                               store, the discoveries, the gate and the executor
--   Samples                     a small store for the tests
--
-- Conventions. A method under a mutex is a function of the state that it changes, and an execution
-- is a sequence of calls; a Go map is an association list and a set of keys is a list; an error is
-- a value. An instant is a number of nanoseconds since Go's zero time, which is 0, and a duration a
-- number of nanoseconds, in the configuration a signed one. Clock readings, random draws and what
-- an external system answers are arguments. A counter of type int is a natural number: reaching
-- 2^63 would take more events than the process can see. All loops recur on lists or texts, so there
-- is no fuel and every run ends; the supervised loop recurs on the wake-ups that reach it, and the
-- listing of tags on the 100 turns that the code allows it.
--
-- The tables of the store are lists of rows, an SQL statement is the function of the tables that its
-- text describes, and the text of a migration is a parameter. A statement may fail, as a list of
-- Booleans says, one for each statement to come; a transaction that fails puts the tables back.
-- Foreign keys are not enforced, since the program never deletes a job.
--
-- Not modelled: log output, HTTP transport and routing, the Docker client, the SQLite and JSON
-- libraries, and the operating system, except as parameters; the metrics recorder but for its two
-- gauges, the image refresher, and the construction, start and shutdown of the parts in cmd/main.go.
pub mod Prelude
pub mod Resilience
pub mod Scheduler
pub mod Api
pub mod Executor
pub mod Webhook
pub mod Supervise
pub mod ImageUpdate
pub mod StateStore
pub mod Parser
pub mod Discovery
pub mod Server
pub mod Config
pub mod Cycle
pub mod Samples
