-- ===== src/Lib.antt =====
-- A device-job platform, modelled from its Go sources.
--
-- Clients submit jobs for devices over HTTP (cmd/api) or MQTT (cmd/ingestion). A job is a row of
-- the table `jobs` in Postgres and a message on the Kafka topic of its tier; a worker of the tier
-- handles the message and marks the row SUCCESS, or schedules a retry, or gives the message to the
-- dead letters. The retry router moves due messages back; the reaper requeues jobs whose worker has
-- died.
--
-- Which file models what:
--   Jobs        internal/jobs: types, tiers (Types), the state table (State), keys (Key)
--   Retry       internal/retry/backoff.go
--   Store       internal/store/db: the rows (Rows), the statements with the constraints of
--               migrations/ (Sql), the methods that send them (Queries); Sound says what the
--               constraints keep
--   World       the state that the processes share, and the monad of its effects
--   Kafka       internal/kafka/producer.go, trace_carrier.go; Instrumented:
--               instrumented_producer.go; Consumer: consumer.go
--   Codec       encoding/json, google/uuid, strconv, fmt, as a record of operations and laws
--   Submitter   internal/jobsubmitter/submitter.go
--   Clients     internal/mockclients/clients.go
--   Handlers    internal/handlers
--   Worker      internal/worker/worker.go: one message (Worker), the loop of Run (Loop)
--   Wiring      cmd/worker-realtime, -standard, -bulk
--   Reaper      cmd/reaper/main.go; Overdue: a scan where no request fails
--   Router      cmd/retry-router/main.go: one message (Router), the loop of drain (Loop)
--   Api         cmd/api/main.go; Routes: the route of submissions behind the middleware
--   Idempotency internal/idempotency/idempotency.go, over an interface of Redis
--   LagCache    internal/lagcache: the cache (LagCache), the middleware (Gate)
--   LagExporter cmd/kafka-lag-exporter/main.go
--   Metrics     internal/observability/metrics.go, gin_middleware.go
--   Ingestion   cmd/ingestion/main.go
--   DevSim      cmd/devsim/main.go, the loop of one device
--   Startup     the main functions of cmd/api, ingestion, reaper, retry-router and the workers
--               (Commands), with store.New and observability.Init (Startup)
--   System      runs of all of these together: the events (Run), the conditions that effects keep
--               (Kept, Rows, Programs, Invariants, Identity), what holds of every run (Reach);
--               one job's way where no request fails: submission (Submitted), success
--               (Delivered; Telemetry: a handler for which it holds), the rounds of a failing job
--               by the retry topic (Cycle)
--   Scenarios   concrete runs
--
-- A Go function that talks to a server is an action of the monad `M`: it reads and changes a
-- `World`, which holds the tables, the messages of the brokers, the HTTP requests that were sent,
-- the clock, and the list of what the environment answers. Each request to a server takes one entry
-- of that list: it is delivered, or refused before it takes effect, or takes effect while its answer
-- is lost. A process that dies in the middle is one whose further requests are all refused. A
-- heartbeat goroutine may write before any request of its worker. Operations of different processes
-- are interleaved as whole operations, in any order: `System.Run.run` folds any list of events.
--
-- An identifier of a row is the number that its uuid spells. Times are nanoseconds in the `World`
-- and microseconds in the tables. A float64 is a bit pattern, and `Retry.Float64` lists the
-- operations and the facts of IEEE 754 that are used; the bounds of the delay are stated for the
-- first nine retries, where the powers of five are exact and the product fits the mantissa. An
-- `attempts` counter that would leave the 32-bit column is an error of the statement. No definition
-- uses fuel: every loop is a recursion on the list of what it fetches, and where that list ends the
-- loop is observed no further.
--
-- The claims of keys, the cache of lags, the exporter and the simulator do not touch the `World`, and
-- each is a function on a state of its own: `Idempotency.redis_acquirer` fills the interface `Acquirer`
-- that the API takes, `Api.Routes` puts the middleware before `submitJob`, and the simulator's topic is
-- one that the ingestion reads. Redis, the brokers' offsets, Prometheus's answers and the MQTT tokens are
-- parameters. An int64 offset of the exporter is its residue modulo 2^64; an int64 of the cache is an
-- integer, which is compared only.
--
-- A command's `main` runs in a `Startup.Setting`, the variables of its environment and the errors of
-- the calls that can fail, and keeps what it opened and closed and its deferred calls: os.Exit runs none
-- of them, a return runs them all, the last one first. What it serves in between is the other parts'.
-- The three workers start alike and are one `Command`. A trace is the fields that the propagator injects,
-- and the propagator's `Extract` is a parameter.
--
-- A map that the program marshals is its list of keys and values, one for each of the three writers of job
-- messages, and the worker's struct is read from it by its tags (`Codec.read_fields`). Where a text goes to
-- a jsonb column, what the column keeps of it is `Codec.jsonb`.
--
-- Not modelled: the making and registration of the metrics' collectors; the values of options and
-- addresses, and variables that have a default; the HTTP servers; the scheduling of goroutines,
-- tickers and the client of MQTT; logs and spans; the methods of the consumer of Kafka that only
-- call kafka-go; the validity of a jsonb text, and limits of time, whose failures are the
-- environment's refused and lost answers; the mock services and the chaos monkey; the goroutines
-- that start simulated devices; the interfaces that sqlc generates.
mod Prelude
mod Failure
mod Scenarios
pub mod Jobs
pub mod Store
pub mod World
pub mod Kafka
pub mod Metrics
pub mod Codec
mod GoMap
pub mod LagCache
pub mod LagExporter
pub mod DevSim
pub mod Startup
pub mod Submitter
pub mod Clients
pub mod Handlers
pub mod Worker
pub mod Wiring
pub mod Reaper
pub mod Router
pub mod Api
pub mod Idempotency
pub mod Ingestion
pub mod System
pub mod Retry
