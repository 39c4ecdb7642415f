-- ===== src/Startup/Commands.antt =====
-- The commands' `main`, up to where each serves, and its return.
use processing_platform.Prelude.{String, List, [], ◌∷◌}
use processing_platform.Failure.{Result}
use processing_platform.Startup.{
  Resource, signals, metrics_server, tracer, pool, redis, producer, consumer, mqtt, ticker,
  http_server, redis_ping, mqtt_connect, mqtt_subscribe, Setting, Act, closed, Held, Ended, ready,
  exited, Boot, ◌>>=◌, ◌>>◌, pure, opens, closes, defers, exit_on_error, must_env, call, store_new,
  init,
}

pub data Command : Type 0 where
  api worker ingestion reaper retry_router : Command

-- A constructor that cannot fail, and the deferred `Close`.
unfoldable pub using : Resource → Boot (Unit {0})
using r = do opens r; defers (r ∷ [])

module _ (cfg : Setting) where
  abbrev pub required : String → Boot (Unit {0})
  required k = do must_env cfg k; pure tt

  -- `observability.Init` with its checks and its deferred `shutdown`.
  unfoldable pub observed : Boot (Unit {0})
  observed = do e ← init cfg; exit_on_error e; defers (metrics_server ∷ tracer ∷ [])

  -- `store.New` with its check and its deferred `Close`.
  unfoldable pub stored : Boot (Unit {0})
  stored = do e ← store_new cfg; exit_on_error e; defers (pool ∷ [])

  -- cmd/worker-realtime, worker-standard and worker-bulk, up to `worker.Run`.
  unfoldable pub start_worker : Boot (Unit {0})
  unfolding observed stored using
  start_worker = do
    required "POSTGRES_DSN"
    required "KAFKA_BROKERS"
    using signals
    observed
    stored
    using consumer
    using producer

  unfoldable pub start_api : Boot (Unit {0})
  unfolding observed stored using
  start_api = do
    required "POSTGRES_DSN"
    required "REDIS_ADDR"
    required "KAFKA_BROKERS"
    using signals
    observed
    stored
    opens redis
    exit_on_error (call cfg redis_ping)
    defers (redis ∷ [])
    using producer
    opens http_server

  unfoldable pub start_ingestion : Boot (Unit {0})
  unfolding stored using
  start_ingestion = do
    required "KAFKA_BROKERS"
    required "POSTGRES_DSN"
    using signals
    using producer
    stored
    exit_on_error (call cfg mqtt_connect)
    using mqtt
    exit_on_error (call cfg mqtt_subscribe)

  unfoldable pub start_reaper : Boot (Unit {0})
  unfolding stored using
  start_reaper = do
    required "POSTGRES_DSN"
    required "KAFKA_BROKERS"
    using signals
    stored
    using producer
    using ticker

  -- The consumers are opened and closed by the goroutines of the three tiers, which `main` does
  -- not wait for: their closing is not among its own.
  unfoldable pub start_router : Boot (Unit {0})
  unfolding using
  start_router = do
    required "KAFKA_BROKERS"
    using signals
    using producer
    opens consumer
    opens consumer
    opens consumer

  unfoldable pub start : Command → Boot (Unit {0})
  start api = start_api
  start worker = start_worker
  start ingestion = start_ingestion
  start reaper = start_reaper
  start retry_router = start_router

-- What `main` does when it has served: only the API has a call of its own, `server.Shutdown`.
unfoldable pub stop : Command → Boot (Unit {0})
stop api = closes http_server
stop worker = pure tt
stop ingestion = pure tt
stop reaper = pure tt
stop retry_router = pure tt

-- One deferred call closes its resources in their order.
unfoldable pub close_all : List Resource → List Act → List Act
close_all [] acts = acts
close_all (r ∷ rs) acts = close_all rs (closed r ∷ acts)

-- The return of `main`.
unfoldable pub run_defers : List (List Resource) → List Act → List Act
unfolding close_all
run_defers [] acts = acts
run_defers (rs ∷ ds) acts = run_defers ds (close_all rs acts)

unfoldable pub returns : Ended (Unit {0}) × Held → Ended (Unit {0}) × Held
unfolding run_defers
returns (exited n, h) = (exited n, h)
returns (ready _, h) = (ready tt, record { acts = run_defers h.defers h.acts; defers = [] })

abbrev pub nothing_held : Held
nothing_held = record { acts = []; defers = [] }

-- A command that serves until it is told to stop; what it serves ends with a result, where an error
-- exits with 1 (only `worker.Run` can return one).
unfoldable pub main : Setting → Command → Result (Unit {0}) → Ended (Unit {0}) × Held
unfolding returns
main cfg c served = returns ((start cfg c >> (exit_on_error served >> stop c)) nothing_held)
