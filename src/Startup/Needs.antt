-- ===== src/Startup/Needs.antt =====
-- What a command needs to start: the requirements of the cmd programs, read off apart from their order.
use processing_platform.Prelude.{
  String, Bool, true, false, not, ◌&&◌, Option, none, some, List, [], ◌∷◌, all, str_eq,
}
use processing_platform.Startup.{
  Check, exporter, pool_config, pool_connect, pool_ping, redis_ping, mqtt_connect, mqtt_subscribe,
  Setting,
}
use processing_platform.Startup.Commands.{Command, api, worker, ingestion, reaper, retry_router}

-- The variables that a command cannot do without.
unfoldable pub variables : Command → List String
variables api = "POSTGRES_DSN" ∷ "REDIS_ADDR" ∷ "KAFKA_BROKERS" ∷ []
variables worker = "POSTGRES_DSN" ∷ "KAFKA_BROKERS" ∷ []
variables ingestion = "KAFKA_BROKERS" ∷ "POSTGRES_DSN" ∷ []
variables reaper = "POSTGRES_DSN" ∷ "KAFKA_BROKERS" ∷ []
variables retry_router = "KAFKA_BROKERS" ∷ []

-- The servers that must answer.
unfoldable pub checks : Command → List Check
checks api = exporter ∷ pool_config ∷ pool_connect ∷ pool_ping ∷ redis_ping ∷ []
checks worker = exporter ∷ pool_config ∷ pool_connect ∷ pool_ping ∷ []
checks ingestion = pool_config ∷ pool_connect ∷ pool_ping ∷ mqtt_connect ∷ mqtt_subscribe ∷ []
checks reaper = pool_config ∷ pool_connect ∷ pool_ping ∷ []
checks retry_router = []

abbrev pub is_none : {A : Type 0} → Option A → Bool
is_none none = true
is_none (some a) = false

module _ (cfg : Setting) where
  -- All of them are there.
  unfoldable pub can_start : Command → Bool
  unfolding variables checks
  can_start c =
      all (λ k. not (str_eq (cfg.getenv k) "")) (variables c)
      && all (λ k. is_none (cfg.failure k)) (checks c)
