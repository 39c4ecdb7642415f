-- ===== src/Kafka/Instrumented.antt =====
-- internal/kafka/instrumented_producer.go: the producer that counts what it publishes.
use processing_platform.Prelude.{String, ◌∷◌}
use processing_platform.Failure.{Result, ok, err}
use processing_platform.World.{World}
use processing_platform.Metrics.{Metrics}
use processing_platform.Kafka

-- The label `result`.
unfoldable pub result_label : Result (Unit {0}) → String
result_label (ok _) = "success"
result_label (err _) = "error"

-- `InstrumentedProducer.Publish`; the counters are kept beside the world.
unfoldable pub publish :
    String → String → String → World → Metrics → (Result (Unit {0}) × World) × Metrics
unfolding result_label
publish topic key value w m =
    let r = Kafka.publish topic key value w in
    (r, record m { kafka_produce_total = (topic, result_label r.0) ∷ m.kafka_produce_total })
