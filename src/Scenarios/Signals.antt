-- ===== src/Scenarios/Signals.antt =====
-- Traces, at concrete inputs.
use processing_platform.Prelude.{String, [], ◌∷◌, ◌≡◌, refl}
use processing_platform.Failure.{ok}
use processing_platform.World.{World, Message}
use processing_platform.Kafka.{publish, publish_with_header}
use processing_platform.Kafka.Consumer.{Propagator}
use processing_platform.Kafka.Consumer.Traces.{Carries, fetch-publish}
use processing_platform.Scenarios.Plant.{world}

-- A propagator of two fields.
abbrev two_fields : Propagator
two_fields = record {
  Context = String × String;
  extract = λ base read. (read "traceparent", read "baggage");
}

abbrev traced : World
traced = record world { trace = ("traceparent", "00-17") ∷ ("baggage", "tenant=4") ∷ [] }

fetch-publish_example :
    ((msg : Message) × (w' : World) × (publish "jobs.realtime" "d1" "{}" traced ≡ (ok tt, w'))
      × (w'.outbox ≡ msg ∷ traced.outbox)
      × Carries two_fields ("", "") traced.trace msg)
    × ((msg : Message) × (w' : World) × (publish_with_header "jobs.realtime" "d1" "{}" "retry-at"
            "3" traced
          ≡ (ok tt, w'))
        × (w'.outbox ≡ msg ∷ traced.outbox)
        × Carries two_fields ("", "") traced.trace msg)
fetch-publish_example =
    fetch-publish two_fields ("", "") "jobs.realtime" "d1" "{}" "retry-at" "3" traced refl
      (((λ q. cc q), tt), (tt, tt))
