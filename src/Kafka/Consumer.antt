-- ===== src/Kafka/Consumer.antt =====
-- internal/kafka/consumer.go: what a fetch gives with the message. The trace propagator of
-- go.opentelemetry.io/otel is a `Propagator`.
pub mod Traces
use processing_platform.Prelude.{String, ◌≡◌, List, [], ◌∷◌, All, Distinct, map}
use processing_platform.Failure.{Result, ok, err}
use processing_platform.World.{Message}
use processing_platform.Kafka.{Carrier, get}

-- `Extract` makes a context from one and what the carrier's `Get` answers.
pub record Propagator : Type 1 where
  pub Context : Type 0
  pub extract : Context → (String → String) → Context

module _ (pr : Propagator) where
  -- `FetchMessageWithCtx`, from what the reader fetched.
  unfoldable pub fetch_message_with_ctx : pr.Context → Result Message → Result Message × pr.Context
  fetch_message_with_ctx ctx (err e) = (err e, ctx)
  fetch_message_with_ctx ctx (ok msg) = (ok msg, pr.extract ctx (λ k. get msg.headers k))
