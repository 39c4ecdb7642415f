-- ===== src/Router/RetryAt.antt =====
-- The retry-at header, from internal/worker, which writes it, to cmd/retry-router, which reads it.
use processing_platform.Prelude.{
  ℕ, ◌+◌, ◌*◌, ◌/◌, ◌≤◌, ◌<◌, String, ◌≡◌, refl, ap, ◌∙◌, ◌<>◌, List, [], ◌∷◌, ◌++◌, arith,
}
use processing_platform.Codec.{Codec}
use processing_platform.Retry.{Float64, second, next_at}
use processing_platform.Failure.{ok}
use processing_platform.World.{World, Message, draw}
use processing_platform.Kafka.{inject}
use processing_platform.Store.Sql.Jobs.{int_max}
use processing_platform.Worker.{Config, send_to_retry}
use processing_platform.Worker.Stands.{Stands}
use processing_platform.Worker.Failing.{retry_message}
use processing_platform.Router.{read_retry_at, parsed_or, unix}

read_retry_at-last :
    (cx : Codec) (hs : List (String × String)) (t n : ℕ)
    → read_retry_at cx t (hs ++ ("retry-at", cx.format_int n) ∷ []) ≡ n * second
unfolding read_retry_at parsed_or unix
read_retry_at-last cx [] t n = rw (cx.parse-format_int n) refl
read_retry_at-last cx ((k, v) ∷ hs) t n = read_retry_at-last cx hs _ n

module _ (cx : Codec) (fp : Float64) (cfg : Config) where
  -- In a world where every request is delivered at once and the job's counter is not full, a worker
  -- that schedules a retry leaves a message on the retry topic from which the router reads, whenever
  -- it does and whatever trace the message carries, a due time that is never after the one that the
  -- backoff gives, and less than a second before it.
  pub retry_at_roundtrip :
      {id limit attempts : ℕ} {state : String} {o : List Message} {w : World} (value msg : String)
      (n t : ℕ)
      → Stands id limit attempts state o w
      → attempts < int_max
      → (w' : World) × (m : Message) × (r : ℕ) × (send_to_retry cx fp cfg value id n msg w
          ≡ (ok tt, w'))
        × (w'.outbox ≡ m ∷ o)
        × (m.topic ≡ cfg.topic <> ".retry")
        × ((draw w).0 ≡ ok r)
        × (read_retry_at cx t m.headers ≤ next_at fp w.clock n r)
        × (next_at fp w.clock n r < read_retry_at cx t m.headers + second)
  retry_at_roundtrip {w} value msg n t s small =
      let (w', m, sent, s', topic, v, r, drew, hs) = retry_message cx fp cfg value msg n small s in
      let due = next_at fp w.clock n r in
      let back : read_retry_at cx t m.headers ≡ due / second * second =
        ap (read_retry_at cx t) hs ∙ read_retry_at-last cx (inject w.trace []) t (due / second) in
      (w', m, r, sent, s'.outbox, topic, drew, omega (arith, back), omega (arith, back))
