-- ===== src/Worker/Loop.antt =====
-- internal/worker/worker.go: the loop of `Run`. What the consumer fetches comes as a list.
pub mod Counts
use processing_platform.Prelude.{ℕ, ◌-◌, String, Option, none, some, List, [], ◌∷◌}
use processing_platform.Failure.{Err, Result, ok, err}
use processing_platform.World.{World, Message}
use processing_platform.Codec.{Codec}
use processing_platform.Retry.{Float64}
use processing_platform.Metrics.{Metrics, observe_job}
use processing_platform.Router.{commit_message}
use processing_platform.Worker.{Config, process_one}

-- `FetchMessageWithCtx`: an error that is context.Canceled, another error, or a message.
pub data Fetch : Type 0 where
  cancelled : Fetch
  failed : Fetch
  fetched : Message → Fetch

-- The worker's process: the world, its metrics, and the messages it has asked to commit with the
-- consumer's answer, newest first.
pub record Shift : Type 0 where
  pub world : World
  pub metrics : Metrics
  pub commits : List (Message × Result (Unit {0}))

unfoldable pub outcome_label : Result (Unit {0}) → String
outcome_label (ok _) = "success"
outcome_label (err e) = "failed"

module _ (cx : Codec) (fp : Float64) (peek : String → String × String) (cfg : Config) where
  -- One message: counted, processed, observed and committed. `peek` is json.Unmarshal into the
  -- struct with the type and the tier, whose error is dropped.
  unfoldable pub turn : Message → Shift → Shift
  unfolding outcome_label
  turn msg s =
      let counted = record s.metrics {
        kafka_messages_consumed = (cfg.topic, cfg.group_id) ∷ s.metrics.kafka_messages_consumed;
      } in
      let parsed = peek msg.value in
      let start = s.world.clock in
      let done = process_one cx fp cfg msg s.world in
      let seen =
        observe_job parsed.0 parsed.1 (outcome_label done.0) (done.1.clock - start) counted in
      let commit = commit_message done.1 in
      record { world = commit.1; metrics = seen; commits = (msg, commit.0) ∷ s.commits }

  -- `Run`; `none` is that it has not returned, for want of further fetches.
  unfoldable pub run : List Fetch → Shift → Option (Result (Unit {0})) × Shift
  unfolding turn
  run [] s = (none, s)
  run (cancelled ∷ fs) s = (some (ok tt), s)
  run (failed ∷ fs) s = run fs s
  run (fetched msg ∷ fs) s = run fs (turn msg s)
