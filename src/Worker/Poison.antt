-- ===== src/Worker/Poison.antt =====
-- internal/worker/worker.go: a message whose handler always fails ends among the dead letters.
use processing_platform.Prelude.{ℕ, zero, suc, ◌≡◌, some}
use processing_platform.World.{World, Message}
use processing_platform.Codec.{Codec}
use processing_platform.Retry.{Float64}
use processing_platform.Jobs.State.{state_failed}
use processing_platform.Store.Rows.{Job}
use processing_platform.Store.Sql.Base.{find_job}
use processing_platform.Worker.{Config, process_one}
use processing_platform.Worker.Stands.{Stands}
use processing_platform.System.Kept.{Sent}

module _ (cx : Codec) (fp : Float64) (cfg : Config) where
  -- The message is delivered so many times.
  unfoldable pub deliver : ℕ → Message → World → World
  deliver zero msg w = w
  deliver (suc n) msg w = deliver n msg (process_one cx fp cfg msg w).1

  -- The job is FAILED, and its dead letter is with the brokers.
  abbrev pub Dead : ℕ → World → Type 0
  Dead id w =
      (j : Job) × (find_job id w.db ≡ some j)
      × (j.state ≡ state_failed)
      × Sent "jobs.dlq" (cx.uuid_string id) w.outbox
