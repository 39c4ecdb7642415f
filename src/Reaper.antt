-- ===== src/Reaper.antt =====
-- cmd/reaper: one scan for stale RUNNING jobs, each of which is requeued and republished.
pub mod Scan
pub mod Requeues
pub mod Recovers
pub mod Overdue
use processing_platform.Prelude.{ℕ, String, ◌<>◌, List, [], ◌∷◌, ltb, if◌then◌else◌}
use processing_platform.World.{M, pure, attempt, ◌>>=◌, ◌>>◌}
use processing_platform.Kafka.{publish}
use processing_platform.Codec.{Codec, Field, text, raw}
use processing_platform.Store.Rows.{Job, ReapStaleJobsRow}
use processing_platform.Store.Queries.{reap_stale_jobs, requeue_job}

-- Sixty seconds, in microseconds.
abbrev pub staleness : ℕ
staleness = 60000000

abbrev pub max_batch : ℕ
max_batch = 50

module _ (cx : Codec) where
  unfoldable pub job_message : Job → List (String × Field)
  job_message job =
      ("job_id", text (cx.uuid_string job.id))
      ∷ ("type", text job.type)
      ∷ ("tier", text job.tier)
      ∷ ("device_id", text job.device_id)
      ∷ ("payload", raw job.payload)
      ∷ []

  unfoldable pub republish : Job → M (Unit {0})
  republish job =
      if ltb job.max_attempts job.attempts
      then pure tt
      else publish ("jobs." <> job.tier) job.device_id (cx.marshal_object (job_message job))

  unfoldable pub requeue : ReapStaleJobsRow → M (Unit {0})
  requeue s = do job ← requeue_job s.id; republish job

  -- An error of one row is logged, and the loop goes on.
  unfoldable pub requeue_all : List ReapStaleJobsRow → M (Unit {0})
  requeue_all [] = pure tt
  requeue_all (s ∷ rest) = do attempt (requeue s); requeue_all rest

  unfoldable pub scan_once : M (Unit {0})
  scan_once = do stale ← reap_stale_jobs staleness max_batch; requeue_all stale
