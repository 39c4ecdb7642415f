-- ===== src/Submitter.antt =====
-- internal/jobsubmitter/submitter.go: INSERT the job, publish it, bump it to QUEUED.
pub mod Duplicate
use processing_platform.Prelude.{
  String, ◌<>◌, Option, none, some, List, [], ◌∷◌, str_eq, if◌then◌else◌,
}
use processing_platform.Failure.{Result, ok, err, new}
use processing_platform.Jobs.State.{state_queued}
use processing_platform.Jobs.Types.{tier_for}
use processing_platform.World.{M, pure, lift, wrapping, attempt, ◌>>=◌, ◌>>◌}
use processing_platform.Kafka.{publish}
use processing_platform.Codec.{Codec, Field, text, raw}
use processing_platform.Store.Rows.{Job, CreateJobParams}
use processing_platform.Store.Queries.{create_job, update_job_state}

-- `if len(payload) == 0 { payload = []byte("{}") }`.
unfoldable pub or_empty_object : String → String
or_empty_object payload = if str_eq payload "" then "{}" else payload

module _ (cx : Codec) where
  -- `TierFor` with its error.
  unfoldable pub tier_result : String → Option String → Result String
  tier_result typ none = err (new ("no tier mapping for type " <> cx.quote typ))
  tier_result typ (some tier) = ok tier

  -- The message that announces a job.
  unfoldable pub job_message : Job → List (String × Field)
  job_message job =
      ("job_id", text (cx.uuid_string job.id))
      ∷ ("type", text job.type)
      ∷ ("tier", text job.tier)
      ∷ ("device_id", text job.device_id)
      ∷ ("payload", raw job.payload)
      ∷ []

  -- `CreateJobParams` of the API and of the submitter, the payload as the jsonb column keeps it.
  unfoldable pub job_params : String → String → String → String → String → CreateJobParams
  job_params typ tier device_id payload idemp_key = record {
    type = typ;
    tier = tier;
    device_id = device_id;
    payload = cx.jsonb (or_empty_object payload);
    idempotency_key = idemp_key;
    max_attempts = 3;
  }

  unfoldable pub announce : String → String → Job → M (Unit {0})
  unfolding job_message
  announce tier device_id job =
      wrapping "publish" (publish ("jobs." <> tier) device_id (cx.marshal_object (job_message job)))

  unfoldable pub mark_queued : Job → M (Unit {0})
  mark_queued job = do
    attempt (update_job_state (record { id = job.id; state = state_queued; last_error = none }))
    pure tt

  unfoldable pub submit : String → String → String → String → M (Unit {0})
  unfolding job_params
  submit typ device_id idemp_key payload = do
    tier ← wrapping "tier" (lift (tier_result typ (tier_for typ)))
    job ← wrapping "create job" (create_job (job_params typ tier device_id payload idemp_key))
    announce tier device_id job
    mark_queued job
