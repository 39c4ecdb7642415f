-- ===== src/Worker/Announced.antt =====
-- From internal/jobsubmitter, cmd/api and cmd/reaper, which announce a job, to internal/worker.
use processing_platform.Prelude.{◌≡◌, refl, ap, ◌∙◌, eq_iff}
use processing_platform.Failure.{ok}
use processing_platform.World.{World, Message, lift, wrapping, ◌>>=◌}
use processing_platform.World.Calm.{bind-ok, wrapping-ok}
use processing_platform.Codec.{Codec, KafkaJobMsg, read_fields}
use processing_platform.Retry.{Float64}
use processing_platform.Store.Rows.{Job}
use processing_platform.Store.Queries.{get_job}
use processing_platform.Submitter
use processing_platform.Api
use processing_platform.Reaper
use processing_platform.Handlers.{registry_get}
use processing_platform.Worker.{Config, dispatch, process_owned, process_decoded, process_one}

-- What the worker reads out of a job's announcement.
abbrev pub received_as : Codec → Job → KafkaJobMsg
received_as cx job = record {
  job_id = cx.uuid_string job.id;
  type = job.type;
  tier = job.tier;
  device_id = job.device_id;
  payload = cx.compact job.payload;
}

-- What the three writers marshal for a job, the worker decodes as the job's own id, type, tier and
-- device, and its payload as json.Marshal compacts it.
pub unmarshal-job_message :
    (cx : Codec) (job : Job)
    → (cx.unmarshal_job (cx.marshal_object (Api.job_message cx job)) ≡ ok (received_as cx job))
      × (cx.unmarshal_job (cx.marshal_object (Submitter.job_message cx job))
          ≡ ok (received_as cx job))
      × (cx.unmarshal_job (cx.marshal_object (Reaper.job_message cx job)) ≡ ok (received_as cx job))
unfolding Api.job_message Submitter.job_message Reaper.job_message read_fields
unmarshal-job_message cx job = (
  cx.unmarshal-marshal_object _ _ refl refl,
  cx.unmarshal-marshal_object _ _ refl refl,
  cx.unmarshal-marshal_object _ _ refl refl,
)

module _ (cx : Codec) (fp : Float64) (cfg : Config) where
  -- A worker of the job's tier takes the message for that job.
  pub process_one-announced :
      (msg : Message) (job : Job) (w : World)
      → msg.value ≡ cx.marshal_object (Submitter.job_message cx job)
      → job.tier ≡ cfg.allowed_tier
      → process_one cx fp cfg msg w
        ≡ (wrapping "get job" (get_job job.id) >>= λ row.
              dispatch cx fp cfg msg
                (received_as cx job)
                job.id
                row
                (registry_get cfg.registry job.type))
            w
  unfolding process_one process_decoded process_owned lift
  process_one-announced msg job w v t =
      bind-ok _ _ w (
        wrapping-ok "decode kafka message" _ w
          (ap (λ r. (r, w)) (ap cx.unmarshal_job v ∙ (unmarshal-job_message cx job).1)))
      ∙ rw ((eq_iff job.tier cfg.allowed_tier).1 t)
          (bind-ok _ _ w (ap (λ r. (r, w)) (cx.parse-uuid_string job.id)))
