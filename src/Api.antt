-- ===== src/Api.antt =====
-- cmd/api: the submission and the lookup of jobs.
pub mod Inserted
pub mod Accepted
pub mod Honoured
pub mod Routes
pub mod Once
use processing_platform.Prelude.{
  ℕ, String, ◌<>◌, Bool, not, Option, none, some, List, [], ◌∷◌, if◌then◌else◌,
}
use processing_platform.Failure.{Result, ok, err, error_text, is_no_rows}
use processing_platform.Jobs.State.{state_queued}
use processing_platform.Jobs.Types.{valid, tier_for}
use processing_platform.Jobs.Key.{validate_idempotency_key}
use processing_platform.World.{World, M, pure, attempt, ◌>>=◌}
use processing_platform.Kafka.{publish}
use processing_platform.Codec.{Codec, Field, text, raw, SubmitJobRequest}
use processing_platform.Submitter.{job_params}
use processing_platform.Store.Rows.{Job}
use processing_platform.Store.Queries.{
  create_job, get_job, get_job_by_idempotency_key, update_job_state,
}

-- `idempotency.Acquirer`: an id and whether the key is new, over the state of its server.
pub record Acquirer : Type 1 where
  pub Server : Type 0
  pub acquire : String → Server → Result (ℕ × Bool) × Server

pub data Body : Type 0 where
  error : String → Body
  submitted : String → String → Body  -- job_id, state
  found : Job → Body

pub record Response : Type 0 where
  pub status : ℕ
  pub body : Body

abbrev pub reply : ℕ → Body → Response
reply status body = record { status = status; body = body }

abbrev pub internal : Response
internal = reply 500 (error "internal")

module _ (cx : Codec) where
  abbrev pub job_response : ℕ → Job → Response
  job_response status job = reply status (submitted (cx.uuid_string job.id) job.state)

  -- The key was used before: the job that it stands for.
  unfoldable pub existing_response : Result Job → Response
  existing_response (err e) = internal
  existing_response (ok job) = job_response 200 job

  unfoldable pub respond_existing : SubmitJobRequest → M Response
  unfolding existing_response
  respond_existing req = do
    r ← attempt (get_job_by_idempotency_key req.idempotency_key req.type)
    pure (existing_response r)

  -- After the bump to QUEUED, which may have failed.
  unfoldable pub queued_response : Job → Result Job → Response
  queued_response job (err e) = job_response 202 job
  queued_response job (ok queued) = job_response 202 queued

  unfoldable pub after_publish : Job → Result (Unit {0}) → M Response
  unfolding queued_response
  after_publish job (err e) = pure (job_response 202 job)
  after_publish job (ok _) = do
    r ← attempt (update_job_state (record { id = job.id; state = state_queued; last_error = none }))
    pure (queued_response job r)

  -- The value of the Kafka message.
  unfoldable pub job_message : Job → List (String × Field)
  job_message job =
      ("job_id", text (cx.uuid_string job.id))
      ∷ ("type", text job.type)
      ∷ ("tier", text job.tier)
      ∷ ("device_id", text job.device_id)
      ∷ ("payload", raw job.payload)
      ∷ []

  unfoldable pub after_create : SubmitJobRequest → String → Result Job → M Response
  after_create req tier (err e) = pure internal
  after_create req tier (ok job) = do
    r ← attempt (publish ("jobs." <> tier) req.device_id (cx.marshal_object (job_message job)))
    after_publish job r

  unfoldable pub respond_new : SubmitJobRequest → String → M Response
  respond_new req tier = do
    r ←
        attempt
          (create_job (job_params cx req.type tier req.device_id req.payload req.idempotency_key))
    after_create req tier r

  module _ (acq : Acquirer) where
    unfoldable pub respond_acquired : SubmitJobRequest → String → Result (ℕ × Bool) → M Response
    respond_acquired req tier (err e) = pure internal
    respond_acquired req tier (ok (_, is_new)) =
        if is_new then respond_new req tier else respond_existing req

    -- Past the checks the server of the keys is asked, then the tables.
    unfoldable pub submit_checked :
        SubmitJobRequest
        → Option String
        → acq.Server
        → World
        → (Result Response × World) × acq.Server
    submit_checked req none srv w =
        ((ok (reply 400 (error ("no tier mapping for type " <> cx.quote req.type))), w), srv)
    submit_checked req (some tier) srv w =
        let (claim, srv') = acq.acquire req.idempotency_key srv in
        (respond_acquired req tier claim w, srv')

    unfoldable pub submit_bound :
        Result SubmitJobRequest → acq.Server → World → (Result Response × World) × acq.Server
    submit_bound (err e) srv w = ((ok (reply 400 (error (error_text e))), w), srv)
    submit_bound (ok req) srv w =
        if not (valid req.type)
        then ((ok (reply 400 (error "unknown type")), w), srv)
        else if not (validate_idempotency_key req.idempotency_key)
        then ((ok (reply 400 (error "idempotency_key must match ^[A-Za-z0-9_-]{8,128}$")), w), srv)
        else submit_checked req (tier_for req.type) srv w

    unfoldable pub submit_job : String → acq.Server → World → (Result Response × World) × acq.Server
    submit_job body srv w = submit_bound (cx.bind_submit body) srv w

  unfoldable pub looked_up : Result Job → Response
  looked_up (ok job) = reply 200 (found job)
  looked_up (err e) = if is_no_rows e then reply 404 (error "not found") else internal

  unfoldable pub lookup_parsed : Result ℕ → M Response
  unfolding looked_up
  lookup_parsed (err e) = pure (reply 400 (error "invalid uuid"))
  lookup_parsed (ok id) = do r ← attempt (get_job id); pure (looked_up r)

  unfoldable pub get_job_response : String → M Response
  unfolding lookup_parsed
  get_job_response id = lookup_parsed (cx.parse_uuid id)
