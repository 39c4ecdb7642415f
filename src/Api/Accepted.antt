-- ===== src/Api/Accepted.antt =====
-- cmd/api/main.go: how the answers of `submitJob` come about past its checks.
use processing_platform.Prelude.{
  ℕ, String, ◌<>◌, ◌≡◌, refl, ap, ◌⊎◌, inl, inr, arith, Bool, true, false, none, List,
}
use processing_platform.Failure.{Result, ok, err}
use processing_platform.World.{M, Message, pure, attempt}
use processing_platform.World.Keeps.{
  Any_world, Inv, After, Triple, KeepsBeat, Triple-bind, Triple-attempt,
}
use processing_platform.Jobs.State.{state_accepted, state_queued}
use processing_platform.Codec.{Codec, SubmitJobRequest}
use processing_platform.Store.Rows.{Db, Job, CreateJobParams, UpdateJobStateParams}
use processing_platform.Store.Sql.Jobs
use processing_platform.Store.Sql.Jobs.{new_job, same_key, update_job, set_state, state_check}
use processing_platform.Store.Queries.{create_job, update_job_state}
use processing_platform.Submitter.{job_params}
use processing_platform.Api.{
  job_message, Acquirer, Response, submitted, reply, queued_response, after_publish, after_create,
  respond_new, existing_response, respond_existing, respond_acquired,
}
use processing_platform.System.Kept.{Triple-query, Triple-publish-Posted, Posted}
use processing_platform.System.Identity.{identity, HasJob, HasJob-Kept, HasJob-update_job_state}
use processing_platform.Api.Inserted.{
  IsFresh, Inserted, create_job-Inserted, mark_queued-id, After-with, Triple-given,
}

After-any :
    {A : Type 0} (r : Result A) (db : Db) (o : List Message)
    → After (λ _. Any_world) Any_world r db o
After-any (ok a) db o = tt
After-any (err e) db o = tt

module _ (cx : Codec) (req : SubmitJobRequest) (tier : String) where
  abbrev pub asked : CreateJobParams
  asked = job_params cx req.type tier req.device_id req.payload req.idempotency_key

  -- The message that announces the job is with the brokers.
  abbrev pub Announced : Job → List Message → Type 0
  Announced j o = Posted ("jobs." <> tier) req.device_id (cx.marshal_object (job_message cx j)) o

  -- The table has a fresh row for the request, with the id of the answer, and its message is with
  -- the brokers unless the answer says ACCEPTED.
  abbrev pub Granted : Response → Inv
  Granted r db o =
      (j : Job) × (state : String) × (r.body ≡ submitted (cx.uuid_string j.id) state)
      × IsFresh asked j
      × HasJob (identity j) db o
      × ((state ≡ state_accepted) ⊎ Announced j o)

  abbrev pub Promises : Response → Inv
  Promises r db o = r.status ≡ 202 → Granted r db o

  abbrev Published : Job → Inv
  Published job db o = HasJob (identity job) db o × Announced job o

  Promises-queued :
      (job : Job) (r : Result Job)
      → IsFresh asked job
      → Triple
          (After (λ (k : Job). λ db o. (k.id ≡ job.id) × Published job db o) (Published job) r)
          (pure (queued_response cx job r))
          Promises
          Any_world
  unfolding pure queued_response
  Promises-queued job (err e) f = record { at = λ w p s. (job, job.state, refl, f, p.0, inr p.1) }
  Promises-queued job (ok k) f = record {
    at = λ w p s.
        (job, k.state, ap (λ i. submitted (cx.uuid_string i) k.state) p.0, f, p.1.0, inr p.1.1);
  }

  Promises-accepted :
      (job : Job)
      → IsFresh asked job
      → Triple
          (HasJob (identity job))
          (pure (reply 202 (submitted (cx.uuid_string job.id) job.state)))
          Promises
          Any_world
  unfolding pure
  Promises-accepted job f = record { at = λ w p s. (job, job.state, refl, f, p, inl f.state) }

  HasJob-beat : (job : Job) → KeepsBeat (HasJob (identity job))
  HasJob-beat job = (HasJob-Kept (identity job) {u = cx.uuid_string}).by_beat

  Published-bump :
      (job : Job)
      → Triple
          (Published job)
          (update_job_state (record { id = job.id; state = state_queued; last_error = none }))
          (λ (k : Job). λ db o. (k.id ≡ job.id) × Published job db o)
          (Published job)
  unfolding update_job_state
  Published-bump job =
      let arg : UpdateJobStateParams = record {
        id = job.id;
        state = state_queued;
        last_error = none;
      } in
      Triple-query (Jobs.update_job_state arg)
        (record { beat = λ t id db o p. ((HasJob-beat job).beat t id db o p.0, p.1) })
        (λ s db o p.
          After-with _ (Published job) _ db _ o (mark_queued-id job.id none s db)
            (HasJob-update_job_state (identity job) arg s db o p.0, p.1))
        (λ db o p. p) (λ a db o p. p.1)

  Promises-after_publish :
      (job : Job) (r : Result (Unit {0}))
      → IsFresh asked job
      → Triple
          (After (λ _. Published job) (HasJob (identity job)) r)
          (after_publish cx job r)
          Promises
          Any_world
  unfolding after_publish
  Promises-after_publish job (err e) f = Promises-accepted job f
  Promises-after_publish job (ok _) f =
      Triple-bind (Triple-attempt (Published-bump job)) (λ r. Promises-queued job r f)

  Promises-after_create :
      (r : Result Job)
      → Triple (After (Inserted asked) Any_world r) (after_create cx req tier r) Promises Any_world
  unfolding after_create pure
  Promises-after_create (err e) = record { at = λ w p s. absurd (omega (arith, s)) }
  Promises-after_create (ok job) = Triple-given (λ f.
      Triple-bind
        (Triple-attempt (
          Triple-publish-Posted (HasJob-beat job) (λ m db o p. p) ("jobs." <> tier) req.device_id
            _))
        (λ r. Promises-after_publish job r f))

  Promises-respond_new : Triple Any_world (respond_new cx req tier) Promises Any_world
  unfolding respond_new create_job
  Promises-respond_new =
      Triple-bind
        (Triple-attempt (
          Triple-query (Jobs.create_job asked) (record { beat = λ t id db o p. p })
            (λ s db o p. create_job-Inserted asked s db o) (λ db o p. p) (λ a db o p. tt)))
        (λ r. Promises-after_create r)

  Promises-existing :
      (r : Result Job) → Triple Any_world (pure (existing_response cx r)) Promises Any_world
  unfolding pure existing_response
  Promises-existing (err e) = record { at = λ w p s. absurd (omega (arith, s)) }
  Promises-existing (ok job) = record { at = λ w p s. absurd (omega (arith, s)) }

  Any-attempt : {A : Type 0} (m : M A) → Triple Any_world (attempt m) (λ _. Any_world) Any_world
  Any-attempt m = record { at = λ w _. let r = attempt m w in After-any r.0 r.1.db r.1.outbox }

  pub Promises-respond_acquired :
      (acq : Acquirer) (r : Result (ℕ × Bool))
      → Triple Any_world (respond_acquired cx acq req tier r) Promises Any_world
  unfolding respond_acquired respond_existing pure
  Promises-respond_acquired acq (err e) = record { at = λ w p s. absurd (omega (arith, s)) }
  Promises-respond_acquired acq (ok (id, true)) = Promises-respond_new
  Promises-respond_acquired acq (ok (id, false)) =
      Triple-bind (Any-attempt _) (λ r. Promises-existing r)
