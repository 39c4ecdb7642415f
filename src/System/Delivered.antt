-- ===== src/System/Delivered.antt =====
-- From a submission to SUCCESS: internal/jobsubmitter and internal/worker, where every request is
-- delivered at once.
use processing_platform.Prelude.{ℕ, String, ◌<>◌, ◌≡◌, refl, sym, ap, ◌∙◌, none, some, List, ◌∷◌}
use processing_platform.Failure.{ok}
use processing_platform.World.{World, Message, pure}
use processing_platform.World.Calm.{bind-ok, bind-attempt, wrapping-ok}
use processing_platform.Codec.{Codec, KafkaJobMsg}
use processing_platform.Retry.{Float64}
use processing_platform.Jobs.State.{state_queued, state_running, state_success}
use processing_platform.Store.Rows.{Db, Job}
use processing_platform.Store.Sql.Base.{find_job}
use processing_platform.Store.Sql.Jobs.{state_check, new_job}
use processing_platform.Handlers.{Handler, HandlerJob, registry_get}
use processing_platform.Submitter.{submit, job_params}
use processing_platform.Worker.{
  Config, conclude, dispatch, process_one, start_heartbeat, stop_heartbeat,
}
use processing_platform.Worker.Stands.{Stands, Stands-to_state, Stands-get_job, Stands-beating}
use processing_platform.Worker.Beside.{other_tables, to_state-other_tables}
use processing_platform.Worker.Announced.{received_as, process_one-announced}
use processing_platform.System.Submitted.{Admits, row, submit-Queued}

-- What the handler gets of a job.
abbrev pub handed : Codec → Job → HandlerJob
handed cx j = record {
  id = cx.uuid_string j.id;
  type = j.type;
  device_id = j.device_id;
  payload = cx.compact j.payload;
}

-- The handler returns nil for the job where the tables besides the jobs are these, and leaves the
-- job's row, its attempts and its state.
pub record Serves (handle : Handler) (hj : HandlerJob) (id : ℕ) (tables : Db) : Type 0 where
  pub serve :
      (o : List Message) (v : World)
      → Stands id 3 0 state_running o v
      → other_tables v.db ≡ other_tables tables
      → (v' : World) × (o' : List Message) × (handle hj v ≡ (ok tt, v'))
        × Stands id 3 0 state_running o' v'

module _ (cx : Codec) (fp : Float64) (cfg : Config) where
  -- The job is SUCCESS.
  abbrev pub Succeeded : ℕ → World → Type 0
  Succeeded id w = (j : Job) × (find_job id w.db ≡ some j) × (j.state ≡ state_success)

  dispatch-Succeeded :
      {o : List Message} {w : World} (msg : Message) (m : KafkaJobMsg) (id : ℕ) (job : Job)
      (handle : Handler) (tables : Db)
      → Serves handle
          (record { id = m.job_id; type = m.type; device_id = m.device_id; payload = m.payload })
          id
          tables
      → Stands id 3 0 state_queued o w
      → other_tables w.db ≡ other_tables tables
      → (w' : World) × (dispatch cx fp cfg msg m id job (some handle) w ≡ (ok tt, w'))
        × Succeeded id w'
  unfolding dispatch state_check start_heartbeat stop_heartbeat conclude pure
  dispatch-Succeeded {w} msg m id job handle tables serves s beside =
      let (j, w₁, e₁, s₁) = Stands-to_state s state_running none refl in
      let (v, o', h, s₂) =
        serves.serve _ _ (Stands-beating (some id) s₁)
          (to_state-other_tables _ _ _ w w₁ s.calm e₁ ∙ beside) in
      let (k, w₃, e₃, s₃) = Stands-to_state (Stands-beating none s₂) state_success none refl in
      (
        w₃,
        bind-ok _ _ w (wrapping-ok "update RUNNING" _ w e₁)
            ∙ bind-ok _ _ w₁ refl
            ∙ bind-attempt _ _ _ h
            ∙ bind-ok _ _ _ refl
            ∙ bind-ok _ _ _ e₃,
        (s₃.job, s₃.found, s₃.has_state),
      )

module _ (cx : Codec) (fp : Float64) (cfg : Config) {typ tier dev key : String} {u : ℕ} {w : World}
    (payload : String) (a : Admits typ tier dev key u w) where
  -- Where every request is delivered at once, a job that the tables admit, of a type that a worker of
  -- its tier has a handler for and that the handler serves with the other tables as they are, is
  -- submitted without an error, and the
  -- worker's handling of its announcement returns nil and leaves the job SUCCESS.
  pub submit-Succeeded :
      (handle : Handler)
      → cfg.allowed_tier ≡ tier
      → registry_get cfg.registry typ ≡ some handle
      → Serves handle (handed cx (row cx payload a)) u w.db
      → (w₁ : World) × (msg : Message) × (w₂ : World) × (submit cx typ dev key payload w
          ≡ (ok tt, w₁))
        × (w₁.outbox ≡ msg ∷ w.outbox)
        × (msg.topic ≡ "jobs." <> tier)
        × (process_one cx fp cfg msg w₁ ≡ (ok tt, w₂))
        × Succeeded cx fp cfg u w₂
  unfolding new_job job_params
  submit-Succeeded handle owned registered serves =
      let (w₁, msg, submitted, s, topic, value, beside) = submit-Queued cx payload a in
      let job = row cx payload a in
      let (w₂, dispatched, good) =
        dispatch-Succeeded cx fp cfg msg (received_as cx job) u s.job handle w.db serves s beside in
      (
        w₁,
        msg,
        w₂,
        submitted,
        s.outbox,
        topic,
        process_one-announced cx fp cfg msg job w₁ value (sym owned)
            ∙ bind-ok _ _ w₁ (wrapping-ok "get job" _ w₁ (Stands-get_job s))
            ∙ ap (λ h. dispatch cx fp cfg msg (received_as cx job) u s.job h w₁) registered
            ∙ dispatched,
        good,
      )
