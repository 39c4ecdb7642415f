-- ===== src/System/Submitted.antt =====
-- internal/jobsubmitter in a world where every request is delivered at once: the submitted job.
use processing_platform.Prelude.{
  ℕ, String, ◌<>◌, ◌≡◌, refl, ap, ◌∙◌, true, false, none, some, [], ◌∷◌, ◌==◌, ==_iff, any,
}
use processing_platform.Failure.{ok}
use processing_platform.World.{World, Message, prompt_call, lift, pure, stamp_of}
use processing_platform.World.Calm.{query-first, publish-calm, bind-ok, bind-attempt, wrapping-ok}
use processing_platform.Codec.{Codec}
use processing_platform.Jobs.State.{state_accepted, state_queued}
use processing_platform.Jobs.Types.{tier_for}
use processing_platform.Store.Rows.{Job, CreateJobParams}
use processing_platform.Store.Sql.Base.{has_device, find_job}
use processing_platform.Store.Sql.Jobs
use processing_platform.Store.Sql.Jobs.{new_job, same_key, state_check}
use processing_platform.Store.Queries.{create_job}
use processing_platform.Submitter.{
  tier_result, job_params, job_message, announce, mark_queued, submit,
}
use processing_platform.Worker.Beside.{other_tables, to_state-other_tables}
use processing_platform.Worker.Stands.{Stands, Stands-to_state, Stands-send}

-- Nothing stands in the way of the job: the type has the tier, the id is new, the key and the type are,
-- and the device is known.
pub record Admits (typ tier dev key : String) (u : ℕ) (w : World) : Type 0 where
  pub tier_of : tier_for typ ≡ some tier
  pub draws : w.env ≡ record prompt_call { uuid = u } ∷ []
  pub new_id : any (λ (j : Job). j.id == u) w.db.jobs ≡ false
  pub new_key : any (same_key key typ) w.db.jobs ≡ false
  pub device : has_device dev w.db ≡ true

module _ (cx : Codec) {typ tier dev key : String} {u : ℕ} {w : World} (payload : String)
    (a : Admits typ tier dev key u w) where
  abbrev params : CreateJobParams
  params = job_params cx typ tier dev payload key

  -- The row that is inserted.
  abbrev pub row : Job
  row = new_job params (stamp_of (record prompt_call { uuid = u }) w)

  abbrev inserted : World
  inserted = record w { db = record w.db { jobs = row ∷ w.db.jobs }; env = [] }

  create_job-row : create_job params w ≡ (ok row, inserted)
  unfolding create_job Jobs.create_job job_params
  create_job-row =
      query-first u (Jobs.create_job params) w a.draws ∙ rw (a.new_id, a.new_key, a.device) refl

  Stands-inserted : Stands u 3 0 state_accepted w.outbox inserted
  unfolding new_job job_params find_job
  Stands-inserted = record {
    calm = refl;
    job = row;
    found = rw ((==_iff u u).1 refl) refl;
    has_limit = refl;
    has_attempts = refl;
    has_state = refl;
    outbox = refl;
  }

  -- The submission succeeds; the job stands QUEUED with three attempts, and its announcement is the
  -- newest message.
  pub submit-Queued :
      (w' : World) × (m : Message) × (submit cx typ dev key payload w ≡ (ok tt, w'))
      × Stands u 3 0 state_queued (m ∷ w.outbox) w'
      × (m.topic ≡ "jobs." <> tier)
      × (m.value ≡ cx.marshal_object (job_message cx row))
      × (other_tables w'.db ≡ other_tables w.db)
  unfolding submit tier_result lift announce mark_queued pure state_check new_job job_params
  submit-Queued =
      let sent =
        publish-calm ("jobs." <> tier) dev (cx.marshal_object (job_message cx row)) inserted refl in
      let (j, w₂, e, s) = Stands-to_state (Stands-send _ Stands-inserted) state_queued none refl in
      (
        w₂,
        _,
        bind-ok _ _ w (wrapping-ok "tier" _ w (ap (λ o. (tier_result cx typ o, w)) a.tier_of))
            ∙ bind-ok _ _ w (wrapping-ok "create job" _ w create_job-row)
            ∙ bind-ok _ _ inserted (wrapping-ok "publish" _ inserted sent)
            ∙ bind-attempt _ _ _ e,
        s,
        refl,
        refl,
        to_state-other_tables _ _ _ _ w₂ refl e,
      )
