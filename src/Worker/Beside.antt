-- ===== src/Worker/Beside.antt =====
-- What an update of a job's state leaves alone: the other tables.
use processing_platform.Prelude.{
  ℕ, String, ◌≡◌, refl, sym, ap, ◌∙◌, inl, inr, Option, [], Bool-cases, Option-cases,
}
use processing_platform.Failure.{Result}
use processing_platform.World.{World}
use processing_platform.World.Calm.{query-calm, calm_stamp}
use processing_platform.Store.Rows.{Db, Job, UpdateJobStateParams}
use processing_platform.Store.Sql.Base.{Stamp, find_job}
use processing_platform.Store.Sql.Jobs
use processing_platform.Store.Sql.Jobs.{update_job, set_state, state_check}
use processing_platform.Store.Queries.{update_job_state}
use processing_platform.Worker.{to_state}

-- The tables without the jobs.
abbrev pub other_tables : Db → Db
other_tables db = record db { jobs = [] }

update_job-other_tables :
    (id : ℕ) (f : Job → Job) (db : Db) → other_tables (update_job id f db).1 ≡ other_tables db
unfolding update_job
update_job-other_tables id f db = elim (Option-cases (find_job id db)) [
  | inl e ↦ rw (e, update_job) refl
  | inr (j, e) ↦ rw (e, update_job) refl
]

update_job_state-other_tables :
    (arg : UpdateJobStateParams) (s : Stamp) (db : Db)
    → other_tables (Jobs.update_job_state arg s db).1 ≡ other_tables db
unfolding Jobs.update_job_state
update_job_state-other_tables arg s db = elim (Bool-cases (state_check arg.state)) [
  | inl e ↦ rw e (update_job-other_tables arg.id (set_state arg s.now) db)
  | inr e ↦ elim (Option-cases (find_job arg.id db)) [
    | inl n ↦ rw (e, n) refl
    | inr (j, n) ↦ rw (e, n) refl
  ]
]

pub to_state-other_tables :
    {r : Result Job} (id : ℕ) (next : String) (last_error : Option String) (w w' : World)
    → w.env ≡ []
    → to_state id next last_error w ≡ (r, w')
    → other_tables w'.db ≡ other_tables w.db
unfolding update_job_state
to_state-other_tables id next last_error w w' calm e =
    ap (λ (x : Result Job × World). other_tables x.1.db)
      (sym e ∙ query-calm (Jobs.update_job_state _) w calm)
    ∙ update_job_state-other_tables _ (calm_stamp w) w.db
