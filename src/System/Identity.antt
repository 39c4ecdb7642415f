-- ===== src/System/Identity.antt =====
-- A job that is in the table stays there, with what identifies it.
use processing_platform.Prelude.{
  ℕ, String, ◌≡◌, refl, inl, inr, List, ◌==◌, any, Any, Bool-cases, Option-cases, Any-update,
}
use processing_platform.World.{Message}
use processing_platform.World.Keeps.{Inv}
use processing_platform.Store.Rows.{Db, Job, CreateJobParams, UpdateJobStateParams}
use processing_platform.Store.Sql.Base.{Stamp, has_device, find_job}
use processing_platform.Store.Sql.Jobs.{
  state_check, same_key, create_job, update_job, set_state, update_job_state, attempts_fit,
  add_attempt, increment_job_attempts, requeued, requeue_job, beaten, heartbeat,
}
use processing_platform.Store.Sql.Devices.{touch_device, update_device_firmware}
use processing_platform.System.Kept.{Kept}
use processing_platform.System.Rows.{
  jobs-insert_device_metric, jobs-insert_firmware_attempt, jobs-insert_command_audit,
  jobs-insert_alert, jobs-create_device,
}

-- What identifies a job: the columns that no statement changes.
pub record Identity : Type 0 where
  pub id : ℕ
  pub type : String
  pub tier : String
  pub device_id : String
  pub payload : String
  pub idempotency_key : String
  pub max_attempts : ℕ
  pub created_at : ℕ

abbrev pub identity : Job → Identity
identity j = record {
  id = j.id;
  type = j.type;
  tier = j.tier;
  device_id = j.device_id;
  payload = j.payload;
  idempotency_key = j.idempotency_key;
  max_attempts = j.max_attempts;
  created_at = j.created_at;
}

abbrev pub HasJob : Identity → Inv
HasJob i db o = Any (λ (j : Job). identity j ≡ i) db.jobs

module _ (i : Identity) where
  HasJob-update_job :
      (id : ℕ) (f : Job → Job) (db : Db) (o : List Message)
      → ((j : Job) → identity (f j) ≡ identity j)
      → HasJob i db o
      → HasJob i (update_job id f db).1 o
  unfolding update_job
  HasJob-update_job id f db o h r = elim (Option-cases (find_job id db)) [
    | inl e ↦ rw (e, update_job) r
    | inr (j, e) ↦
        rw (e, update_job)
          (Any-update (λ (j : Job). identity j ≡ i) (λ x. x.id == id) f (λ x q. rw (h x) q) db.jobs
            r)
  ]

  HasJob-create_job :
      (p : CreateJobParams) (s : Stamp) (db : Db) (o : List Message)
      → HasJob i db o
      → HasJob i (create_job p s db).1 o
  unfolding create_job
  HasJob-create_job p s db o r = elim (Bool-cases (any (λ (j : Job). j.id == s.uuid) db.jobs)) [
    | inl e ↦ rw e r
    | inr a ↦ elim (Bool-cases (any (same_key p.idempotency_key p.type) db.jobs)) [
      | inl e ↦ rw (a, e) r
      | inr b ↦ elim (Bool-cases (has_device p.device_id db)) [
        | inr e ↦ rw (a, b, e) r
        | inl e ↦ rw (a, b, e) (inr r)
      ]
    ]
  ]

  pub HasJob-update_job_state :
      (p : UpdateJobStateParams) (s : Stamp) (db : Db) (o : List Message)
      → HasJob i db o
      → HasJob i (update_job_state p s db).1 o
  unfolding update_job_state set_state
  HasJob-update_job_state p s db o r = elim (Bool-cases (state_check p.state)) [
    | inl e ↦ rw e (HasJob-update_job p.id (set_state p s.now) db o (λ j. refl) r)
    | inr e ↦ rw e (elim (Option-cases (find_job p.id db)) [
      | inl n ↦ rw (n, update_job_state) r
      | inr (j, n) ↦ rw (n, update_job_state) r
    ])
  ]

  HasJob-increment :
      (id : ℕ) (s : Stamp) (db : Db) (o : List Message)
      → HasJob i db o
      → HasJob i (increment_job_attempts id s db).1 o
  unfolding increment_job_attempts
  HasJob-increment id s db o r = elim (Bool-cases (attempts_fit id db)) [
    | inl e ↦ rw e (HasJob-update_job id (add_attempt s.now) db o (λ j. refl) r)
    | inr e ↦ rw e r
  ]

  HasJob-requeue :
      (id : ℕ) (s : Stamp) (db : Db) (o : List Message)
      → HasJob i db o
      → HasJob i (requeue_job id s db).1 o
  unfolding requeue_job
  HasJob-requeue id s db o r = elim (Bool-cases (attempts_fit id db)) [
    | inl e ↦ rw e (HasJob-update_job id (requeued s.now) db o (λ j. refl) r)
    | inr e ↦ rw e r
  ]

  pub HasJob-Kept : {u : ℕ → String} → Kept u (HasJob i)
  unfolding heartbeat touch_device update_device_firmware
  HasJob-Kept = record {
    by_beat = record {
      beat = λ t id db o r.
          Any-update (λ (j : Job). identity j ≡ i) (λ x. x.id == id) (beaten t) (λ x q. q) db.jobs
            r;
    };
    by_message = λ m db o r. r;
    by_create_job = HasJob-create_job;
    by_update_job_state = λ p s db o ev r. HasJob-update_job_state p s db o r;
    by_increment = HasJob-increment;
    by_requeue = HasJob-requeue;
    by_create_device = λ id s db o r. rw (jobs-create_device id s db) r;
    by_touch_device = λ id s db o r. r;
    by_device_firmware = λ id v s db o r. r;
    by_metric = λ p s db o r. rw (jobs-insert_device_metric p s db) r;
    by_firmware = λ p s db o r. rw (jobs-insert_firmware_attempt p s db) r;
    by_audit = λ p s db o r. rw (jobs-insert_command_audit p s db) r;
    by_alert = λ p s db o r. rw (jobs-insert_alert p s db) r;
  }
