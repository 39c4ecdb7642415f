-- ===== src/System/Rows.antt =====
-- Conditions on single rows of `jobs`: one that each change of a row keeps is kept by every program.
use processing_platform.Prelude.{
  ℕ, String, ◌≡◌, refl, sym, subst, inl, inr, Bool, true, false, Option, none, some, List, ◌∷◌,
  ◌==◌, ==_iff, any, All, All-update, All-weaken, Bool-cases, Option-cases,
}
use processing_platform.World.{Message}
use processing_platform.World.Keeps.{Inv}
use processing_platform.Store.Rows.{
  Db, Job, CreateJobParams, UpdateJobStateParams, InsertDeviceMetricParams,
  InsertFirmwareAttemptParams, InsertCommandAuditParams, InsertAlertParams,
}
use processing_platform.Store.Sql.Base.{Stamp, has_device, find_job}
use processing_platform.Store.Sql.Jobs.{
  state_check, same_key, new_job, create_job, update_job, set_state, update_job_state, attempts_fit,
  add_attempt, increment_job_attempts, requeued, requeue_job, beaten, heartbeat,
}
use processing_platform.Store.Sql.Devices.{create_device, touch_device, update_device_firmware}
use processing_platform.Store.Sql.Records.{
  insert_row, insert_device_metric, firmware_state_check, insert_firmware_attempt,
  command_result_check, insert_audit_row, insert_command_audit, severity_check, insert_alert,
}
use processing_platform.System.Kept.{Kept, Evidence}

abbrev pub RowInv : Type 1
RowInv = List Message → Job → Type 0

-- Every row satisfies R.
abbrev pub Rows : RowInv → Inv
Rows R db o = All (R o) db.jobs

pub record RowKept (uuid_string : ℕ → String) (R : RowInv) : Type 0 where
  pub by_new_job : (p : CreateJobParams) (s : Stamp) (o : List Message) → R o (new_job p s)
  pub by_message : (m : Message) (o : List Message) (j : Job) → R o j → R (m ∷ o) j
  pub by_beaten : (t : ℕ) (o : List Message) (j : Job) → R o j → R o (beaten t j)
  pub by_set_state :
      (p : UpdateJobStateParams) (t : ℕ) (o : List Message) (j : Job)
      → Evidence (uuid_string j.id) p.state o
      → R o j
      → R o (set_state p t j)
  pub by_add_attempt : (t : ℕ) (o : List Message) (j : Job) → R o j → R o (add_attempt t j)
  pub by_requeued : (t : ℕ) (o : List Message) (j : Job) → R o j → R o (requeued t j)

-- The other tables' statements leave `jobs` alone.
pub jobs-insert_row :
    {A : Type 0} (check taken : Bool) (device_id : String) (row : A) (after : Db) (s : Stamp)
    (db : Db)
    → after.jobs ≡ db.jobs
    → (insert_row check taken device_id row after s db).1.jobs ≡ db.jobs
unfolding insert_row
jobs-insert_row false taken device_id row after s db e = refl
jobs-insert_row true true device_id row after s db e = refl
jobs-insert_row true false device_id row after s db e =
    elim (Bool-cases (has_device device_id db)) [ inl d ↦ rw d e | inr d ↦ rw d refl ]

pub jobs-insert_audit_row :
    (p : InsertCommandAuditParams) (a : Option String) (s : Stamp) (db : Db)
    → (insert_audit_row p a s db).1.jobs ≡ db.jobs
unfolding insert_audit_row
jobs-insert_audit_row p none s db = refl
jobs-insert_audit_row p (some a) s db =
    jobs-insert_row (command_result_check p.result) _ _ _ _ s db refl

pub jobs-insert_device_metric :
    (p : InsertDeviceMetricParams) (s : Stamp) (db : Db)
    → (insert_device_metric p s db).1.jobs ≡ db.jobs
unfolding insert_device_metric
jobs-insert_device_metric p s db = jobs-insert_row true _ _ _ _ s db refl

pub jobs-insert_firmware_attempt :
    (p : InsertFirmwareAttemptParams) (s : Stamp) (db : Db)
    → (insert_firmware_attempt p s db).1.jobs ≡ db.jobs
unfolding insert_firmware_attempt
jobs-insert_firmware_attempt p s db =
    jobs-insert_row (firmware_state_check p.state) _ _ _ _ s db refl

pub jobs-insert_command_audit :
    (p : InsertCommandAuditParams) (s : Stamp) (db : Db)
    → (insert_command_audit p s db).1.jobs ≡ db.jobs
unfolding insert_command_audit
jobs-insert_command_audit p s db = jobs-insert_audit_row p p.arguments s db

pub jobs-insert_alert :
    (p : InsertAlertParams) (s : Stamp) (db : Db) → (insert_alert p s db).1.jobs ≡ db.jobs
unfolding insert_alert
jobs-insert_alert p s db = jobs-insert_row (severity_check p.severity) _ _ _ _ s db refl

pub jobs-create_device :
    (id : String) (s : Stamp) (db : Db) → (create_device id s db).1.jobs ≡ db.jobs
unfolding create_device
jobs-create_device id s db = elim (Bool-cases (has_device id db)) [
  | inl d ↦ rw d refl
  | inr d ↦ rw d refl
]

module _ {uuid_string : ℕ → String} {R : RowInv} (k : RowKept uuid_string R) where
  Rows-update_job :
      (id : ℕ) (f : Job → Job) (db : Db) (o : List Message)
      → ((j : Job) → j.id ≡ id → R o j → R o (f j))
      → Rows R db o
      → Rows R (update_job id f db).1 o
  unfolding update_job
  Rows-update_job id f db o h r = elim (Option-cases (find_job id db)) [
    | inl e ↦ rw (e, update_job) r
    | inr (j, e) ↦
        rw (e, update_job)
          (All-update (R o) (λ (x : Job). x.id == id) f (λ x t. h x ((==_iff _ _).0 t)) db.jobs r)
  ]

  Rows-create_job :
      (p : CreateJobParams) (s : Stamp) (db : Db) (o : List Message)
      → Rows R db o
      → Rows R (create_job p s db).1 o
  unfolding create_job
  Rows-create_job p s db o r = elim (Bool-cases (any (λ (j : Job). j.id == s.uuid) db.jobs)) [
    | inl e ↦ rw e r
    | inr a ↦ elim (Bool-cases (any (same_key p.idempotency_key p.type) db.jobs)) [
      | inl e ↦ rw (a, e) r
      | inr b ↦ elim (Bool-cases (has_device p.device_id db)) [
        | inr e ↦ rw (a, b, e) r
        | inl e ↦ rw (a, b, e) (k.by_new_job p s o, r)
      ]
    ]
  ]

  Rows-update_job_state :
      (p : UpdateJobStateParams) (s : Stamp) (db : Db) (o : List Message)
      → Evidence (uuid_string p.id) p.state o
      → Rows R db o
      → Rows R (update_job_state p s db).1 o
  unfolding update_job_state
  Rows-update_job_state p s db o ev r = elim (Bool-cases (state_check p.state)) [
    | inl e ↦ rw e (
        Rows-update_job p.id (set_state p s.now) db o
          (λ j q h.
            k.by_set_state p s.now o j (subst (λ i. Evidence (uuid_string i) p.state o) (sym q) ev)
              h)
          r)
    | inr e ↦ rw e (elim (Option-cases (find_job p.id db)) [
      | inl n ↦ rw (n, update_job_state) r
      | inr (j, n) ↦ rw (n, update_job_state) r
    ])
  ]

  Rows-increment :
      (id : ℕ) (s : Stamp) (db : Db) (o : List Message)
      → Rows R db o
      → Rows R (increment_job_attempts id s db).1 o
  unfolding increment_job_attempts
  Rows-increment id s db o r = elim (Bool-cases (attempts_fit id db)) [
    | inl e ↦
        rw e (Rows-update_job id (add_attempt s.now) db o (λ j _ h. k.by_add_attempt s.now o j h) r)
    | inr e ↦ rw e r
  ]

  Rows-requeue :
      (id : ℕ) (s : Stamp) (db : Db) (o : List Message)
      → Rows R db o
      → Rows R (requeue_job id s db).1 o
  unfolding requeue_job
  Rows-requeue id s db o r = elim (Bool-cases (attempts_fit id db)) [
    | inl e ↦ rw e (Rows-update_job id (requeued s.now) db o (λ j _ h. k.by_requeued s.now o j h) r)
    | inr e ↦ rw e r
  ]

  pub Rows-Kept : Kept uuid_string (Rows R)
  unfolding heartbeat touch_device update_device_firmware
  Rows-Kept = record {
    by_beat = record {
      beat = λ t id db o r.
          All-update (R o) (λ (x : Job). x.id == id) (beaten t) (λ j _ h. k.by_beaten t o j h)
            db.jobs r;
    };
    by_message = λ m db o r. All-weaken (R o) (R (m ∷ o)) (k.by_message m o) db.jobs r;
    by_create_job = Rows-create_job;
    by_update_job_state = Rows-update_job_state;
    by_increment = Rows-increment;
    by_requeue = Rows-requeue;
    by_create_device = λ id s db o r. rw (jobs-create_device id s db) r;
    by_touch_device = λ id s db o r. r;
    by_device_firmware = λ id v s db o r. r;
    by_metric = λ p s db o r. rw (jobs-insert_device_metric p s db) r;
    by_firmware = λ p s db o r. rw (jobs-insert_firmware_attempt p s db) r;
    by_audit = λ p s db o r. rw (jobs-insert_command_audit p s db) r;
    by_alert = λ p s db o r. rw (jobs-insert_alert p s db) r;
  }
